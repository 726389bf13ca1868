-- ===== src/Fd/Table/Exit.antt =====
-- sys_close_all of src/user/syscall.cpp, which runs when a process exits or is killed.
use los_tac_os.Base.{
  ℕ, zero, suc, ◌+◌, ◌≤◌, ◌<◌, ◌≡◌, ◌≢◌, refl, ◌∙◌, true, arith, ◌==◌, Bool-cases, inl, inr, some,
  Option-cases,
}
use los_tac_os.Base.Int.{is_zero, le_zero}
use los_tac_os.Fd.{zeroed, Sys, Drivers, set_entry, max_fds, is_free, is_pipe}
use los_tac_os.Fd.Table.{
  close_entry, close_all_loop, sys_close_all, release_end, release_end_le, drop_end,
}
use los_tac_os.Fd.Table.Calls.{close_handle-world, world-Inv}
use los_tac_os.Fd.Table.Count.{count_all-set}
use los_tac_os.Fd.Table.Refs.{Inv, is_reader, is_writer, release_end-Inv, set_plain-Inv}

-- After the closing of one entry: the counts are right, the entry is free, and the others are as
-- before.
record Cleared {W : Type 0} (np p k : ℕ) (s s' : Sys W) : Type 0 where
  inv : Inv np s'
  gone : is_free (s'.fds p k).kind ≡ true
  kept : (q j : ℕ) → is_free (s.fds q j).kind ≡ true → is_free (s'.fds q j).kind ≡ true
  others : (q j : ℕ) → q ≢ p → s'.fds q j ≡ s.fds q j

module _ {W : Type 0} where
  zeroed-Cleared :
      (np p k : ℕ) (s s' : Sys W)
      → Inv np s'
      → s'.fds ≡ (set_entry (p, k) zeroed s).fds
      → Cleared np p k s s'
  zeroed-Cleared np p k s s' v e = record {
    inv = v;
    gone = rw e (ground arith);
    kept = λ q j f. rw e (ground arith);
    others = λ q j ne. rw e (ground arith);
  }

  module _ (np p k i : ℕ) (s : Sys W) (v : Inv np s) (hp : p < np) (hk : k < max_fds)
      (shared : is_pipe (s.fds p k).kind ≡ true) (e : (s.fds p k).pipe ≡ some i) where
    readers_zero :
        le_zero (drop_end (s.fds p k) (s.pipes i)).readers
        ≡ is_zero (drop_end (s.fds p k) (s.pipes i)).readers
    unfolding drop_end
    readers_zero =
        ground (arith, v.readers i, count_all-set (is_reader i) 32 np p k s.fds zeroed hp hk)

    writers_zero :
        le_zero (drop_end (s.fds p k) (s.pipes i)).writers
        ≡ is_zero (drop_end (s.fds p k) (s.pipes i)).writers
    unfolding drop_end
    writers_zero =
        ground (arith, v.writers i, count_all-set (is_writer i) 32 np p k s.fds zeroed hp hk)

    -- With correct counts the tests `<= 0` and `== 0` agree.
    release_end_le-eq : release_end_le (s.fds p k) i s ≡ release_end (s.fds p k) i s
    unfolding release_end_le release_end
    release_end_le-eq = rw (readers_zero, writers_zero)

  release_end-fds :
      (p k i : ℕ) (s : Sys W)
      → (set_entry (p, k) zeroed (release_end (s.fds p k) i s)).fds
        ≡ (set_entry (p, k) zeroed s).fds
  unfolding release_end
  release_end-fds p k i s = refl

  close_entry-Cleared :
      (d : Drivers W) (np p k : ℕ) (s : Sys W)
      → Inv np s
      → p < np
      → k < max_fds
      → Cleared np p k s (close_entry d (p, k) s)
  unfolding close_entry
  close_entry-Cleared d np p k s v hp hk = elim (Bool-cases (is_free (s.fds p k).kind)) [
    | inl free ↦
        rw (free, close_entry)
          (record { inv = v; gone = free; kept = λ q j f. f; others = λ q j ne. refl })
    | inr busy ↦ elim (Bool-cases (is_pipe (s.fds p k).kind)) [
      | inr plain ↦
          let (w, c) = close_handle-world d (s.fds p k) s in
          rw (busy, plain, c, close_entry)
            (zeroed-Cleared np p k s (set_entry (p, k) zeroed (record s { world = w }))
              (set_plain-Inv np (record s { world = w }) (world-Inv np s w v) p k hp hk zeroed plain
                refl)
              refl)
      | inl shared ↦ elim (Option-cases (s.fds p k).pipe) [
        | inl null ↦ absurd (v.real p k shared null)
        | inr (i, e) ↦
            rw (busy, shared, e, close_entry)
              (rw (release_end_le-eq np p k i s v hp hk shared e) (
                zeroed-Cleared np p k s (set_entry (p, k) zeroed (release_end (s.fds p k) i s))
                  (release_end-Inv np s v p k hp hk i shared e) (release_end-fds p k i s)))
      ]
    ]
  ]

  -- What a whole table's closing does.
  pub record Exited (np p n : ℕ) (s s' : Sys W) : Type 0 where
    pub inv : Inv np s'
    pub gone : (j : ℕ) → j < n → is_free (s'.fds p j).kind ≡ true
    pub others : (q j : ℕ) → q ≢ p → s'.fds q j ≡ s.fds q j

  close_all_loop-Exited :
      (d : Drivers W) (np p n i m : ℕ) (s₀ s : Sys W)
      → p < np
      → i + n ≡ m
      → m ≤ max_fds
      → Exited np p i s₀ s
      → Exited np p m s₀ (close_all_loop d p n i s)
  unfolding close_all_loop
  close_all_loop-Exited d np p zero i m s₀ s hp e l x = record {
    inv = x.inv;
    gone = λ j h. x.gone j (omega arith);
    others = x.others;
  }
  close_all_loop-Exited d np p (suc n) i m s₀ s hp e l x =
      let c : Cleared np p i s (close_entry d (p, i) s) =
        close_entry-Cleared d np p i s x.inv hp (omega arith) in
      close_all_loop-Exited d np p n (i + 1) m s₀ (close_entry d (p, i) s) hp (omega arith) l
        (record {
          inv = c.inv;
          gone = λ j h. elim (Bool-cases (j == i)) [
            | inl q ↦ let r : j ≡ i = ground arith in rw r c.gone
            | inr q ↦ c.kept p j (x.gone j (ground arith))
          ];
          others = λ q j ne. c.others q j ne ∙ x.others q j ne;
        })

  -- With correct reference counts, sys_close_all leaves all 32 descriptors of its process free,
  -- those of the other processes as they were, and the counts correct.
  pub sys_close_all-Exited :
      (d : Drivers W) (np p : ℕ) (s : Sys W)
      → Inv np s
      → p < np
      → Exited np p max_fds s (sys_close_all d p s)
  unfolding sys_close_all
  sys_close_all-Exited d np p s v hp =
      close_all_loop-Exited d np p max_fds 0 max_fds s s hp refl (omega arith)
        (record { inv = v; gone = λ j h. absurd (omega arith); others = λ q j ne. refl })
