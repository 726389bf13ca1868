-- ===== src/Fd/Table/Calls.antt =====
-- The calls of src/user/syscall.cpp on a descriptor table keep the reference counts of the pipes.
use los_tac_os.Base.{
  ℕ, ◌<◌, ◌≡◌, ◌⊎◌, refl, true, false, arith, Bool-cases, inl, inr, none, some, Option-cases,
}
use los_tac_os.Base.Int.{int32}
use los_tac_os.Fd.{
  FdEntry, zeroed, Sys, Drivers, Outcome, done, Slot, set_entry, max_fds, is_free, is_pipe,
  open_entry, fail,
}
use los_tac_os.Fd.Lookup.{IsOpen, open_entry-IsOpen}
use los_tac_os.Fd.Table.{close_handle, release_end, close_slot, sys_close}
use los_tac_os.Fd.Table.Refs.{Inv, release_end-Inv, set_plain-Inv}

free→plain : (e : FdEntry) → is_free e.kind ≡ true → is_pipe e.kind ≡ false
free→plain e h = ground arith

module _ {W : Type 0} where
  pub close_handle-world :
      (d : Drivers W) (e : FdEntry) (s : Sys W)
      → (w : W) × (close_handle d e s ≡ record s { world = w })
  unfolding close_handle
  close_handle-world d e s = elim (Option-cases e.mount) [
    | inl a ↦ (s.world, rw a)
    | inr (m, a) ↦ elim (Option-cases e.fs_handle) [
      | inl b ↦ (s.world, rw (a, b))
      | inr (h, b) ↦ elim (Option-cases (d.fs_close m)) [
        | inl c ↦ (s.world, rw (a, b, c))
        | inr (close, c) ↦ (close h s.world, rw (a, b, c))
      ]
    ]
  ]

  pub world-Inv : (np : ℕ) (s : Sys W) (w : W) → Inv np s → Inv np (record s { world = w })
  world-Inv np s w v = record {
    owner = v.owner;
    readers = v.readers;
    writers = v.writers;
    used = v.used;
    real = v.real;
  }

  -- A call that closed `slot`: it returned 0, the entry is cleared, and no other entry changed.
  pub data Closed (np : ℕ) (slot : Slot) (s : Sys W) : Outcome W ℕ → Type 0 where
    closed :
        {s' : Sys W}
        → Inv np s'
        → s'.fds ≡ (set_entry slot zeroed s).fds
        → Closed np slot s (done 0 s')

  release_end-fds :
      (p k i : ℕ) (s : Sys W)
      → (set_entry (p, k) zeroed (release_end (s.fds p k) i s)).fds
        ≡ (set_entry (p, k) zeroed s).fds
  unfolding release_end
  release_end-fds p k i s = refl

  close_slot-Closed :
      (np p k : ℕ) (s : Sys W)
      → Inv np s
      → p < np
      → k < max_fds
      → Closed np (p, k) s (close_slot (p, k) (s.fds p k) s)
  unfolding close_slot
  close_slot-Closed np p k s v hp hk = elim (Bool-cases (is_pipe (s.fds p k).kind)) [
    | inr plain ↦ rw plain (closed (set_plain-Inv np s v p k hp hk zeroed plain refl) refl)
    | inl shared ↦ elim (Option-cases (s.fds p k).pipe) [
      | inl null ↦ absurd (v.real p k shared null)
      | inr (i, e) ↦
          rw (shared, e)
            (closed (release_end-Inv np s v p k hp hk i shared e) (release_end-fds p k i s))
    ]
  ]

  close_slot-world :
      (np p k : ℕ) (s : Sys W) (w : W) {r : Outcome W ℕ}
      → Closed np (p, k) (record s { world = w }) r
      → Closed np (p, k) s r
  close_slot-world np p k s w (closed v e) = closed v e

  -- With correct reference counts, sys_close fails and changes nothing where the descriptor is not
  -- open; otherwise it follows no null pointer, clears that entry alone, returns 0, and the counts
  -- stay correct.
  pub sys_close-Closed :
      (d : Drivers W) (np a : ℕ) (s : Sys W)
      → Inv np s
      → ((open_entry (int32 a) s ≡ none) × (sys_close d a s ≡ done fail s))
        ⊎ ((slot : Slot) × (open_entry (int32 a) s ≡ some slot)
            × Closed np slot s (sys_close d a s))
  unfolding sys_close
  sys_close-Closed d np a s v = elim (Option-cases (open_entry (int32 a) s)) [
    | inl e ↦ inl (e, rw (e, sys_close))
    | inr ((p, k), e) ↦
        let (w, c) = close_handle-world d (s.fds p k) s in
        let o : IsOpen (p, k) s = open_entry-IsOpen (int32 a) s (p, k) e in
        inr (
          (p, k),
          e,
          rw (e, sys_close, c)
              (close_slot-world np p k s w (
                close_slot-Closed np p k (record s { world = w }) (world-Inv np s w v)
                  (v.owner p o.owner) o.bound)),
        )
  ]
