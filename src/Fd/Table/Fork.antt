-- ===== src/Fd/Table/Fork.antt =====
-- The copy of a descriptor table by sched::clone, src/kernel/sched/scheduler.cpp.
use los_tac_os.Base.{
  ℕ, zero, suc, ◌+◌, ◌≤◌, ◌<◌, ◌≡◌, refl, ap, sym, ◌∙◌, Bool, false, arith, update,
}
use los_tac_os.Base.Int.{pos}
use los_tac_os.Fd.{FdEntry, zeroed, Sys, max_fds, is_pipe}
use los_tac_os.Fd.Table.{share_end, add_end, share_loop, clone_fds}
use los_tac_os.Fd.Table.Count.{
  one_if, count_all, count_all-update, count_row-none, count_from, count_from-row,
}
use los_tac_os.Fd.Table.Refs.{Inv, is_reader, is_writer, readers_of, writers_of}

plain_reader : (i : ℕ) (e : FdEntry) → is_pipe e.kind ≡ false → is_reader i e ≡ false
plain_reader i e h = ground arith

plain_writer : (i : ℕ) (e : FdEntry) → is_pipe e.kind ≡ false → is_writer i e ≡ false
plain_writer i e h = ground arith

module _ {W : Type 0} where
  share_end-readers :
      (e : FdEntry) (s : Sys W) (j r : ℕ)
      → (s.pipes j).readers ≡ pos r
      → ((share_end e s).pipes j).readers ≡ pos (r + one_if (is_reader j e))
  unfolding share_end add_end
  share_end-readers e s j r h = ground arith

  share_end-writers :
      (e : FdEntry) (s : Sys W) (j r : ℕ)
      → (s.pipes j).writers ≡ pos r
      → ((share_end e s).pipes j).writers ≡ pos (r + one_if (is_writer j e))
  unfolding share_end add_end
  share_end-writers e s j r h = ground arith

  -- What the loop leaves alone.
  record SameTables (s s' : Sys W) : Type 0 where
    current : s'.current ≡ s.current
    fds : s'.fds ≡ s.fds
    used : s'.pipe_used ≡ s.pipe_used

  share_end-same : (e : FdEntry) (s : Sys W) → SameTables s (share_end e s)
  unfolding share_end
  share_end-same e s = ground arith

  share_loop-same : (n i : ℕ) (t : ℕ → FdEntry) (s : Sys W) → SameTables s (share_loop n i t s)
  unfolding share_loop
  share_loop-same zero i t s = record { current = refl; fds = refl; used = refl }
  share_loop-same (suc n) i t s =
      let a = share_end-same (t i) s in
      let b = share_loop-same n (i + 1) t (share_end (t i) s) in
      record { current = b.current ∙ a.current; fds = b.fds ∙ a.fds; used = b.used ∙ a.used }

  share_loop-readers :
      (n i : ℕ) (t : ℕ → FdEntry) (s : Sys W) (j r : ℕ)
      → (s.pipes j).readers ≡ pos r
      → ((share_loop n i t s).pipes j).readers ≡ pos (r + count_from (is_reader j) n i t)
  unfolding share_loop count_from
  share_loop-readers zero i t s j r h = ground arith
  share_loop-readers (suc n) i t s j r h = ground (
    arith,
    share_loop-readers n (i + 1) t (share_end (t i) s) j (r + one_if (is_reader j (t i)))
        (share_end-readers (t i) s j r h),
  )

  share_loop-writers :
      (n i : ℕ) (t : ℕ → FdEntry) (s : Sys W) (j r : ℕ)
      → (s.pipes j).writers ≡ pos r
      → ((share_loop n i t s).pipes j).writers ≡ pos (r + count_from (is_writer j) n i t)
  unfolding share_loop count_from
  share_loop-writers zero i t s j r h = ground arith
  share_loop-writers (suc n) i t s j r h = ground (
    arith,
    share_loop-writers n (i + 1) t (share_end (t i) s) j (r + one_if (is_writer j (t i)))
        (share_end-writers (t i) s j r h),
  )

  module _ (np parent child : ℕ) (s : Sys W) (v : Inv np s) (hp : parent < np) (hc : child < np)
      (fresh : (k : ℕ) → is_pipe (s.fds child k).kind ≡ false) where
    -- The rows of the parent and of the child, and the two totals.
    totals :
        (f : FdEntry → Bool)
        → ((e : FdEntry) → is_pipe e.kind ≡ false → f e ≡ false)
        → (count_all f max_fds np (update s.fds child (s.fds parent))
            ≡ count_all f max_fds np s.fds + count_from f max_fds 0 (s.fds parent))
          × (count_from f max_fds 0 (s.fds parent) ≤ count_all f max_fds np s.fds)
    totals f plain = omega (
      arith,
      count_all-update f 32 np child s.fds (s.fds parent) hc,
      count_row-none f 32 (s.fds child) (λ k. plain (s.fds child k) (fresh k)),
      count_from-row f 32 (s.fds parent),
      count_all-update f 32 np parent s.fds (λ _. zeroed) hp,
      count_row-none f 32 (λ _. zeroed) (λ k. plain zeroed refl),
    )

    -- Where the new process's table holds no pipe yet, the copy of the parent's table keeps the
    -- reference counts correct over all processes, and the child has the parent's descriptors.
    pub clone_fds-Inv :
        Inv np (clone_fds parent child s)
        × ((clone_fds parent child s).fds ≡ update s.fds child (s.fds parent))
    unfolding clone_fds
    clone_fds-Inv =
        let s₁ : Sys W = record s { fds = update s.fds child (s.fds parent) } in
        let same = share_loop-same max_fds 0 (s.fds parent) s₁ in
        (
          record {
            owner = λ p e. v.owner p (sym same.current ∙ e);
            readers = λ j. rw same.fds (
                share_loop-readers max_fds 0 (s.fds parent) s₁ j (readers_of np j s) (v.readers j)
                ∙ ap pos (sym (totals (is_reader j) (plain_reader j)).0));
            writers = λ j. rw same.fds (
                share_loop-writers max_fds 0 (s.fds parent) s₁ j (writers_of np j s) (v.writers j)
                ∙ ap pos (sym (totals (is_writer j) (plain_writer j)).0));
            used = λ j.
                rw (same.fds, same.used)
                  (ground (
                    arith,
                    v.used j,
                    totals (is_reader j) (plain_reader j),
                    totals (is_writer j) (plain_writer j),
                  ));
            real = λ p n. rw same.fds (ground (arith, v.real p n, v.real parent n));
          },
          same.fds,
        )
