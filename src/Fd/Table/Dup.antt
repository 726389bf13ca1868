-- ===== src/Fd/Table/Dup.antt =====
-- dup, dup2 and the F_DUPFD commands of fcntl, src/user/syscall.cpp, and the reference counts.
use los_tac_os.Base.{
  ℕ, ◌-◌, ◌≤◌, ◌<◌, ◌≡◌, ◌≢◌, ◌⊎◌, refl, ap, true, false, arith, leb, Bool-cases, inl, inr, Option,
  none, some, Option-cases,
}
use los_tac_os.Base.Int.{pos, int32}
use los_tac_os.Fd.{FdEntry, Sys, set_entry, max_fds, is_free, is_pipe, open_entry, first_free, fail}
use los_tac_os.Fd.Lookup.{IsOpen, open_entry-IsOpen, IsFirstFree, first_free-IsFirstFree}
use los_tac_os.Fd.Table.{sys_dup, sys_dup2, dup2_to, dup_from, share_end, add_end}
use los_tac_os.Fd.Table.Count.{count_all-set}
use los_tac_os.Fd.Table.Refs.{Inv, is_reader, share_end-Inv}

free→plain : (e : FdEntry) → is_free e.kind ≡ true → is_pipe e.kind ≡ false
free→plain e h = ground arith

module _ {W : Type 0} where
  share_end-fds : (e : FdEntry) (s : Sys W) → (share_end e s).fds ≡ s.fds
  unfolding share_end
  share_end-fds e s = ground arith

  -- What a duplication of descriptor `o` of process `p` among the descriptors from `m` on does: it
  -- takes the least free one, copies the entry there and counts the new end, or fails where none
  -- is free.
  pub data Dupped (np p o m : ℕ) (s : Sys W) : ℕ × Sys W → Type 0 where
    full :
        ((j : ℕ) → m ≤ j → j < max_fds → is_free (s.fds p j).kind ≡ false)
        → Dupped np p o m s (fail, s)
    copied :
        {s' : Sys W} (n : ℕ)
        → n < max_fds
        → is_free (s.fds p n).kind ≡ true
        → ((j : ℕ) → m ≤ j → j < n → is_free (s.fds p j).kind ≡ false)
        → s'.fds ≡ (set_entry (p, n) (s.fds p o) s).fds
        → Inv np s'
        → Dupped np p o m s (n, s')

  abbrev dup_at : ℕ → ℕ → Sys W → Option ℕ → ℕ × Sys W
  dup_at p o s r = elim r [
    | none ↦ (fail, s)
    | some n ↦ (n, share_end (s.fds p o) (set_entry (p, n) (s.fds p o) s))
  ]

  dup_at-Dupped :
      (np p o : ℕ) (s : Sys W) (r : Option ℕ)
      → Inv np s
      → p < np
      → o < max_fds
      → IsFirstFree max_fds 0 (s.fds p) r
      → Dupped np p o 0 s (dup_at p o s r)
  dup_at-Dupped np p o s none v hp ho f = full λ j a b. f j a (omega arith)
  dup_at-Dupped np p o s (some n) v hp ho f =
      copied n (omega arith) f.2 (λ j a b. f.3 j a b)
        (share_end-fds (s.fds p o) (set_entry (p, n) (s.fds p o) s))
        (share_end-Inv np s v p n hp (omega arith) o ho (free→plain (s.fds p n) f.2))

  -- With correct reference counts, sys_dup fails and changes nothing where the descriptor is not
  -- open or all 32 are in use; otherwise it copies the entry to the least free descriptor, returns
  -- that, and the counts stay correct.
  pub sys_dup-Dupped :
      (np a : ℕ) (s : Sys W)
      → Inv np s
      → ((open_entry (int32 a) s ≡ none) × (sys_dup a s ≡ (fail, s)))
        ⊎ ((p : ℕ) × (o : ℕ) × (open_entry (int32 a) s ≡ some (p, o))
            × Dupped np p o 0 s (sys_dup a s))
  unfolding sys_dup
  sys_dup-Dupped np a s v = elim (Option-cases (open_entry (int32 a) s)) [
    | inl e ↦ inl (e, rw (e, sys_dup))
    | inr ((p, o), e) ↦
        let open_ : IsOpen (p, o) s = open_entry-IsOpen (int32 a) s (p, o) e in
        inr (
          p,
          o,
          e,
          rw (e, sys_dup)
              (dup_at-Dupped np p o s (first_free max_fds 0 (s.fds p)) v (v.owner p open_.owner)
                open_.bound (first_free-IsFirstFree max_fds 0 (s.fds p))),
        )
  ]

  -- sys_dup2 onto a descriptor below 32 that holds no pipe end copies the entry there, returns the
  -- new descriptor, and keeps the reference counts correct.
  pub sys_dup2-Inv :
      (np a b n p o : ℕ) (s : Sys W)
      → Inv np s
      → open_entry (int32 a) s ≡ some (p, o)
      → int32 b ≡ pos n
      → n < max_fds
      → is_pipe (s.fds p n).kind ≡ false
      → ((sys_dup2 a b s).0 ≡ n)
        × ((sys_dup2 a b s).1.fds ≡ (set_entry (p, n) (s.fds p o) s).fds)
        × Inv np (sys_dup2 a b s).1
  unfolding sys_dup2 dup2_to
  sys_dup2-Inv np a b n p o s v e f l plain =
      let open_ : IsOpen (p, o) s = open_entry-IsOpen (int32 a) s (p, o) e in
      let below : leb max_fds n ≡ false = ground arith in
      rw (e, f, below, sys_dup2, dup2_to)
        (
          refl,
          share_end-fds (s.fds p o) (set_entry (p, n) (s.fds p o) s),
          share_end-Inv np s v p n (v.owner p open_.owner) l o open_.bound plain,
        )

  -- sys_dup2 onto a descriptor that holds the reading end of a pipe, from one that does not hold
  -- that end, leaves the pipe's count of readers too high, since the old end is never given back.
  pub sys_dup2_leaks :
      (np a b n p o i : ℕ) (s : Sys W)
      → Inv np s
      → open_entry (int32 a) s ≡ some (p, o)
      → int32 b ≡ pos n
      → n < max_fds
      → is_reader i (s.fds p n) ≡ true
      → is_reader i (s.fds p o) ≡ false
      → ¬ Inv np (sys_dup2 a b s).1
  unfolding sys_dup2 dup2_to share_end add_end
  sys_dup2_leaks np a b n p o i s v e f l reads other w = ground (
    arith,
    w.readers i,
    v.readers i,
    count_all-set (is_reader i) 32 np p n s.fds (s.fds p o)
        (v.owner p (IsOpen.owner (open_entry-IsOpen (int32 a) s (p, o) e))) l,
  )

  dup_from_at : ℕ → ℕ → Sys W → Option ℕ → ℕ × Sys W
  dup_from_at p o s none = (fail, s)
  dup_from_at p o s (some n) = (n, set_entry (p, n) (s.fds p o) s)

  dup_from_at_lem :
      (p o m : ℕ) (s : Sys W)
      → leb max_fds m ≡ false
      → dup_from (p, o) (pos m) s ≡ dup_from_at p o s (first_free (max_fds - m) m (s.fds p))
  unfolding dup_from dup_from_at
  dup_from_at_lem p o m s small = ground arith

  dup_from_big :
      (p o m : ℕ) (s : Sys W) → leb max_fds m ≡ true → dup_from (p, o) (pos m) s ≡ (fail, s)
  unfolding dup_from
  dup_from_big p o m s big = ground arith

  dup_from_at-uncounted :
      (np m p o i : ℕ) (s : Sys W) (r : Option ℕ)
      → Inv np s
      → p < np
      → m < max_fds
      → is_reader i (s.fds p o) ≡ true
      → IsFirstFree (max_fds - m) m (s.fds p) r
      → (dup_from_at p o s r).0 ≢ fail
      → ¬ Inv np (dup_from_at p o s r).1
  unfolding dup_from_at
  dup_from_at-uncounted np m p o i s none v hp hm reads f ok w = ok refl
  dup_from_at-uncounted np m p o i s (some n) v hp hm reads f ok w = ground (
    arith,
    w.readers i,
    v.readers i,
    f.2,
    count_all-set (is_reader i) 32 np p n s.fds (s.fds p o) hp (omega arith),
  )

  -- F_DUPFD on a descriptor of a pipe's reading end makes a second such descriptor that is not
  -- counted: wherever the command succeeds, the reference counts are wrong afterwards.
  pub dup_from_uncounted :
      (np m p o i : ℕ) (s : Sys W)
      → Inv np s
      → p < np
      → is_reader i (s.fds p o) ≡ true
      → (dup_from (p, o) (pos m) s).0 ≢ fail
      → ¬ Inv np (dup_from (p, o) (pos m) s).1
  dup_from_uncounted np m p o i s v hp reads = elim (Bool-cases (leb max_fds m)) [
    | inl big ↦ λ ok w. ok (ap (λ (r : ℕ × Sys W). r.0) (dup_from_big p o m s big))
    | inr small ↦ rw (dup_from_at_lem p o m s small) (
        dup_from_at-uncounted np m p o i s (first_free (max_fds - m) m (s.fds p)) v hp
          (ground arith) reads (first_free-IsFirstFree (max_fds - m) m (s.fds p)))
  ]
