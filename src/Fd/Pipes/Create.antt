-- ===== src/Fd/Pipes/Create.antt =====
-- sys_pipe of src/user/syscall.cpp over the tables of all processes.
use los_tac_os.Base.{
  ℕ, zero, suc, ◌+◌, ◌-◌, ◌<◌, ◌≡◌, ◌≢◌, refl, Bool, true, false, not, ◌&&◌, arith, ◌==◌,
  if◌then◌else◌, update, Bool-cases, Option-cases, inl, inr, Option, none, some,
}
use mathlib.Core.Path.{fun_ext}
use los_tac_os.Fd.{FdEntry, Sys, first_free, fail, max_fds, max_pipes, is_free}
use los_tac_os.Fd.Lookup.{IsFirstFree, first_free-IsFirstFree}
use los_tac_os.Fd.Pipes.{
  Ends, end_of, first_unused, first_free_but, install, give_back, open_pipe, sys_pipe,
}
use los_tac_os.Fd.Table.Count.{count_all, count_all-set, one_if}
use los_tac_os.Fd.Table.Refs.{Inv, is_reader, is_writer, readers_of, writers_of}

pub first_unused-some :
    (n i : ℕ) (used : ℕ → Bool) {k : ℕ} → first_unused n i used ≡ some k → used k ≡ false
unfolding first_unused
first_unused-some zero i used e = cc
first_unused-some (suc n) i used {k} e =
    ground (arith, λ (h : first_unused n (i + 1) used ≡ some k). first_unused-some n (i + 1) used h)

-- The descriptor found for the writing end is free, within the table, and not the reading end's.
abbrev IsOtherFree : ℕ → ℕ → ℕ → (ℕ → FdEntry) → Option ℕ → Type 0
IsOtherFree r n i t none = Unit {0}
IsOtherFree r n i t (some k) = (k < i + n) × (is_free (t k).kind ≡ true) × (k ≢ r)

IsOtherFree-step :
    (r n i : ℕ) (t : ℕ → FdEntry) (b : Bool) (o : Option ℕ)
    → (is_free (t i).kind && not (i == r)) ≡ b
    → IsOtherFree r n (i + 1) t o
    → IsOtherFree r (suc n) i t (if b then some i else o)
IsOtherFree-step r n i t true o e h = (omega arith, ground arith, ground arith)
IsOtherFree-step r n i t false none e h = tt
IsOtherFree-step r n i t false (some k) e h = (omega arith, h.1, h.2)

first_free_but-IsOtherFree :
    (r n i : ℕ) (t : ℕ → FdEntry) → IsOtherFree r n i t (first_free_but r n i t)
unfolding first_free_but
first_free_but-IsOtherFree r zero i t = tt
first_free_but-IsOtherFree r (suc n) i t =
    IsOtherFree-step r n i t (is_free (t i).kind && not (i == r)) (first_free_but r n (i + 1) t)
      refl (first_free_but-IsOtherFree r n (i + 1) t)

module _ {W : Type 0} where
  -- A pipe that is not in use has no ends.
  unused_no_ends :
      (np i : ℕ) (s : Sys W)
      → Inv np s
      → s.pipe_used i ≡ false
      → (readers_of np i s ≡ 0) × (writers_of np i s ≡ 0)
  unused_no_ends np i s v e = ground (arith, v.used i)

  give_back-Inv : (np i : ℕ) (s : Sys W) → Inv np s → s.pipe_used i ≡ false → Inv np (give_back i s)
  unfolding give_back
  give_back-Inv np i s v e =
      let z = unused_no_ends np i s v e in
      record {
        owner = v.owner;
        readers = λ j. ground (arith, v.readers j, z.0);
        writers = λ j. ground (arith, v.writers j, z.1);
        used = λ j. ground (arith, v.used j, e);
        real = v.real;
      }

  module _ (np p i r w : ℕ) (s : Sys W) (v : Inv np s) (unused : s.pipe_used i ≡ false)
      (hp : p < np) (hr : r < max_fds) (hw : w < max_fds) (fr : is_free (s.fds p r).kind ≡ true)
      (fw : is_free (s.fds p w).kind ≡ true) (ne : w ≢ r) where
    -- The count of a kind of end after the two entries are filled in.
    install-count :
        (f : FdEntry → Bool)
        → ((e : FdEntry) → is_free e.kind ≡ true → f e ≡ false)
        → count_all f max_fds np (install p i r w s).fds
          ≡ count_all f max_fds np s.fds
            + one_if (f (end_of i true false))
            + one_if (f (end_of i false true))
    unfolding install
    install-count f plain = ground (
      arith,
      count_all-set f 32 np p w (update s.fds p (update (s.fds p) r (end_of i true false)))
          (end_of i false true) hp hw,
      count_all-set f 32 np p r s.fds (end_of i true false) hp hr,
      plain (s.fds p r) fr,
      plain (s.fds p w) fw,
    )

    plain_reader : (j : ℕ) (e : FdEntry) → is_free e.kind ≡ true → is_reader j e ≡ false
    plain_reader j e h = ground arith

    plain_writer : (j : ℕ) (e : FdEntry) → is_free e.kind ≡ true → is_writer j e ≡ false
    plain_writer j e h = ground arith

    install-Inv : Inv np (install p i r w s)
    unfolding install
    install-Inv =
        let z = unused_no_ends np i s v unused in
        record {
          owner = v.owner;
          readers =
              λ j. ground (arith, v.readers j, z.0, install-count (is_reader j) (plain_reader j));
          writers =
              λ j. ground (arith, v.writers j, z.1, install-count (is_writer j) (plain_writer j));
          used = λ j. ground (
            arith,
            v.used j,
            install-count (is_reader j) (plain_reader j),
            install-count (is_writer j) (plain_writer j),
          );
          real = λ q k. ground (arith, v.real q k);
        }

  -- What sys_pipe does: both ends of a pipe that no descriptor held, in two free descriptors, or
  -- failure with the descriptors unchanged.
  pub data Piped (np p : ℕ) (s : Sys W) : Ends × Sys W → Type 0 where
    failed : {s' : Sys W} → Inv np s' → s'.fds ≡ s.fds → Piped np p s ((fail, none), s')
    piped :
        {s' : Sys W} (i r w : ℕ)
        → readers_of np i s ≡ 0
        → writers_of np i s ≡ 0
        → is_free (s.fds p r).kind ≡ true
        → is_free (s.fds p w).kind ≡ true
        → w ≢ r
        → s'.fds
          ≡ update s.fds p
              (update (update (s.fds p) r (end_of i true false)) w (end_of i false true))
        → Inv np s'
        → Piped np p s ((0, some (r, w)), s')

  give_back-fds : (i : ℕ) (s : Sys W) → (give_back i s).fds ≡ s.fds
  unfolding give_back
  give_back-fds i s = refl

  install-fds :
      (p i r w : ℕ) (s : Sys W)
      → (install p i r w s).fds
        ≡ update s.fds p (update (update (s.fds p) r (end_of i true false)) w (end_of i false true))
  unfolding install
  install-fds p i r w s = fun_ext λ q. fun_ext λ k. ground arith

  abbrev open_with : ℕ → ℕ → Sys W → Option ℕ → (ℕ → Option ℕ) → Ends × Sys W
  open_with p i s a b = elim a [
    | none ↦ ((fail, none), give_back i s)
    | some r ↦ elim (b r) [
      | none ↦ ((fail, none), give_back i s)
      | some w ↦ ((0, some (r, w)), install p i r w s)
    ]
  ]

  open_pipe-Piped :
      (np p i : ℕ) (s : Sys W)
      → Inv np s
      → s.pipe_used i ≡ false
      → p < np
      → Piped np p s (open_pipe p i s)
  unfolding open_pipe
  open_pipe-Piped np p i s v unused hp =
      first (first_free (max_fds - 3) 3 (s.fds p))
        (first_free-IsFirstFree (max_fds - 3) 3 (s.fds p))
    where
      lost : Piped np p s ((fail, none), give_back i s)
      lost = failed (give_back-Inv np i s v unused) (give_back-fds i s)

      second :
          (r : ℕ)
          → r < max_fds
          → is_free (s.fds p r).kind ≡ true
          → (o : Option ℕ) → IsOtherFree r (max_fds - 3) 3 (s.fds p) o
          → Piped np p s (elim o [
            | none ↦ ((fail, none), give_back i s)
            | some w ↦ ((0, some (r, w)), install p i r w s)
          ])
      second r hr fr none h = lost
      second r hr fr (some w) h =
          let z = unused_no_ends np i s v unused in
          piped i r w z.0 z.1 fr h.1 h.2 (install-fds p i r w s)
            (install-Inv np p i r w s v unused hp hr (omega arith) fr h.1 h.2)

      first :
          (o : Option ℕ)
          → IsFirstFree (max_fds - 3) 3 (s.fds p) o
          → Piped np p s (open_with p i s o (λ r. first_free_but r (max_fds - 3) 3 (s.fds p)))
      first none h = lost
      first (some r) h =
          second r (omega arith) h.2 (first_free_but r (max_fds - 3) 3 (s.fds p))
            (first_free_but-IsOtherFree r (max_fds - 3) 3 (s.fds p))

  -- With correct reference counts, sys_pipe of a process either fails with all descriptors
  -- unchanged, or puts the two ends of a pipe that no descriptor of any process held into two
  -- distinct free descriptors and returns them; the counts stay correct.
  pub sys_pipe-Piped :
      (np p arg : ℕ) (s : Sys W) → Inv np s → s.current ≡ some p → Piped np p s (sys_pipe arg s)
  unfolding sys_pipe
  sys_pipe-Piped np p arg s v c = elim (Bool-cases (arg == 0)) [
    | inl null ↦ rw (null, sys_pipe) (failed v refl)
    | inr ok ↦ elim (Option-cases (first_unused max_pipes 0 s.pipe_used)) [
      | inl e ↦ simp (ok, c, e, sys_pipe) (failed v refl)
      | inr (i, e) ↦
          simp (ok, c, e, sys_pipe)
            (open_pipe-Piped np p i s v (first_unused-some max_pipes 0 s.pipe_used e) (v.owner p c))
    ]
  ]
