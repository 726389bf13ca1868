-- ===== src/Fd/Table/Refs.antt =====
-- The reference counts of the pipes of src/user/syscall.cpp: readers and writers are the numbers of
-- descriptors, over all processes, that hold each end, and pipe_used says whether there is any.
use los_tac_os.Base.{
  ℕ, ◌+◌, ◌<◌, ◌≡◌, ◌≢◌, Bool, true, false, ◌&&◌, arith, ltb, ◌==◌, Bool-cases, inl, inr, Option,
  none, some, Option-cases,
}
use los_tac_os.Base.Int.{pos}
use los_tac_os.Fd.{FdEntry, zeroed, Sys, set_entry, max_fds, is_pipe}
use los_tac_os.Fd.Table.{drop_end, add_end, release_end, share_end}
use los_tac_os.Fd.Table.Count.{count_all, count_all-set}

abbrev pub points_to : ℕ → Option ℕ → Bool
points_to i none = false
points_to i (some j) = j == i

-- The entry holds the reading end, or the writing end, of pipe `i`.
abbrev pub is_reader : ℕ → FdEntry → Bool
is_reader i e = is_pipe e.kind && (points_to i e.pipe && e.readable)

abbrev pub is_writer : ℕ → FdEntry → Bool
is_writer i e = is_pipe e.kind && (points_to i e.pipe && e.writable)

module _ {W : Type 0} where
  -- The descriptors of the first `np` processes that hold the reading end of pipe `i`.
  abbrev pub readers_of : ℕ → ℕ → Sys W → ℕ
  readers_of np i s = count_all (is_reader i) max_fds np s.fds

  abbrev pub writers_of : ℕ → ℕ → Sys W → ℕ
  writers_of np i s = count_all (is_writer i) max_fds np s.fds

  pub record Inv (np : ℕ) (s : Sys W) : Type 0 where
    pub owner : (p : ℕ) → s.current ≡ some p → p < np
    pub readers : (i : ℕ) → (s.pipes i).readers ≡ pos (readers_of np i s)
    pub writers : (i : ℕ) → (s.pipes i).writers ≡ pos (writers_of np i s)
    pub used : (i : ℕ) → s.pipe_used i ≡ ltb 0 (readers_of np i s + writers_of np i s)
    pub real : (p n : ℕ) → is_pipe (s.fds p n).kind ≡ true → (s.fds p n).pipe ≢ none

  module _ (np : ℕ) (s : Sys W) (v : Inv np s) (p k : ℕ) (hp : p < np) (hk : k < max_fds) where
    -- The entry is closed: its end of pipe `i` is given back.
    pub release_end-Inv :
        (i : ℕ)
        → is_pipe (s.fds p k).kind ≡ true
        → (s.fds p k).pipe ≡ some i
        → Inv np (set_entry (p, k) zeroed (release_end (s.fds p k) i s))
    unfolding release_end drop_end
    release_end-Inv i e q = record {
      owner = v.owner;
      readers = λ j. ground (
        arith,
        v.readers j,
        v.readers i,
        count_all-set (is_reader j) 32 np p k s.fds zeroed hp hk,
      );
      writers = λ j. ground (
        arith,
        v.writers j,
        v.writers i,
        count_all-set (is_writer j) 32 np p k s.fds zeroed hp hk,
      );
      used = λ j. ground (
        arith,
        v.used j,
        v.readers i,
        v.writers i,
        count_all-set (is_reader j) 32 np p k s.fds zeroed hp hk,
        count_all-set (is_writer j) 32 np p k s.fds zeroed hp hk,
      );
      real = λ a b. ground (arith, v.real a b);
    }

    -- An entry that holds no pipe is closed, or rewritten as another such entry.
    pub set_plain-Inv :
        (e : FdEntry)
        → is_pipe (s.fds p k).kind ≡ false
        → is_pipe e.kind ≡ false
        → Inv np (set_entry (p, k) e s)
    set_plain-Inv e old new = record {
      owner = v.owner;
      readers =
          λ j. ground (arith, v.readers j, count_all-set (is_reader j) 32 np p k s.fds e hp hk);
      writers =
          λ j. ground (arith, v.writers j, count_all-set (is_writer j) 32 np p k s.fds e hp hk);
      used = λ j. ground (
        arith,
        v.used j,
        count_all-set (is_reader j) 32 np p k s.fds e hp hk,
        count_all-set (is_writer j) 32 np p k s.fds e hp hk,
      );
      real = λ a b. ground (arith, v.real a b);
    }

    -- An open entry is copied to a slot that holds no pipe, and its end counted.
    pub share_end-Inv :
        (o : ℕ)
        → o < max_fds
        → is_pipe (s.fds p k).kind ≡ false
        → Inv np (share_end (s.fds p o) (set_entry (p, k) (s.fds p o) s))
    unfolding share_end add_end
    share_end-Inv o ho free = elim (Bool-cases (is_pipe (s.fds p o).kind)) [
      | inr plain ↦ rw plain (set_plain-Inv (s.fds p o) free plain)
      | inl shared ↦ elim (Option-cases (s.fds p o).pipe) [
        | inl null ↦ absurd (v.real p o shared null)
        | inr (i, e) ↦
            rw (shared, e)
              (record {
                owner = v.owner;
                readers = λ j. ground (
                  arith,
                  v.readers j,
                  v.readers i,
                  count_all-set (is_reader j) 32 np p k s.fds (s.fds p o) hp hk,
                );
                writers = λ j. ground (
                  arith,
                  v.writers j,
                  v.writers i,
                  count_all-set (is_writer j) 32 np p k s.fds (s.fds p o) hp hk,
                );
                used = λ j. ground (
                  arith,
                  v.used j,
                  count_all-set (is_reader j) 32 np p k s.fds (s.fds p o) hp hk,
                  count_all-set (is_writer j) 32 np p k s.fds (s.fds p o) hp hk,
                  count_all-set (is_reader j) 32 np p o s.fds zeroed hp ho,
                  count_all-set (is_writer j) 32 np p o s.fds zeroed hp ho,
                );
                real = λ a b. ground (arith, v.real a b, v.real p o);
              })
      ]
    ]
