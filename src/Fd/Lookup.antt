-- ===== src/Fd/Lookup.antt =====
-- get_fd_entry and the search for a free descriptor, src/user/syscall.cpp.
use los_tac_os.Base.{
  ℕ, zero, suc, ◌+◌, ◌≤◌, ◌<◌, ◌≡◌, refl, Bool, true, false, arith, ◌==◌, if◌then◌else◌, Bool-cases,
  inl, inr, Option, none, some,
}
use los_tac_os.Base.Int.{ℤ, pos, negsuc}
use los_tac_os.Fd.{FdEntry, Sys, Slot, max_fds, is_free, get_fd_entry, open_entry, first_free}

-- The slot belongs to the running process, and its entry is open.
pub record IsOpen {W : Type 0} (slot : Slot) (s : Sys W) : Type 0 where
  pub owner : s.current ≡ some slot.0
  pub bound : slot.1 < max_fds
  pub busy : is_free (s.fds slot.0 slot.1).kind ≡ false

pub open_entry-IsOpen :
    {W : Type 0} (fd : ℤ) (s : Sys W) (slot : Slot) → open_entry fd s ≡ some slot → IsOpen slot s
unfolding open_entry get_fd_entry
open_entry-IsOpen (negsuc n) s slot e = cc
open_entry-IsOpen (pos n) s (p, k) e = record {
  owner = ground arith;
  bound = ground arith;
  busy = ground arith;
}

-- The result of a search of `n` entries from `i` on: the least free one.
abbrev pub IsFirstFree : ℕ → ℕ → (ℕ → FdEntry) → Option ℕ → Type 0
IsFirstFree n i t none = (j : ℕ) → i ≤ j → j < i + n → is_free (t j).kind ≡ false
IsFirstFree n i t (some k) =
    (i ≤ k)
    × (k < i + n)
    × (is_free (t k).kind ≡ true)
    × ((j : ℕ) → i ≤ j → j < k → is_free (t j).kind ≡ false)

IsFirstFree-step :
    (n i : ℕ) (t : ℕ → FdEntry) (b : Bool) (o : Option ℕ)
    → is_free (t i).kind ≡ b
    → IsFirstFree n (i + 1) t o
    → IsFirstFree (suc n) i t (if b then some i else o)
IsFirstFree-step n i t true o e s = (omega arith, omega arith, e, λ j a b. absurd (omega arith))
IsFirstFree-step n i t false none e s = λ j a b. elim (Bool-cases (j == i)) [
  | inl q ↦ ground arith
  | inr q ↦ s j (ground arith) (omega arith)
]
IsFirstFree-step n i t false (some k) e s = (
  omega arith,
  omega arith,
  s.2,
  λ j a b. elim (Bool-cases (j == i)) [ inl q ↦ ground arith | inr q ↦ s.3 j (ground arith) b ],
)

pub first_free-IsFirstFree : (n i : ℕ) (t : ℕ → FdEntry) → IsFirstFree n i t (first_free n i t)
unfolding first_free
first_free-IsFirstFree zero i t = λ j a b. absurd (omega arith)
first_free-IsFirstFree (suc n) i t =
    IsFirstFree-step n i t (is_free (t i).kind) (first_free n (i + 1) t) refl
      (first_free-IsFirstFree n (i + 1) t)
