-- ===== src/Mounts/Find.antt =====
-- find_mount of src/fs/mount.cpp.
use los_tac_os.Base.{
  ℕ, ◌≤◌, ◌<◌, ◌≡◌, ◌⊎◌, inl, inr, refl, ap, ◌∙◌, sym, true, false, ◌&&◌, ltb, Option, none, some,
  List, [], ◌∷◌, ◌++◌, length, ◌==◌, if◌then◌else◌, Bool-cases, arith,
}
use los_tac_os.Base.Run.{Run, done, fault}
use los_tac_os.Mounts.{Mount, strip, at_end, find_mount_loop, find_mount}
use mathlib.Core.List.{append-nil}

-- The path `own` covers a path that it is, or that goes on behind it with a '/'.
pub data Covers (own path : List ℕ) : Type 0 where
  whole : path ≡ own → Covers own path
  inside : (rest : List ℕ) → path ≡ own ++ b'/' ∷ rest → Covers own path

end-Covers : (path rest : List ℕ) → path ≡ rest → at_end (some rest) ≡ true → Covers [] path
end-Covers path [] e h = whole e
end-Covers path (c ∷ rest) e h =
    let slash : c ≡ b'/' = ground arith in inside rest (e ∙ ap (λ x. x ∷ rest) slash)

Covers-cons : (c : ℕ) (own path : List ℕ) → Covers own path → Covers (c ∷ own) (c ∷ path)
Covers-cons c own path (whole e) = whole (ap (λ p. c ∷ p) e)
Covers-cons c own path (inside rest e) = inside rest (ap (λ p. c ∷ p) e)

strip-Covers : (own path : List ℕ) → at_end (strip own path) ≡ true → Covers own path
unfolding strip
strip-Covers [] path h = end-Covers path path refl h
strip-Covers (c ∷ own) [] h = absurd (cc (h))
strip-Covers (c ∷ own) (d ∷ path) h = elim (Bool-cases (c == d)) [
  | inl e ↦
      let same : c ≡ d = ground arith in
      let rest : at_end (strip own path) ≡ true = rw e at h in
      rw same (Covers-cons d own path (strip-Covers own path rest))
  | inr e ↦ let never : false ≡ true = rw e at h in absurd (cc (never))
]

strip-append : (own rest : List ℕ) → strip own (own ++ rest) ≡ some rest
unfolding strip
strip-append [] rest = refl
strip-append (c ∷ own) rest =
    let same : (c == c) ≡ true = ground arith in rw same (strip-append own rest)

Covers-strip : (own path : List ℕ) → Covers own path → at_end (strip own path) ≡ true
Covers-strip own path (whole e) =
    ap at_end (ap (strip own) (e ∙ sym (append-nil own)) ∙ strip-append own [])
Covers-strip own path (inside rest e) =
    ap at_end (ap (strip own) e ∙ strip-append own (b'/' ∷ rest))

abbrev pub Among : Mount → List Mount → Type 0
Among m [] = ⊥
Among m (x ∷ xs) = (m ≡ x) ⊎ Among m xs

-- The mounts all have paths, and those that cover the path have at most `bound` characters.
abbrev pub Bounded : List Mount → List ℕ → ℕ → Type 0
Bounded ms path bound =
    (n : Mount)
    → Among n ms
    → (own : List ℕ) × (n.path ≡ some own) × (Covers own path → length own ≤ bound)

-- What a search does that had `best` of the length `best_len` before.
pub data Found (ms : List Mount) (path : List ℕ) (best : Option Mount) (best_len : ℕ)
    : Run (Option Mount) → Type 0 where
  null_path : (m : Mount) → Among m ms → m.path ≡ none → Found ms path best best_len fault
  kept : Bounded ms path best_len → Found ms path best best_len (done best)
  found :
      (m : Mount) (own : List ℕ)
      → Among m ms
      → m.path ≡ some own
      → Covers own path
      → best_len < length own
      → Bounded ms path (length own)
      → Found ms path best best_len (done (some m))

Bounded-cons :
    (x : Mount) (own : List ℕ) (ms : List Mount) (path : List ℕ) (bound : ℕ)
    → x.path ≡ some own
    → (Covers own path → length own ≤ bound)
    → Bounded ms path bound
    → Bounded (x ∷ ms) path bound
Bounded-cons x own ms path bound e h b n (inl same) = (own, ap (λ y. y.path) same ∙ e, h)
Bounded-cons x own ms path bound e h b n (inr later) = b n later

module _ (x : Mount) (own : List ℕ) (ms : List Mount) (path : List ℕ) (e : x.path ≡ some own) where
  taken_Found :
      (best : Option Mount) (best_len : ℕ)
      → Covers own path
      → best_len < length own
      → (r : Run (Option Mount)) → Found ms path (some x) (length own) r
      → Found (x ∷ ms) path best best_len r
  taken_Found best best_len c l _ (null_path m a z) = null_path m (inr a) z
  taken_Found best best_len c l _ (kept b) =
      found x own (inl refl) e c l (Bounded-cons x own ms path (length own) e (λ _. omega arith) b)
  taken_Found best best_len c l _ (found m other a z d g b) =
      found m other (inr a) z d (omega arith)
        (Bounded-cons x own ms path (length other) e (λ _. omega arith) b)

  passed_Found :
      (best : Option Mount) (best_len : ℕ)
      → (Covers own path → length own ≤ best_len)
      → (r : Run (Option Mount)) → Found ms path best best_len r
      → Found (x ∷ ms) path best best_len r
  passed_Found best best_len c _ (null_path m a z) = null_path m (inr a) z
  passed_Found best best_len c _ (kept b) = kept (Bounded-cons x own ms path best_len e c b)
  passed_Found best best_len c _ (found m other a z d g b) =
      found m other (inr a) z d g
        (Bounded-cons x own ms path (length other) e (λ h. omega (arith, c h)) b)

find_mount_loop-Found :
    (ms : List Mount) (path : List ℕ) (best : Option Mount) (best_len : ℕ)
    → Found ms path best best_len (find_mount_loop ms path best best_len)
unfolding find_mount_loop
find_mount_loop-Found [] path best best_len = kept (λ n a. absurd a)
find_mount_loop-Found (x ∷ ms) path best best_len =
    go x.path (λ len. find_mount_loop-Found ms path (some x) len)
      (find_mount_loop-Found ms path best best_len) refl
  where
    go :
        (o : Option (List ℕ))
        → ((len : ℕ) → Found ms path (some x) len (find_mount_loop ms path (some x) len))
        → Found ms path best best_len (find_mount_loop ms path best best_len)
        → x.path ≡ o
        → Found (x ∷ ms) path best best_len (elim o [
          | none ↦ fault
          | some own ↦
              if at_end (strip own path) && ltb best_len (length own)
              then find_mount_loop ms path (some x) (length own)
              else find_mount_loop ms path best best_len
        ])
    go none took pass e = null_path x (inl refl) e
    go (some own) took pass e =
        elim (Bool-cases (at_end (strip own path) && ltb best_len (length own))) [
          | inl t ↦ rw t (
              taken_Found x own ms path e best best_len (strip-Covers own path (ground arith))
                (ground arith) (find_mount_loop ms path (some x) (length own)) (took (length own)))
          | inr t ↦ rw t (
              passed_Found x own ms path e best best_len
                (λ h. ground (arith, Covers-strip own path h))
                (find_mount_loop ms path best best_len) pass)
        ]

-- find_mount returns a mount whose path is the given one, or a prefix of it that is followed by a
-- '/', and is at least as long as that of every mount of which this holds, or none where it holds
-- of no mount with a path that is not empty; it follows a null pointer where a mount has no path.
pub find_mount-Found : (ms : List Mount) (path : List ℕ) → Found ms path none 0 (find_mount ms path)
unfolding find_mount
find_mount-Found ms path = find_mount_loop-Found ms path none 0
