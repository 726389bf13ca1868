-- ===== src/Vfs/Tree/Unlink.antt =====
-- The removal of a node from the children of its parent, in remove of src/fs/vfs.cpp.
use los_tac_os.Base.{
  ℕ, zero, suc, ◌<◌, ◌≡◌, ◌≢◌, refl, ◌∙◌, true, false, Option, some, List, [], ◌∷◌, length, ◌==◌,
  arith, inl, inr, Bool-cases, Option-cases, ==_refl, ==_ne,
}
use los_tac_os.Base.Run.{Run, done}
use los_tac_os.Base.Chain.{
  Links, Links-same, Links-minus, holds, NoneTwice, minus, precedes, precedes-none, precedes-holds,
}
use los_tac_os.Vfs.{Node, Vfs, set_node}
use los_tac_os.Vfs.Paths.{is_node}
use los_tac_os.Vfs.Content.{find_prev, unlink_node}
use los_tac_os.Vfs.Tree.{next_of}

-- The loop of remove ends at the node before.
find_prev-precedes :
    (walk n : ℕ) (p : Option ℕ) (xs : List ℕ) (m : ℕ → Node)
    → Links (next_of m) p xs
    → length xs < walk
    → find_prev walk n p m ≡ done (precedes n xs)
unfolding find_prev
find_prev-precedes zero n p xs m c h = absurd (omega arith)
find_prev-precedes (suc walk) n p [] m c h = rw c refl
find_prev-precedes (suc walk) n p (x ∷ []) m c h =
    rw (c.0, find_prev-precedes walk n (m x).next [] m c.1 (omega arith)) (rw c.1 refl)
find_prev-precedes (suc walk) n p (x ∷ (y ∷ ys)) m c h =
    let flip : (n == y) ≡ (y == n) = ground arith in
    rw (c.0, find_prev-precedes walk n (m x).next (y ∷ ys) m c.1 (omega arith), c.1.0, flip)
      (elim (Bool-cases (y == n)) [ inl e ↦ rw e refl | inr e ↦ rw e refl ])

-- The memory after `n` has left the children `xs` of `p`.
pub record Cut (m m' : ℕ → Node) (n p : ℕ) (xs : List ℕ) : Type 0 where
  pub names : (x : ℕ) → (m' x).name ≡ (m x).name
  pub parents : (x : ℕ) → (m' x).parent ≡ (m x).parent
  pub chain : Links (next_of m') (m' p).children (minus n xs)
  pub children : (d : ℕ) → d ≢ p → (m' d).children ≡ (m d).children
  pub nexts : (x : ℕ) → holds x xs ≡ false → (m' x).next ≡ (m x).next

module _ {W : Type 0} where
  abbrev unlink_first : (n p : ℕ) → Vfs W → Vfs W
  unlink_first n p s = set_node p (record (s.nodes p) { children = (s.nodes n).next }) s

  abbrev unlink_behind : (t n : ℕ) → Vfs W → Vfs W
  unlink_behind t n s = set_node t (record (s.nodes t) { next = (s.nodes n).next }) s

  unlink_first-Cut :
      (n p : ℕ) (xs : List ℕ) (s : Vfs W)
      → Links (next_of s.nodes) (s.nodes p).children (n ∷ xs)
      → Cut s.nodes (unlink_first n p s).nodes n p (n ∷ xs)
  unlink_first-Cut n p xs s c =
      let same : (x : ℕ) → ((unlink_first n p s).nodes x).next ≡ (s.nodes x).next =
        λ x. ground arith in
      record {
        names = λ x. ground arith;
        parents = λ x. ground arith;
        chain = rw (==_refl n) (
            Links-same (next_of s.nodes) (next_of (unlink_first n p s).nodes) _ xs (λ x h. same x)
              (simp (==_refl p) c.1));
        children = λ d ne. ground (arith, ne);
        nexts = λ x h. same x;
      }

  unlink_behind-Cut :
      (n p t x : ℕ) (xs : List ℕ) (s : Vfs W)
      → Links (next_of s.nodes) (s.nodes p).children (x ∷ xs)
      → NoneTwice (x ∷ xs)
      → x ≢ n
      → precedes n (x ∷ xs) ≡ some t
      → Cut s.nodes (unlink_behind t n s).nodes n p (x ∷ xs)
  unlink_behind-Cut n p t x xs s c d ne e =
      let children_same : (y : ℕ)
          → ((unlink_behind t n s).nodes y).children ≡ (s.nodes y).children =
        λ y. ground arith in
      record {
        names = λ y. ground arith;
        parents = λ y. ground arith;
        chain = rw (==_ne x n ne) (
            Links-minus (next_of s.nodes) (next_of (unlink_behind t n s).nodes) _ x xs t n
              (children_same p ∙ c.0, c.1) d ne e (ground arith) (λ b h. ground (arith, h)));
        children = λ y w. ground arith;
        nexts = λ y h. ground (arith, h, precedes-holds n t (x ∷ xs) e);
      }

  -- The state after the node has left the children of its parent.
  pub data Leaves (n p : ℕ) (xs : List ℕ) (s : Vfs W) : Run (Vfs W) → Type 0 where
    left :
        (s' : Vfs W)
        → Cut s.nodes s'.nodes n p xs
        → s'.world ≡ s.world
        → s'.root ≡ s.root
        → Leaves n p xs s (done s')

  pub unlink_node-Leaves :
      (walk n p : ℕ) (xs : List ℕ) (s : Vfs W)
      → Links (next_of s.nodes) (s.nodes p).children xs
      → NoneTwice xs
      → holds n xs ≡ true
      → length xs < walk
      → Leaves n p xs s (unlink_node walk n p s)
  unfolding unlink_node
  unlink_node-Leaves walk n p [] s c d h f = cc
  unlink_node-Leaves walk n p (x ∷ xs) s c d h f = elim (Bool-cases (x == n)) [
    | inl e ↦
        let same : n ≡ x = ground arith in
        let at : is_node n (s.nodes p).children ≡ true = ground (arith, c.0) in
        rw at
          (left (unlink_first n p s) (ap_cut x xs s same (unlink_first-Cut x p xs s c)) refl refl)
    | inr e ↦
        let ne : x ≢ n = ground arith in
        let at : is_node n (s.nodes p).children ≡ false = ground (arith, c.0) in
        elim (Option-cases (precedes n (x ∷ xs))) [
          | inl g ↦ absurd (ground (arith, precedes-none n x xs g))
          | inr (t, g) ↦
              rw (at, find_prev-precedes walk n (s.nodes p).children (x ∷ xs) s.nodes c f, g)
                (left (unlink_behind t n s) (unlink_behind-Cut n p t x xs s c d ne g) refl refl)
        ]
  ]
    where
      ap_cut :
          (x : ℕ) (xs : List ℕ) (s : Vfs W)
          → n ≡ x
          → Cut s.nodes (unlink_first x p s).nodes x p (x ∷ xs)
          → Cut s.nodes (unlink_first n p s).nodes n p (x ∷ xs)
      ap_cut x xs s e k = rw e k
