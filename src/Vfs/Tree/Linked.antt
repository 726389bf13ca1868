-- ===== src/Vfs/Tree/Linked.antt =====
-- What becomes of the tree of src/fs/vfs.cpp when a node joins the children of another.
use los_tac_os.Base.{
  ℕ, ◌≡◌, ◌≢◌, refl, sym, ap, ◌∙◌, Bool, true, false, none, some, List, [], ◌∷◌, ◌==◌,
  if◌then◌else◌, update, arith, inl, inr, Bool-cases,
}
use los_tac_os.Base.Chain.{Links, Links-same, holds, NoneTwice}
use los_tac_os.Vfs.{Node, is_link}
use los_tac_os.Vfs.Tree.{IsTree, next_of, name_from, name_of, entries}

-- The memory after the node `n` with this name has joined the children of `up`.
pub record Linked (m m' : ℕ → Node) (n up : ℕ) (name : List ℕ) : Type 0 where
  pub new_next : (m' n).next ≡ (m up).children
  pub new_children : (m' n).children ≡ none
  pub new_parent : (m' n).parent ≡ some up
  pub new_name : (m' n).name ≡ some name
  pub children : (m' up).children ≡ some n
  pub up_next : (m' up).next ≡ (m up).next
  pub up_parent : (m' up).parent ≡ (m up).parent
  pub up_name : (m' up).name ≡ (m up).name
  pub new_kind : is_link (m' n).kind ≡ false
  pub up_kind : (m' up).kind ≡ (m up).kind
  pub others : (x : ℕ) → x ≢ n → x ≢ up → m' x ≡ m x

abbrev pub kids_with : (n up : ℕ) → (ℕ → List ℕ) → ℕ → List ℕ
kids_with n up kids d = if d == up then n ∷ kids up else if d == n then [] else kids d

module _ (m m' : ℕ → Node) (n up : ℕ) (name : List ℕ) (live : ℕ → Bool) (kids : ℕ → List ℕ)
    (t : IsTree m live kids) (here : live up ≡ true) (new : live n ≡ false)
    (k : Linked m m' n up name) where
  live_ne : (x : ℕ) → live x ≡ true → x ≢ n
  live_ne x l e = ground (arith, ap live e)

  -- The nodes that there were keep these fields.
  same_next : (x : ℕ) → live x ≡ true → (m' x).next ≡ (m x).next
  same_next x l = elim (Bool-cases (x == up)) [
    | inl e ↦
        let q : x ≡ up = ground arith in ap (next_of m') q ∙ k.up_next ∙ ap (next_of m) (sym q)
    | inr e ↦ ap (λ v. v.next) (k.others x (live_ne x l) (ground arith))
  ]

  same_parent : (x : ℕ) → live x ≡ true → (m' x).parent ≡ (m x).parent
  same_parent x l = elim (Bool-cases (x == up)) [
    | inl e ↦
        let q : x ≡ up = ground arith in
        ap (λ y. (m' y).parent) q ∙ k.up_parent ∙ ap (λ y. (m y).parent) (sym q)
    | inr e ↦ ap (λ v. v.parent) (k.others x (live_ne x l) (ground arith))
  ]

  same_node_name : (x : ℕ) → live x ≡ true → (m' x).name ≡ (m x).name
  same_node_name x l = elim (Bool-cases (x == up)) [
    | inl e ↦
        let q : x ≡ up = ground arith in
        ap (λ y. (m' y).name) q ∙ k.up_name ∙ ap (λ y. (m y).name) (sym q)
    | inr e ↦ ap (λ v. v.name) (k.others x (live_ne x l) (ground arith))
  ]

  old-Links : (d : ℕ) → live d ≡ true → Links (next_of m') (m d).children (kids d)
  old-Links d l =
      Links-same (next_of m) (next_of m') (m d).children (kids d)
        (λ x h. same_next x (t.alive d x l h)) (t.chain d l)

  linked_chain :
      (d : ℕ)
      → update live n true d ≡ true
      → Links (next_of m') (m' d).children (kids_with n up kids d)
  linked_chain d l = elim (Bool-cases (d == up)) [
    | inl e ↦
        let q : d ≡ up = ground arith in
        rw e (ap (λ y. (m' y).children) q ∙ k.children, rw k.new_next (old-Links up here))
    | inr e ↦ rw e (elim (Bool-cases (d == n)) [
      | inl g ↦ let q : d ≡ n = ground arith in rw g (ap (λ y. (m' y).children) q ∙ k.new_children)
      | inr g ↦
          let l' : live d ≡ true = ground arith in
          rw g
            (rw (ap (λ v. v.children) (k.others d (ground arith) (ground arith))) (old-Links d l'))
    ])
  ]

  absent : (d : ℕ) → live d ≡ true → holds n (kids d) ≡ false
  absent d l = elim (Bool-cases (holds n (kids d))) [
    | inl e ↦ absurd (live_ne n (t.alive d n l e) refl)
    | inr e ↦ e
  ]

  linked_once : (d : ℕ) → update live n true d ≡ true → NoneTwice (kids_with n up kids d)
  linked_once d l = elim (Bool-cases (d == up)) [
    | inl e ↦ rw e (absent up here, t.once up here)
    | inr e ↦
        rw e
          (elim (Bool-cases (d == n)) [ inl g ↦ rw g tt | inr g ↦ rw g (t.once d (ground arith)) ])
  ]

  linked_alive :
      (d x : ℕ)
      → update live n true d ≡ true
      → holds x (kids_with n up kids d) ≡ true
      → update live n true x ≡ true
  linked_alive d x l h = ground (arith, t.alive d x, t.alive up x)

  linked_above :
      (d x : ℕ)
      → update live n true d ≡ true
      → holds x (kids_with n up kids d) ≡ true
      → (m' x).parent ≡ some d
  linked_above d x l h = elim (Bool-cases (d == up)) [
    | inl e ↦
        let q : up ≡ d = ground arith in
        elim (Bool-cases (x == n)) [
          | inl g ↦
              let w : x ≡ n = ground arith in ap (λ y. (m' y).parent) w ∙ k.new_parent ∙ ap some q
          | inr g ↦
              let in_up : holds x (kids up) ≡ true = ground arith in
              same_parent x (t.alive up x here in_up) ∙ t.above up x here in_up ∙ ap some q
        ]
    | inr e ↦ elim (Bool-cases (d == n)) [
      | inl g ↦ absurd (ground arith)
      | inr g ↦
          let l' : live d ≡ true = ground arith in
          let in_d : holds x (kids d) ≡ true = ground arith in
          same_parent x (t.alive d x l' in_d) ∙ t.above d x l' in_d
    ]
  ]

  linked_named : (x : ℕ) → update live n true x ≡ true → (m' x).name ≢ none
  linked_named x l = elim (Bool-cases (x == n)) [
    | inl g ↦ let w : x ≡ n = ground arith in λ z. cc (sym z ∙ ap (λ y. (m' y).name) w ∙ k.new_name)
    | inr g ↦
        let l' : live x ≡ true = ground arith in λ z. t.named x l' (sym (same_node_name x l') ∙ z)
  ]

  pub Linked-IsTree : IsTree m' (update live n true) (kids_with n up kids)
  Linked-IsTree = record {
    chain = linked_chain;
    once = linked_once;
    alive = linked_alive;
    above = linked_above;
    named = linked_named;
  }

  same_entries :
      (xs : List ℕ) → ((x : ℕ) → holds x xs ≡ true → live x ≡ true) → entries m' xs ≡ entries m xs
  same_entries [] h = refl
  same_entries (x ∷ xs) h =
      let e : name_of (m' x) ≡ name_of (m x) =
        ap name_from (same_node_name x (h x (ground arith))) in
      rw (e, same_entries xs (λ y g. h y (ground arith))) refl

  -- The new node is the first entry of its directory; it has none itself; the other directories
  -- are as they were.
  pub Linked-entries :
      (d : ℕ)
      → update live n true d ≡ true
      → entries m' (kids_with n up kids d) ≡ (
          if d == up
          then (name, n) ∷ entries m (kids up)
          else if d == n
          then []
          else entries m (kids d))
  Linked-entries d l = elim (Bool-cases (d == up)) [
    | inl e ↦
        rw e
          (rw (ap name_from k.new_name, same_entries (kids up) (λ x h. t.alive up x here h)) refl)
    | inr e ↦ rw e (elim (Bool-cases (d == n)) [
      | inl g ↦ rw g refl
      | inr g ↦ rw g (same_entries (kids d) (λ x h. t.alive d x (ground arith) h))
    ])
  ]

  -- A tree without symbolic links gets none.
  pub Linked-plain :
      ((x : ℕ) → live x ≡ true → is_link (m x).kind ≡ false)
      → (x : ℕ) → update live n true x ≡ true
      → is_link (m' x).kind ≡ false
  Linked-plain plain x l = elim (Bool-cases (x == n)) [
    | inl e ↦ let q : x ≡ n = ground arith in ap (λ y. is_link (m' y).kind) q ∙ k.new_kind
    | inr e ↦
        let l' : live x ≡ true = ground arith in
        elim (Bool-cases (x == up)) [
          | inl g ↦
              let q : x ≡ up = ground arith in
              ap (λ y. is_link (m' y).kind) q
              ∙ ap is_link k.up_kind
              ∙ ap (λ y. is_link (m y).kind) (sym q)
              ∙ plain x l'
          | inr g ↦ ap (λ v. is_link v.kind) (k.others x (ground arith) (ground arith)) ∙ plain x l'
        ]
  ]
