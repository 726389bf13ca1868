-- ===== src/Vfs/Tree/Remove.antt =====
-- remove of src/fs/vfs.cpp as the deletion of an entry.
use los_tac_os.Base.{
  ℕ, ◌<◌, ◌≡◌, ◌≢◌, refl, sym, ap, ◌∙◌, Bool, true, false, ◌&&◌, Option, none, some, List, [], ◌∷◌,
  length, ◌==◌, if◌then◌else◌, update, arith, inl, inr, Bool-cases,
}
use los_tac_os.Base.Run.{Run, done, ◌>>=◌}
use los_tac_os.Base.Chain.{Links, Links-same, holds, NoneTwice, NoneTwice-minus, minus, minus-holds}
use los_tac_os.Vfs.{Node, Vfs, Allocator}
use los_tac_os.Vfs.Paths.{is_node}
use los_tac_os.Vfs.Content.{Blocks, free_file, unlink_node, remove_node}
use los_tac_os.Vfs.Tree.{IsTree, next_of, name_from, entries}
use los_tac_os.Fd.{File}
use los_tac_os.Vfs.Tree.Unlink.{Cut, Leaves, left, unlink_node-Leaves}

abbrev pub kids_less : (n p : ℕ) → (ℕ → List ℕ) → ℕ → List ℕ
kids_less n p kids d = if d == p then minus n (kids p) else kids d

minus-gone : (n : ℕ) (xs : List ℕ) → NoneTwice xs → holds n (minus n xs) ≡ false
minus-gone n [] d = refl
minus-gone n (x ∷ xs) d = ground (arith, minus-gone n xs d.1)

-- The entries of a directory without that of a node.
abbrev pub drop_node : ℕ → List (List ℕ × ℕ) → List (List ℕ × ℕ)
drop_node n [] = []
drop_node n ((name, x) ∷ es) = if x == n then es else (name, x) ∷ drop_node n es

module _ (m m' : ℕ → Node) (n p : ℕ) (live : ℕ → Bool) (kids : ℕ → List ℕ) (t : IsTree m live kids)
    (here : live p ≡ true) (inside : holds n (kids p) ≡ true) (k : Cut m m' n p (kids p)) where
  -- The children of another directory are not among those of `p`.
  apart : (d x : ℕ) → live d ≡ true → d ≢ p → holds x (kids d) ≡ true → holds x (kids p) ≡ false
  apart d x l ne h = elim (Bool-cases (holds x (kids p))) [
    | inl e ↦ absurd (ne (ground (arith, t.above d x l h, t.above p x here e)))
    | inr e ↦ e
  ]

  cut_chain :
      (d : ℕ)
      → update live n false d ≡ true
      → Links (next_of m') (m' d).children (kids_less n p kids d)
  cut_chain d l = elim (Bool-cases (d == p)) [
    | inl e ↦ let q : p ≡ d = ground arith in rw e (rw⁻¹ (ap (λ y. (m' y).children) q) k.chain)
    | inr e ↦
        let l' : live d ≡ true = ground arith in
        let ne : d ≢ p = ground arith in
        rw (e, k.children d ne)
          (Links-same (next_of m) (next_of m') (m d).children (kids d)
            (λ x h. k.nexts x (apart d x l' ne h)) (t.chain d l'))
  ]

  cut_member : (d x : ℕ) → holds x (kids_less n p kids d) ≡ true → holds x (kids d) ≡ true
  cut_member d x h = elim (Bool-cases (d == p)) [
    | inl e ↦
        let q : p ≡ d = ground arith in
        ap (λ y. holds x (kids y)) (sym q) ∙ minus-holds n x (kids p) (ground arith)
    | inr e ↦ ground arith
  ]

  cut_other : (d x : ℕ) → live d ≡ true → holds x (kids_less n p kids d) ≡ true → x ≢ n
  cut_other d x l h z = elim (Bool-cases (d == p)) [
    | inl e ↦
        ground
          (arith, minus-gone n (kids p) (t.once p here), ap (λ y. holds y (minus n (kids p))) z)
    | inr e ↦ ground (arith, apart d x l (ground arith), ap (λ y. holds y (kids p)) z)
  ]

  pub Cut-IsTree : IsTree m' (update live n false) (kids_less n p kids)
  Cut-IsTree = record {
    chain = cut_chain;
    once = λ d l. elim (Bool-cases (d == p)) [
      | inl e ↦ rw e (NoneTwice-minus n (kids p) (t.once p here))
      | inr e ↦ rw e (t.once d (ground arith))
    ];
    alive = λ d x l h.
        let l' : live d ≡ true = ground arith in
        ground (arith, t.alive d x l' (cut_member d x h), cut_other d x l' h);
    above = λ d x l h. k.parents x ∙ t.above d x (ground arith) (cut_member d x h);
    named = λ x l z. t.named x (ground arith) (sym (k.names x) ∙ z);
  }

  cut_entries : (xs : List ℕ) → entries m' xs ≡ entries m xs
  cut_entries [] = refl
  cut_entries (x ∷ xs) = rw (ap name_from (k.names x), cut_entries xs) refl

  minus_entries : (xs : List ℕ) → entries m' (minus n xs) ≡ drop_node n (entries m xs)
  minus_entries [] = refl
  minus_entries (x ∷ xs) = elim (Bool-cases (x == n)) [
    | inl e ↦ rw e (cut_entries xs)
    | inr e ↦ rw e (rw (ap name_from (k.names x), minus_entries xs) refl)
  ]

  -- The directory has lost that entry; the others are as they were.
  pub Cut-entries :
      (d : ℕ)
      → entries m' (kids_less n p kids d)
        ≡ (if d == p then drop_node n (entries m (kids p)) else entries m (kids d))
  Cut-entries d = elim (Bool-cases (d == p)) [
    | inl e ↦ rw e (minus_entries (kids p))
    | inr e ↦ rw e (cut_entries (kids d))
  ]

abbrev pub has_children : Node → Bool
has_children v = elim v.children [ none ↦ false | some _ ↦ true ]

-- The blocks of a node: for a file its content, where it has one, and its File; its name, and itself.
abbrev pub blocks_of : Blocks → (n : ℕ) → Node → List ℕ
blocks_of b n v =
    let own : List ℕ = b.name_block n ∷ n ∷ [] in
    if v.directory then own else (elim v.file [
      | none ↦ own
      | some f ↦ elim f.content [
        | none ↦ b.file_block n ∷ own
        | some _ ↦ b.content_block n ∷ b.file_block n ∷ own
      ]
    ])

module _ {W : Type 0} (a : Allocator W) (b : Blocks) where
  -- Blocks are given back one after another.
  abbrev pub all_freed : List ℕ → W → W
  all_freed [] w = w
  all_freed (p ∷ ps) w = all_freed ps (a.kfree p w)

  free_file-blocks :
      (n : ℕ) (v : Node) (w : W)
      → a.kfree n (a.kfree (b.name_block n) (free_file a b n v w)) ≡ all_freed (blocks_of b n v) w
  unfolding free_file
  free_file-blocks n v w = elim (Bool-cases v.directory) [
    | inl e ↦ rw e refl
    | inr e ↦ rw e (by_file v.file)
  ]
    where
      by_content :
          (o : Option (ℕ → ℕ))
          → a.kfree n (
              a.kfree (b.name_block n) (elim o [
                | none ↦ a.kfree (b.file_block n) w
                | some _ ↦ a.kfree (b.file_block n) (a.kfree (b.content_block n) w)
              ]))
            ≡ all_freed
                (elim o [
                  | none ↦ b.file_block n ∷ b.name_block n ∷ n ∷ []
                  | some _ ↦ b.content_block n ∷ b.file_block n ∷ b.name_block n ∷ n ∷ []
                ])
                w
      by_content none = refl
      by_content (some m) = refl

      by_file :
          (o : Option File)
          → a.kfree n (
              a.kfree (b.name_block n) (elim o [
                | none ↦ w
                | some f ↦ elim f.content [
                  | none ↦ a.kfree (b.file_block n) w
                  | some _ ↦ a.kfree (b.file_block n) (a.kfree (b.content_block n) w)
                ]
              ]))
            ≡ all_freed
                (elim o [
                  | none ↦ b.name_block n ∷ n ∷ []
                  | some f ↦ elim f.content [
                    | none ↦ b.file_block n ∷ b.name_block n ∷ n ∷ []
                    | some _ ↦ b.content_block n ∷ b.file_block n ∷ b.name_block n ∷ n ∷ []
                  ]
                ])
                w
      by_file none = refl
      by_file (some f) = by_content f.content

  -- remove takes a node that is not the root and no directory with children out of its directory:
  -- that loses the node's entry and keeps the others, all other directories keep theirs, and the
  -- nodes stay a tree. It gives back exactly the blocks of the node, its File and its content first.
  pub remove_node-Removed :
      (walk n p : ℕ) (s : Vfs W) (live : ℕ → Bool) (kids : ℕ → List ℕ)
      → IsTree s.nodes live kids
      → live p ≡ true
      → holds n (kids p) ≡ true
      → is_node n s.root ≡ false
      → ((s.nodes n).directory && has_children (s.nodes n)) ≡ false
      → length (kids p) < walk
      → (s' : Vfs W) × (remove_node a b walk n s ≡ done (true, s'))
        × IsTree s'.nodes (update live n false) (kids_less n p kids)
        × ((d : ℕ)
            → entries s'.nodes (kids_less n p kids d) ≡ (
                if d == p
                then drop_node n (entries s.nodes (kids p))
                else entries s.nodes (kids d)))
        × (s'.world ≡ all_freed (blocks_of b n (s.nodes n)) s.world)
  unfolding remove_node
  remove_node-Removed walk n p s live kids t here inside notroot empty f =
      rw (notroot, empty, t.above p n here inside)
        (finish (unlink_node walk n p s)
          (unlink_node-Leaves walk n p (kids p) s (t.chain p here) (t.once p here) inside f))
    where
      after_free : W → W
      after_free w = a.kfree n (a.kfree (b.name_block n) (free_file a b n (s.nodes n) w))

      freed : Vfs W → Run (Bool × Vfs W)
      freed s' = done (true, record s' { world = after_free s'.world })

      finish :
          (r : Run (Vfs W))
          → Leaves n p (kids p) s r
          → (s' : Vfs W) × ((r >>= freed) ≡ done (true, s'))
            × IsTree s'.nodes (update live n false) (kids_less n p kids)
            × ((d : ℕ)
                → entries s'.nodes (kids_less n p kids d) ≡ (
                    if d == p
                    then drop_node n (entries s.nodes (kids p))
                    else entries s.nodes (kids d)))
            × (s'.world ≡ all_freed (blocks_of b n (s.nodes n)) s.world)
      finish _ (left s' k w r) = (
        record s' { world = after_free s'.world },
        refl,
        Cut-IsTree s.nodes s'.nodes n p live kids t here inside k,
        Cut-entries s.nodes s'.nodes n p live kids t here inside k,
        ap after_free w ∙ free_file-blocks n (s.nodes n) s.world,
      )
