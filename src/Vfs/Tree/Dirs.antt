-- ===== src/Vfs/Tree/Dirs.antt =====
-- create_dir_path of src/fs/vfs.cpp over the tree: afterwards the parts of the path lead to the
-- node that it returns.
use los_tac_os.Base.{
  ℕ, ◌+◌, ◌≤◌, ◌<◌, ◌≡◌, ◌≢◌, refl, sym, ap, ◌∙◌, Bool, true, false, Option, none, some, List, [],
  ◌∷◌, length, ◌==◌, update, arith, inl, inr, Bool-cases, Option-cases, ==_ne, ==_refl,
}
use los_tac_os.Base.Run.{Run, done}
use los_tac_os.Vfs.{Node, Vfs, Allocator, is_link, equal_names}
use los_tac_os.Vfs.Paths.{create_dirs}
use los_tac_os.Vfs.Tree.{IsTree, Supplies, Supplies-less, block_limit, entries, look}
use los_tac_os.Vfs.Tree.Lookup.{find_in-look, look-holds, equal_names_refl, equal_names→eq}
use los_tac_os.Vfs.Tree.Linked.{Linked, kids_with, Linked-entries, Linked-plain}
use los_tac_os.Vfs.Tree.Create.{create_node-Created}

-- Where the parts lead from the directory `d`.
abbrev pub descend : (ℕ → Node) → (ℕ → List ℕ) → List (List ℕ) → ℕ → Option ℕ
descend m kids [] d = some d
descend m kids (p ∷ ps) d = elim (look p (entries m (kids d))) [
  | none ↦ none
  | some n ↦ descend m kids ps n
]

-- Everything that could be found still is.
pub record Keeps (m m' : ℕ → Node) (live live' : ℕ → Bool) (kids kids' : ℕ → List ℕ) : Type 0 where
  pub alive : (x : ℕ) → live x ≡ true → live' x ≡ true
  pub finds :
      (d x : ℕ) (q : List ℕ)
      → live d ≡ true
      → look q (entries m (kids d)) ≡ some x
      → look q (entries m' (kids' d)) ≡ some x

Keeps-refl : (m : ℕ → Node) (live : ℕ → Bool) (kids : ℕ → List ℕ) → Keeps m m live live kids kids
Keeps-refl m live kids = record { alive = λ x h. h; finds = λ d x q h e. e }

-- An entry in front with a name that was not there.
look_insert :
    (q name : List ℕ) (n x : ℕ) (es : List (List ℕ × ℕ))
    → look name es ≡ none
    → look q es ≡ some x
    → look q ((name, n) ∷ es) ≡ some x
unfolding look
look_insert q name n x es gone e = elim (Bool-cases (equal_names name q)) [
  | inl w ↦ absurd (clash (ap (λ u. look u es) (sym (equal_names→eq name q w)) ∙ gone))
  | inr w ↦ rw w e
]
  where
    clash : look q es ≡ none → ⊥
    clash z = cc (sym z ∙ e)

look_head : (q : List ℕ) (n : ℕ) (es : List (List ℕ × ℕ)) → look q ((q, n) ∷ es) ≡ some n
unfolding look
look_head q n es = rw (equal_names_refl q) refl

longer :
    (n up : ℕ) (kids : ℕ → List ℕ) (x : ℕ) → length (kids_with n up kids x) ≤ length (kids x) + 1
longer n up kids x = elim (Bool-cases (x == up)) [
  | inl e ↦ let same : up ≡ x = ground arith in rw e (omega (arith, ap (λ y. length (kids y)) same))
  | inr e ↦
      rw e (elim (Bool-cases (x == n)) [ inl g ↦ rw g (omega arith) | inr g ↦ rw g (omega arith) ])
]

-- Creating a node whose name is not there keeps what could be found.
created-Keeps :
    (m m' : ℕ → Node) (n up : ℕ) (name : List ℕ) (live : ℕ → Bool) (kids : ℕ → List ℕ)
    → IsTree m live kids
    → live up ≡ true
    → live n ≡ false
    → Linked m m' n up name
    → look name (entries m (kids up)) ≡ none
    → Keeps m m' live (update live n true) kids (kids_with n up kids)
unfolding look
created-Keeps m m' n up name live kids t here new k gone = record {
  alive = λ x h. ground arith;
  finds = λ d x q h e.
      let other : d ≢ n = λ w. ground (arith, ap live w) in
      let view = Linked-entries m m' n up name live kids t here new k d (ground arith) in
      ap (look q) view ∙ elim (Bool-cases (d == up)) [
        | inl g ↦
            let same : d ≡ up = ground arith in
            rw g (
              look_insert q name n x (entries m (kids up)) gone
                (ap (λ y. look q (entries m (kids y))) (sym same) ∙ e))
        | inr g ↦ rw (g, ==_ne d n other) e
      ];
}

pub Keeps-trans :
    (m m' m'' : ℕ → Node) (live live' live'' : ℕ → Bool) (kids kids' kids'' : ℕ → List ℕ)
    → Keeps m m' live live' kids kids'
    → Keeps m' m'' live' live'' kids' kids''
    → Keeps m m'' live live'' kids kids''
Keeps-trans m m' m'' live live' live'' kids kids' kids'' k k' = record {
  alive = λ x h. k'.alive x (k.alive x h);
  finds = λ d x q h e. k'.finds d x q (k.alive d h) (k.finds d x q h e);
}

abbrev pub IsPlain : (ℕ → Node) → (ℕ → Bool) → Type 0
IsPlain m live = (x : ℕ) → live x ≡ true → is_link (m x).kind ≡ false

abbrev pub AllShort : List (List ℕ) → Type 0
AllShort [] = Unit {0}
AllShort (p ∷ ps) = (length p < block_limit) × AllShort ps

module _ {W : Type 0} (a : Allocator W) (walk : ℕ) where
  -- The directories of `ps` below `d` are there, and the last of them is `n`.
  pub record Made (ps : List (List ℕ)) (d : ℕ) (s : Vfs W) (live : ℕ → Bool) (kids : ℕ → List ℕ)
      (n : ℕ) (s' : Vfs W) (live' : ℕ → Bool) (kids' : ℕ → List ℕ) : Type 0 where
    pub whole : IsTree s'.nodes live' kids'
    pub plain : IsPlain s'.nodes live'
    pub leads : descend s'.nodes kids' ps d ≡ some n
    pub keeps : Keeps s.nodes s'.nodes live live' kids kids'
    pub room : (x : ℕ) → length (kids' x) ≤ length (kids x) + length ps
    pub root : s'.root ≡ s.root
    pub cwd : s'.process_cwd ≡ s.process_cwd

  pub data Makes (ps : List (List ℕ)) (d : ℕ) (s : Vfs W) (live : ℕ → Bool) (kids : ℕ → List ℕ)
      : Run (ℕ × Vfs W) → Type 0 where
    made :
        (n : ℕ) (s' : Vfs W) (live' : ℕ → Bool) (kids' : ℕ → List ℕ)
        → Made ps d s live kids n s' live' kids'
        → Makes ps d s live kids (done (n, s'))

  -- Behind the first part, which leads to `n` in a tree that keeps what there was.
  made_behind :
      (p : List ℕ) (ps : List (List ℕ)) (d n : ℕ) (s s1 : Vfs W) (live live1 : ℕ → Bool)
      (kids kids1 : ℕ → List ℕ) (r : Run (ℕ × Vfs W))
      → live1 d ≡ true
      → look p (entries s1.nodes (kids1 d)) ≡ some n
      → Keeps s.nodes s1.nodes live live1 kids kids1
      → ((x : ℕ) → length (kids1 x) ≤ length (kids x) + 1)
      → s1.root ≡ s.root
      → s1.process_cwd ≡ s.process_cwd
      → Makes ps n s1 live1 kids1 r
      → Makes (p ∷ ps) d s live kids r
  made_behind p ps d n s s1 live live1 kids kids1 _ h e k g r c (made x s' live' kids' q) =
      made x s' live' kids' record {
        whole = q.whole;
        plain = q.plain;
        leads = rw (q.keeps.finds d n p h e, descend) q.leads;
        keeps = Keeps-trans s.nodes s1.nodes s'.nodes live live1 live' kids kids1 kids' k q.keeps;
        room = λ y. omega (arith, g y, q.room y);
        root = q.root ∙ r;
        cwd = q.cwd ∙ c;
      }

  pub create_dirs-Makes :
      (ps : List (List ℕ)) (d : ℕ) (s : Vfs W) (live : ℕ → Bool) (kids : ℕ → List ℕ)
      → IsTree s.nodes live kids
      → IsPlain s.nodes live
      → live d ≡ true
      → ((x : ℕ) → length (kids x) + length ps < walk)
      → AllShort ps
      → Supplies a (length ps) live s.world
      → Makes ps d s live kids (create_dirs a walk ps d s)
  unfolding create_dirs
  create_dirs-Makes [] d s live kids v plain h f b r =
      (made d s live kids record {
        whole = v;
        plain = plain;
        leads = refl;
        keeps = Keeps-refl s.nodes live kids;
        room = λ x. omega arith;
        root = refl;
        cwd = refl;
      })
  create_dirs-Makes (p ∷ ps) d s live kids v plain h f b r =
      rw (find_in-look walk d p s.nodes live kids v h (omega (arith, f d)))
        (elim (Option-cases (look p (entries s.nodes (kids d)))) [
          | inr (n, e) ↦
              let h' : live n ≡ true = v.alive d n h (look-holds p s.nodes (kids d) n e) in
              rw e (
                made_behind p ps d n s s live live kids kids (create_dirs a walk ps n s) h e
                  (Keeps-refl s.nodes live kids) (λ x. omega arith) refl refl
                  (create_dirs-Makes ps n s live kids v plain h' (λ x. omega (arith, f x)) b.1
                    (Supplies-less a (length ps) live s.world r)))
          | inl e ↦
              let few : length p + 1 ≤ block_limit = omega (arith, b.0) in
              let (n, s1, made_it, c) =
                create_node-Created a p true d s live kids v h r.0 r.1 (r.2 (length p + 1) few).0 in
              let spare : Supplies a (length ps) (update live n true) s1.world =
                rw (c.given, c.world) (r.2 (length p + 1) few).1 in
              let live1 : ℕ → Bool = update live n true in
              let kids1 : ℕ → List ℕ = kids_with n d kids in
              let first =
                Linked-entries s.nodes s1.nodes n d p live kids v h c.new c.linked d
                  (ground arith) in
              rw (e, made_it)
                (made_behind p ps d n s s1 live live1 kids kids1 (create_dirs a walk ps n s1)
                  (ground arith)
                  (ap (look p) first ∙ rw (==_refl d) (look_head p n (entries s.nodes (kids d))))
                  (created-Keeps s.nodes s1.nodes n d p live kids v h c.new c.linked e)
                  (λ x. longer n d kids x) c.root c.cwd
                  (create_dirs-Makes ps n s1 live1 kids1 c.tree
                    (Linked-plain s.nodes s1.nodes n d p live kids v h c.new c.linked plain)
                    (ground arith) (λ x. omega (arith, longer n d kids x, f x)) b.1 spare))
        ])
