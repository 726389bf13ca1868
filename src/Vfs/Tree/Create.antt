-- ===== src/Vfs/Tree/Create.antt =====
-- create_node of src/fs/vfs.cpp as the insertion of an entry.
use los_tac_os.Base.{
  ℕ, ◌+◌, ◌≡◌, ◌≢◌, refl, ap, Bool, true, false, some, List, length, update, arith, ==_ne,
}
use los_tac_os.Base.Run.{done}
use los_tac_os.Vfs.{Node, Vfs, Allocator, create_node, link_node, strdup, fresh_node, node_size}
use los_tac_os.Vfs.Tree.{IsTree}
use los_tac_os.Vfs.Tree.Linked.{Linked, kids_with, Linked-IsTree}

module _ {W : Type 0} (a : Allocator W) where
  link_node-Linked :
      (n up : ℕ) (name : List ℕ) (directory : Bool) (s : Vfs W) (w : W) (old : Node)
      → n ≢ up
      → Linked s.nodes
          (link_node n up
            (fresh_node (some name) directory up old (s.nodes up))
            (record s { world = w })).nodes
          n
          up
          name
  unfolding link_node
  link_node-Linked n up name directory s w old ne = record {
    new_next = ground arith;
    new_children = ground arith;
    new_parent = ground arith;
    new_name = ground arith;
    children = ground arith;
    up_next = ground arith;
    up_parent = ground arith;
    up_name = ground arith;
    new_kind = ground arith;
    up_kind = ground arith;
    others = λ x p q. ground (arith, p, q);
  }

  -- The state with the new node `n`, and what create_node leaves besides.
  pub record Created (name : List ℕ) (up : ℕ) (s : Vfs W) (live : ℕ → Bool) (kids : ℕ → List ℕ)
      (n : ℕ) (s' : Vfs W) : Type 0 where
    pub given : n ≡ (a.kmalloc node_size s.world).0
    pub new : live n ≡ false
    pub tree : IsTree s'.nodes (update live n true) (kids_with n up kids)
    pub linked : Linked s.nodes s'.nodes n up name
    pub root : s'.root ≡ s.root
    pub cwd : s'.process_cwd ≡ s.process_cwd
    pub world : s'.world ≡ (a.kmalloc (length name + 1) (a.kmalloc node_size s.world).1).1

  pub create_node-Created :
      (name : List ℕ) (directory : Bool) (up : ℕ) (s : Vfs W) (live : ℕ → Bool) (kids : ℕ → List ℕ)
      → IsTree s.nodes live kids
      → live up ≡ true
      → (a.kmalloc node_size s.world).0 ≢ 0
      → live (a.kmalloc node_size s.world).0 ≡ false
      → (a.kmalloc (length name + 1) (a.kmalloc node_size s.world).1).0 ≢ 0
      → (n : ℕ) × (s' : Vfs W) × (create_node a name directory up s ≡ done (n, s'))
        × Created name up s live kids n s'
  unfolding create_node strdup link_node
  create_node-Created name directory up s live kids t here nz new named =
      let n : ℕ = (a.kmalloc node_size s.world).0 in
      let w : W = (a.kmalloc node_size s.world).1 in
      let w' : W = (a.kmalloc (length name + 1) w).1 in
      let ne : n ≢ up = λ q. ground (arith, ap live q) in
      let k = link_node-Linked n up name directory s w' (s.nodes n) ne in
      (
        n,
        link_node n up (fresh_node (some name) directory up (s.nodes n) (s.nodes up))
            (record s { world = w' }),
        rw (==_ne n 0 nz, ==_ne (a.kmalloc (length name + 1) w).0 0 named) refl,
        record {
          given = refl;
          new = new;
          tree = Linked-IsTree s.nodes _ n up name live kids t here new k;
          linked = k;
          root = refl;
          cwd = refl;
          world = refl;
        },
      )
