-- ===== src/Vfs.antt =====
-- The tree of nodes of src/fs/vfs.cpp with include/LTOS/fs/vfs.hpp. A node is its address and a
-- string the list of its characters; a loop over the children takes the fuel `walk`.
pub mod Paths
pub mod Find
pub mod Content
pub mod Handles
pub mod Nodes
pub mod Texts
pub mod Mounting
pub mod Tree
mod Tests
use los_tac_os.Base.{
  ℕ, zero, suc, ◌+◌, Bool, true, false, ◌&&◌, ◌||◌, not, Option, none, some, List, [], ◌∷◌, length,
  ◌==◌, if◌then◌else◌, update,
}
use los_tac_os.Base.Int.{ℤ}
use los_tac_os.Base.Run.{Run, done, fault, out, ◌>>=◌, ◌>>◌, deref}
use los_tac_os.Fd.{File}

pub data NodeType : Type 0 where
  vfs_file vfs_dir vfs_dev vfs_symlink vfs_mount : NodeType

-- `kind` is the field `type`. A name is missing where strdup had no memory.
pub record Node : Type 0 where
  pub name : Option (List ℕ)
  pub directory : Bool
  pub kind : NodeType
  pub parent : Option ℕ
  pub next : Option ℕ
  pub children : Option ℕ
  pub symlink : Option (List ℕ)
  pub filesystem : Option ℕ
  pub mount_data : ℕ
  pub file : Option File
  pub dev : Option ℕ

-- `process_cwd` is the directory of the current task's process, `world` the heap and the mounted
-- file systems.
pub record Vfs (W : Type 0) : Type 0 where
  pub nodes : ℕ → Node
  pub root : Option ℕ
  pub current_dir : Option ℕ
  pub process_cwd : Option ℕ
  pub world : W

-- heap::kmalloc, of which 0 is the null pointer, and heap::kfree.
pub record Allocator (W : Type 0) : Type 0 where
  pub kmalloc : ℕ → W → ℕ × W
  pub kfree : ℕ → W → W

-- The callbacks of a mounted file system and of a device, `none` where the pointer is null. An open
-- gives a handle, or the null pointer; a read gives its result and the bytes that it stored.
pub record FileSystems (W : Type 0) : Type 0 where
  pub fs_init : ℕ → Option (W → Bool × W)
  pub fs_open : ℕ → Option (ℕ → List ℕ → W → Option ℕ × W)
  pub fs_close : ℕ → Option (ℕ → W → W)
  pub fs_read : ℕ → Option (ℕ → ℕ → W → (ℤ × List ℕ) × W)
  pub fs_write : ℕ → Option (ℕ → List ℕ → W → ℤ × W)
  pub dev_read : ℕ → Option (ℕ → ℕ → W → (ℕ × List ℕ) × W)
  pub dev_write : ℕ → Option (List ℕ → ℕ → W → ℕ × W)

abbrev pub is_link : NodeType → Bool
is_link vfs_symlink = true
is_link _ = false

abbrev pub is_mount : NodeType → Bool
is_mount vfs_mount = true
is_mount _ = false

abbrev pub is_dev : NodeType → Bool
is_dev vfs_dev = true
is_dev _ = false

-- sizeof(Node)
abbrev pub node_size : ℕ
node_size = 88

-- The comparison of find_in: equal up to both ends.
unfoldable pub equal_names : List ℕ → List ℕ → Bool
equal_names [] [] = true
equal_names [] (y ∷ ys) = false
equal_names (x ∷ xs) [] = false
equal_names (x ∷ xs) (y ∷ ys) = (x == y) && equal_names xs ys

-- The loop of find_in from the pointer `p` on.
pub find_child : ℕ → (name : List ℕ) → Option ℕ → (ℕ → Node) → Run (Option ℕ)
find_child zero name p m = out
find_child (suc walk) name none m = done none
find_child (suc walk) name (some n) m =
    let rest = find_child walk name (m n).next m in
    deref (m n).name >>= λ given. if equal_names given name then done (some n) else rest

unfoldable pub find_in : ℕ → (dir : ℕ) → (name : List ℕ) → (ℕ → Node) → Run (Option ℕ)
find_in walk dir name m = find_child walk name (m dir).children m

-- The new values that create_node gives the fields; `symlink` keeps what the memory held.
abbrev pub fresh_node :
    (name : Option (List ℕ)) → (directory : Bool) → (parent : ℕ) → (old up : Node) → Node
fresh_node name directory parent old up = record old {
  name = name;
  directory = directory;
  kind = if directory then vfs_dir else vfs_file;
  parent = some parent;
  children = none;
  file = none;
  dev = none;
  filesystem = up.filesystem;
  mount_data = up.mount_data;
  next = up.children;
}

module _ {W : Type 0} where
  abbrev pub set_node : ℕ → Node → Vfs W → Vfs W
  set_node n v s = record s { nodes = update s.nodes n v }

  -- get_process_cwd
  pub get_process_cwd : Vfs W → Option ℕ
  get_process_cwd s = elim s.process_cwd [ none ↦ s.root | some d ↦ some d ]

  -- The directory that a path starts from, in create_file_path and create_dir_path.
  unfoldable pub start_dir : (absolute : Bool) → Vfs W → Option ℕ
  unfolding get_process_cwd
  start_dir true s = s.root
  start_dir false s = get_process_cwd s

  pub set_current : Option ℕ → Vfs W → Vfs W
  set_current none s = s
  set_current (some n) s = if (s.nodes n).directory then record s { current_dir = some n } else s

  -- The node joins the children of its parent, as the first.
  pub link_node : (n parent : ℕ) → Node → Vfs W → Vfs W
  link_node n parent v s =
      let s = set_node n v s in set_node parent (record (s.nodes parent) { children = some n }) s

  module _ (a : Allocator W) where
    pub strdup : List ℕ → W → Option (List ℕ) × W
    strdup text w =
        let (p, w) = a.kmalloc (length text + 1) w in (if p == 0 then none else some text, w)

    unfoldable pub create_node :
        (name : List ℕ) → (directory : Bool) → (parent : ℕ) → Vfs W → Run (ℕ × Vfs W)
    unfolding strdup link_node
    create_node name directory parent s =
        let (n, w) = a.kmalloc node_size s.world in
        if n == 0
        then fault
        else (let (given, w) = strdup name w in
            let v = fresh_node given directory parent (s.nodes n) (s.nodes parent) in
            done (n, link_node n parent v (record s { world = w })))

    -- `dev` and `symlink` keep what the memory held.
    pub init : Vfs W → Run (Vfs W)
    unfolding strdup
    init s =
        let (n, w) = a.kmalloc node_size s.world in
        if n == 0
        then fault
        else (let (given, w) = strdup (47 ∷ []) w in
            let v = record (s.nodes n) {
              filesystem = none;
              mount_data = 0;
              name = given;
              directory = true;
              kind = vfs_dir;
              parent = none;
              next = none;
              children = none;
              file = none;
            } in
            done (record (set_node n v s) { root = some n; current_dir = some n; world = w }))

    -- create_file and create_dir
    pub create_here : (name : List ℕ) → (directory : Bool) → Vfs W → Run (ℕ × Vfs W)
    unfolding create_node
    create_here name directory s = deref s.current_dir >>= λ d. create_node name directory d s

    pub ensure_dir : ℕ → (parent : ℕ) → (name : List ℕ) → Vfs W → Run (ℕ × Vfs W)
    unfolding find_in create_node
    ensure_dir walk parent name s = do
      found ← find_in walk parent name s.nodes
      elim found [ none ↦ create_node name true parent s | some n ↦ done (n, s) ]

  -- propagate_fs on the nodes from the pointer `p` on and below them.
  pub propagate : ℕ → (fs : Option ℕ) → (mount_data : ℕ) → Option ℕ → Vfs W → Run (Vfs W)
  propagate zero fs mount_data p s = out
  propagate (suc fuel) fs mount_data none s = done s
  propagate (suc fuel) fs mount_data (some n) s =
      let s = set_node n (record (s.nodes n) { filesystem = fs; mount_data = mount_data }) s in
      propagate fuel fs mount_data (s.nodes n).children s >>= λ s.
      propagate fuel fs mount_data (s.nodes n).next s

  pub mount_node : ℕ → (node : ℕ) → (fs : Option ℕ) → (mount_data : ℕ) → Vfs W → Run (Vfs W)
  unfolding propagate
  mount_node fuel node fs mount_data s =
      let v = record (s.nodes node) {
        kind = vfs_mount;
        filesystem = fs;
        mount_data = mount_data;
      } in
      let s = set_node node v s in propagate fuel fs mount_data (s.nodes node).children s
