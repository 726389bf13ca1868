-- ===== src/Vfs/Tree.antt =====
-- The nodes of src/fs/vfs.cpp as a tree: the directories as lists of entries, each a name with a
-- node, and the blocks that new nodes need.
pub mod Lookup
pub mod Linked
pub mod Create
pub mod Dirs
pub mod Resolve
pub mod Unlink
pub mod Remove
pub mod Loops
use los_tac_os.Base.{
  ℕ, zero, suc, ◌+◌, ◌<◌, ◌≤◌, ◌≡◌, ◌≢◌, Bool, true, false, Option, none, some, List, [], ◌∷◌,
  if◌then◌else◌, update,
}
use los_tac_os.Base.Chain.{Links, holds, NoneTwice}
use los_tac_os.Vfs.{Node, Vfs, Allocator, equal_names, node_size}

abbrev pub next_of : (ℕ → Node) → ℕ → Option ℕ
next_of m n = (m n).next

-- `live` says which nodes there are, and `kids` gives the children of each in their order.
pub record IsTree (m : ℕ → Node) (live : ℕ → Bool) (kids : ℕ → List ℕ) : Type 0 where
  pub chain : (d : ℕ) → live d ≡ true → Links (next_of m) (m d).children (kids d)
  pub once : (d : ℕ) → live d ≡ true → NoneTwice (kids d)
  pub alive : (d n : ℕ) → live d ≡ true → holds n (kids d) ≡ true → live n ≡ true
  pub above : (d n : ℕ) → live d ≡ true → holds n (kids d) ≡ true → (m n).parent ≡ some d
  pub named : (n : ℕ) → live n ≡ true → (m n).name ≢ none

-- The name of a node that has one.
abbrev pub name_from : Option (List ℕ) → List ℕ
name_from none = []
name_from (some given) = given

abbrev pub name_of : Node → List ℕ
name_of v = name_from v.name

-- A directory as a list of entries.
abbrev pub entries : (ℕ → Node) → List ℕ → List (List ℕ × ℕ)
entries m [] = []
entries m (n ∷ ns) = (name_of (m n), n) ∷ entries m ns

-- The first entry with the name.
unfoldable pub look : List ℕ → List (List ℕ × ℕ) → Option ℕ
look name [] = none
look name ((given, n) ∷ es) = if equal_names given name then some n else look name es

-- The largest block that the functions on paths ask for: a part has 127 characters at most.
abbrev pub block_limit : ℕ
block_limit = 128

-- The allocator can give what `k` calls of create_node ask for: for each a block for the node, which
-- is no node that is in use, and one for a name of at most 127 characters.
abbrev pub Supplies : {W : Type 0} → Allocator W → ℕ → (live : ℕ → Bool) → W → Type 0
Supplies a zero live w = Unit {0}
Supplies a (suc k) live w =
    ((a.kmalloc node_size w).0 ≢ 0)
    × (live (a.kmalloc node_size w).0 ≡ false)
    × ((size : ℕ)
        → size ≤ block_limit
        → ((a.kmalloc size (a.kmalloc node_size w).1).0 ≢ 0)
          × Supplies a k (update live (a.kmalloc node_size w).0 true)
              (a.kmalloc size (a.kmalloc node_size w).1).1)

-- What is enough for one more is enough.
pub Supplies-less :
    {W : Type 0} (a : Allocator W) (k : ℕ) (live : ℕ → Bool) (w : W)
    → Supplies a (suc k) live w
    → Supplies a k live w
Supplies-less a zero live w h = tt
Supplies-less a (suc k) live w h =
    (h.0, h.1, λ size few. let named = h.2 size few in (named.0, Supplies-less a k _ _ named.1))
