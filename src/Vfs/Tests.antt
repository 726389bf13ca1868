-- ===== src/Vfs/Tests.antt =====
-- The tree of src/fs/vfs.cpp on concrete nodes.
use los_tac_os.Base.{
  ℕ, ◌+◌, ◌≡◌, ◌⊎◌, refl, Bool, true, false, none, some, List, [], ◌∷◌, ◌==◌, if◌then◌else◌, update,
  arith, inl, inr,
}
use los_tac_os.Base.Run.{done, out}
use los_tac_os.Vfs.{
  Node, vfs_dir, vfs_file, vfs_symlink, Vfs, Allocator, FileSystems, find_in, equal_names,
  start_dir, node_size,
}
use los_tac_os.Heap.{Heap, init, kmalloc, kfree}
use los_tac_os.Vfs.Paths.{parts, parts_from, push_char}
use los_tac_os.Vfs.Find.{find}
use los_tac_os.Vfs.Content.{Blocks, remove_node}
use los_tac_os.Fd.{File}
use los_tac_os.Vfs.Tree.{IsTree, entries, look}
use los_tac_os.Vfs.Tree.Lookup.{find_in-look}
use los_tac_os.Vfs.Tree.Remove.{kids_less, drop_node, blocks_of, all_freed, remove_node-Removed}
use los_tac_os.Vfs.Tree.Loops.{find-self_link}

-- The kernel's heap as the allocator. The loops over its blocks get as much fuel as there are blocks
-- here, and two more.
abbrev kernel_heap : Allocator Heap
kernel_heap = record {
  kmalloc = λ k h. elim (kmalloc 4 k h) [ none ↦ (0, h) | some r ↦ r ];
  kfree = λ p h. elim (kfree 4 p h) [ none ↦ h | some h' ↦ h' ];
}

abbrev empty_heap : Heap
empty_heap = record {
  blocks = λ _. record { size = 0; free = false; next = none };
  words = λ _. 0;
  head = none;
  cursor = none;
  initialized = false;
}

abbrev alone : FileSystems Heap
alone = record {
  fs_init = λ _. none;
  fs_open = λ _. none;
  fs_close = λ _. none;
  fs_read = λ _. none;
  fs_write = λ _. none;
  dev_read = λ _. none;
  dev_write = λ _. none;
}

abbrev root_node : Node
root_node = record {
  name = some (47 ∷ []);
  directory = true;
  kind = vfs_dir;
  parent = none;
  next = none;
  children = some 2;
  symlink = none;
  filesystem = none;
  mount_data = 0;
  file = none;
  dev = none;
}

-- Below the root a directory "a", a file "b" and a link "l" to itself.
abbrev dir_node : Node
dir_node = record root_node {
  name = some (97 ∷ []);
  parent = some 1;
  next = some 3;
  children = none;
}

abbrev file_node : Node
file_node = record root_node {
  name = some (98 ∷ []);
  directory = false;
  kind = vfs_file;
  parent = some 1;
  next = none;
  children = none;
}

abbrev self_link_node : Node
self_link_node = record file_node {
  name = some (108 ∷ []);
  kind = vfs_symlink;
  symlink = some (47 ∷ (108 ∷ []));
}

abbrev memory : Node → ℕ → Node
memory last n = if n == 1 then root_node else if n == 2 then dir_node else last

abbrev small : Node → Vfs Heap
small last = record {
  nodes = memory last;
  root = some 1;
  current_dir = some 1;
  process_cwd = none;
  world = init empty_heap;
}

abbrev live3 : ℕ → Bool
live3 n = if n == 1 then true else if n == 2 then true else n == 3

abbrev kids3 : ℕ → List ℕ
kids3 n = if n == 1 then 2 ∷ (3 ∷ []) else []

three : (n : ℕ) → live3 n ≡ true → (n ≡ 1) ⊎ ((n ≡ 2) ⊎ (n ≡ 3))
three n h = ground arith

small-IsTree :
    (last : Node)
    → last.next ≡ none
    → last.children ≡ none
    → last.parent ≡ some 1
    → ((last.name ≡ none) → ⊥)
    → IsTree (memory last) live3 kids3
small-IsTree last e c p named = record {
  chain = λ d h. elim (three d h) [
    | inl q ↦ rw q (refl, (refl, e))
    | inr (inl q) ↦ rw q refl
    | inr (inr q) ↦ rw q c
  ];
  once = λ d h. elim (three d h) [
    | inl q ↦ rw q (refl, (refl, tt))
    | inr (inl q) ↦ rw q tt
    | inr (inr q) ↦ rw q tt
  ];
  alive = λ d n h g. ground arith;
  above = λ d n h g. ground (arith, p);
  named = λ n h z. ground (arith, named);
}

file-IsTree : IsTree (memory file_node) live3 kids3
file-IsTree = small-IsTree file_node refl refl refl (λ z. cc)

link-IsTree : IsTree (memory self_link_node) live3 kids3
link-IsTree = small-IsTree self_link_node refl refl refl (λ z. cc)

find_in-look_example :
    find_in 5 1 (98 ∷ []) (memory file_node)
    ≡ done (look (98 ∷ []) (entries (memory file_node) (kids3 1)))
find_in-look_example =
    find_in-look 5 1 (98 ∷ []) (memory file_node) live3 kids3 file-IsTree refl (omega arith)

-- The heap after init gives the addresses of its first payloads.
abbrev heap_one : Heap
heap_one = (kernel_heap.kmalloc node_size (init empty_heap)).1

-- The path "/c".
abbrev deep : List ℕ
deep = 99 ∷ []

-- The blocks of node 3, all outside the heap.
abbrev low_blocks : Blocks
low_blocks = record { name_block = λ n. 16; file_block = λ n. 32; content_block = λ n. 48 }

remove_node-Removed_example :
    (s' : Vfs Heap) × (remove_node kernel_heap low_blocks 9 3 (small file_node) ≡ done (true, s'))
    × IsTree s'.nodes (update live3 3 false) (kids_less 3 1 kids3)
    × ((d : ℕ)
        → entries s'.nodes (kids_less 3 1 kids3 d) ≡ (
            if d == 1
            then drop_node 3 (entries (memory file_node) (kids3 1))
            else entries (memory file_node) (kids3 d)))
    × (s'.world
        ≡ all_freed kernel_heap low_blocks (blocks_of low_blocks 3 file_node) (init empty_heap))
remove_node-Removed_example =
    remove_node-Removed kernel_heap low_blocks 9 3 1 (small file_node) live3 kids3 file-IsTree refl
      refl refl refl (omega arith)

find-self_link_example : find alone (λ _. []) 9 1000 (47 ∷ (108 ∷ [])) (small self_link_node) ≡ out
unfolding start_dir parts parts_from push_char look equal_names
find-self_link_example =
    find-self_link alone (λ _. []) 9 1000 1 3 108 (108 ∷ []) [] (small self_link_node) live3 kids3
      link-IsTree refl refl (omega arith) refl refl refl refl refl refl (omega arith)

-- The file holds "hi".
abbrev text_file : File
text_file = record { size = 2; offset = 0; content = some (λ i. 104 + i); reader = none }

abbrev text_node : Node
text_node = record file_node { file = some text_file }
