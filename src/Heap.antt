-- ===== src/Heap.antt =====
-- The kernel heap, src/mm/heap.cpp. A block is its address; `words` holds the footers, which lie in
-- the payloads. A loop over the blocks takes fuel, and `none` says that the fuel ran out.
pub mod Tiling
pub mod Merging
mod Tests
use los_tac_os.Base.{
  ℕ, zero, suc, ◌+◌, ◌-◌, ◌*◌, ◌/◌, ◌%◌, ◌^◌, Bool, true, false, ◌&&◌, ◌||◌, not, Option, none,
  some, ltb, leb, ◌==◌, if◌then◌else◌, update,
}

pub record Block : Type 0 where
  pub size : ℕ
  pub free : Bool
  pub next : Option ℕ

pub record Heap : Type 0 where
  pub blocks : ℕ → Block
  pub words : ℕ → ℕ
  pub head : Option ℕ
  pub cursor : Option ℕ
  pub initialized : Bool

abbrev pub heap_start : ℕ
heap_start = 0x1000000

abbrev pub heap_size : ℕ
heap_size = 16 * 1024 * 1024

-- sizeof(Block), which is aligned to 16.
abbrev pub header : ℕ
header = 32

abbrev pub or_else : Option ℕ → ℕ → ℕ
or_else none d = d
or_else (some a) d = a

abbrev pub wrap : ℕ → ℕ
wrap a = a % 2 ^ 64

unfoldable pub align : ℕ → ℕ
align size = wrap (size + 15) / 16 * 16

-- `*footer(b) = b->size`.
unfoldable pub write_footer : ℕ → Heap → Heap
write_footer b h = record h {
  words = update h.words (b + header + (h.blocks b).size - 8) (h.blocks b).size;
}

abbrev pub set_block : ℕ → Block → Heap → Heap
set_block b v h = record h { blocks = update h.blocks b v }

pub prev_block : ℕ → Heap → Option ℕ
prev_block b h =
    if leb b heap_start then none else some (wrap (b + 2 ^ 64 - header - wrap (h.words (b - 8))))

pub next_block : ℕ → Heap → Option ℕ
next_block b h =
    let end_ = wrap (b + header + (h.blocks b).size) in
    if leb (heap_start + heap_size) end_ then none else some end_

unfoldable pub init : Heap → Heap
init h =
    if h.initialized
    then h
    else (let first : Block = record { size = heap_size - header; free = true; next = none } in
        let h = write_footer heap_start (set_block heap_start first h) in
        record h { head = some heap_start; cursor = some heap_start; initialized = true })

-- The block is cut behind `size` bytes, and the rest is a free block.
unfoldable pub split : (curr size : ℕ) → Heap → Heap
split curr size h =
    let v = h.blocks curr in
    let rest = curr + header + size in
    let cut : Block = record { size = v.size - size - header; free = true; next = v.next } in
    let h = write_footer rest (set_block rest cut h) in
    write_footer curr (set_block curr (record v { size = size; next = some rest }) h)

-- What kmalloc does with a block that fits; the result is the address of its payload.
unfoldable pub take_block : (curr size : ℕ) → Heap → ℕ × Heap
unfolding split
take_block curr size h =
    let h' =
      if leb (wrap (size + header + 16)) (h.blocks curr).size then split curr size h else h in
    (
      curr + header,
      record (set_block curr (record (h'.blocks curr) { free = false }) h') { cursor = some curr },
    )

-- The loop of kmalloc from `curr` on and back to `start`; the payload of no block is 0.
unfoldable pub kmalloc_loop : ℕ → (head start size curr : ℕ) → Heap → Option (ℕ × Heap)
kmalloc_loop zero head start size curr h = none
kmalloc_loop (suc fuel) head start size curr h =
    let n = or_else (h.blocks curr).next head in
    let rest = kmalloc_loop fuel head start size n h in
    if (h.blocks curr).free && leb size (h.blocks curr).size
    then some (take_block curr size h)
    else if n == start
    then some (0, h)
    else rest

-- Before init there is no block, and the loop would follow a null pointer.
unfoldable pub kmalloc : ℕ → ℕ → Heap → Option (ℕ × Heap)
kmalloc fuel size h = elim h.head [
  | none ↦ none
  | some head ↦
      let start = or_else h.cursor head in kmalloc_loop fuel head start (align size) start h
]

abbrev pub is_at : ℕ → Option ℕ → Bool
is_at a none = false
is_at a (some b) = b == a

-- The cursor leaves a block that is joined to another.
abbrev pub move_cursor : (gone kept : ℕ) → Heap → Heap
move_cursor gone kept h = if is_at gone h.cursor then record h { cursor = some kept } else h

-- The block `next` joins the block `block`.
pub join : (block next : ℕ) → Heap → Heap
join block next h =
    let v = h.blocks block in
    let joined : Block = record v {
      size = wrap (v.size + header + (h.blocks next).size);
      next = (h.blocks next).next;
    } in
    move_cursor next block (write_footer block (set_block block joined h))

-- The first half of kfree's merging; its walk over the blocks changes nothing, and is left out.
pub merge_next : ℕ → Heap → Heap
merge_next block h = elim (next_block block h) [
  | none ↦ h
  | some n ↦ if (h.blocks n).free && ltb n (heap_start + heap_size) then join block n h else h
]

-- The walk from `p` to the block before `block`.
pub find_before : ℕ → (block : ℕ) → Option ℕ → Heap → Option (Option ℕ)
find_before zero block p h = none
find_before (suc fuel) block none h = some none
find_before (suc fuel) block (some p) h =
    let rest = find_before fuel block (h.blocks p).next h in
    if is_at block (h.blocks p).next then some (some p) else rest

abbrev pub join_before : (prev block : ℕ) → Heap → Heap
join_before prev block h =
    if (h.blocks prev).free && is_at block (h.blocks prev).next then join prev block h else h

-- The second half, which trusts the footer before `block` only where it leads to a free block.
pub merge_prev : ℕ → ℕ → Heap → Option Heap
merge_prev fuel block h = elim (prev_block block h) [
  | none ↦ some h
  | some prev ↦
      if (h.blocks prev).free && (not (prev == block) && not (prev == 0))
      then (if is_at block (h.blocks prev).next
          then some (join_before prev block h)
          else elim (find_before fuel block h.head h) [
            | none ↦ none
            | some none ↦ some (join_before prev block h)
            | some (some p) ↦ some (join_before p block h)
          ])
      else some h
]

-- The address 0 is the null pointer.
pub kfree : ℕ → ℕ → Heap → Option Heap
kfree fuel p h =
    let block = p - header in
    if ltb p (heap_start + header) || leb (heap_start + heap_size) p
    then some h
    else if (h.blocks block).free
    then some h
    else (let h = set_block block (record (h.blocks block) { free = true }) h in
        let h = elim h.cursor as (λ _. Heap) [
          | none ↦ h
          | some c ↦ if ltb block c then record h { cursor = some block } else h
        ] in
        merge_prev fuel block (merge_next block h))
