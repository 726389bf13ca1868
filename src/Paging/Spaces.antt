-- ===== src/Paging/Spaces.antt =====
-- Address spaces: the rest of src/mm/paging.cpp, src/mm/address_space.cpp and src/mm/vmm.cpp. A page
-- is copied as its 512 words, like a table; `is_fb` says which addresses the frame buffer has.
pub mod Shared
pub mod Created
use Prim.Native.Nat.{bit_or}
use los_tac_os.Base.{
  ℕ, zero, suc, ◌+◌, ◌-◌, ◌*◌, ◌/◌, ◌%◌, ◌^◌, Bool, true, false, ◌&&◌, ◌||◌, not, Option, none,
  some, List, [], ◌∷◌, ltb, leb, ◌==◌, if◌then◌else◌, update,
}
use los_tac_os.Base.Run.{Run, done, fault}
use los_tac_os.Pmm.{Pmm, alloc_page, free_page, reserve_region}
use los_tac_os.Paging.{
  Tables, is_present, is_user, page_of, put_entry, get_page, map_page, unmap_page,
}

-- paging::init over the array `kernel_pml4`.
pub init : (kernel_pml4 : ℕ) → Tables → Tables
init kernel_pml4 t =
    let cleared : Tables = record t { entries = update t.entries kernel_pml4 (λ _. 0) } in
    if t.reserved_end == 0 then cleared else record cleared {
      pages = reserve_region 0 (page_of ((t.reserved_end + 0xFFF) % 2 ^ 64)) t.pages;
    }

-- setup_kernel_identity: the pages from `addr` on, `left` of them, and then the VGA text; the results
-- of map_page are not looked at.
pub map_identity : (left addr kernel_pml4 : ℕ) → Tables → Tables
map_identity zero addr kernel_pml4 t = t
map_identity (suc left) addr kernel_pml4 t =
    map_identity left (addr + 0x1000) kernel_pml4 (map_page kernel_pml4 addr addr 3 t).1

pub setup_kernel_identity : (kernel_pml4 : ℕ) → Tables → Tables
setup_kernel_identity kernel_pml4 t =
    (map_page kernel_pml4 0xB8000 0xB8000 3 (map_identity 0x10000 0 kernel_pml4 t)).1

-- `dst[i] = src[i]` for `left` entries from `i` on.
pub copy_entries : (left i src dst : ℕ) → Tables → Tables
copy_entries zero i src dst t = t
copy_entries (suc left) i src dst t =
    copy_entries left (i + 1) src dst (put_entry dst i (t.entries src i) t)

abbrev pub give_back : ℕ → Tables → Tables
give_back p t = record t { pages = free_page p t.pages }

-- The second page, for the low 512 GiB.
pub add_pdpt : (kernel_pml4 pml4 : ℕ) → Tables → Option ℕ × Tables
add_pdpt kernel_pml4 pml4 t =
    let (o, t) = get_page t in
    let kernel_pdpt = page_of (t.entries kernel_pml4 0) in
    elim o [
      | none ↦ (none, give_back pml4 t)
      | some pdpt ↦
          let copied = copy_entries 512 0 kernel_pdpt pdpt t in
          (some pml4, put_entry pml4 0 (bit_or pdpt 7) (if kernel_pdpt == 0 then t else copied))
    ]

pub create_address_space : (kernel_pml4 : ℕ) → Tables → Option ℕ × Tables
create_address_space kernel_pml4 t =
    let (o, t) = get_page t in
    elim o [
      | none ↦ (none, t)
      | some pml4 ↦ add_pdpt kernel_pml4 pml4 (copy_entries 256 256 kernel_pml4 pml4 t)
    ]

-- A loop over the entries of a table that are present, with the index and the table or page of each;
-- it stops where the step fails.
pub each_present : (left i table : ℕ) → (ℕ → ℕ → Tables → Bool × Tables) → Tables → Bool × Tables
each_present zero i table f t = (true, t)
each_present (suc left) i table f t =
    let e = t.entries table i in
    let r = f i e t in
    let stepped = each_present left (i + 1) table f r.1 in
    let passed = each_present left (i + 1) table f t in
    if is_present e then (if r.0 then stepped else r) else passed

-- The four nested loops over the lower half; `f` takes the four indices and the last entry.
pub each_leaf :
    (pml4 : ℕ) → (ℕ → ℕ → ℕ → ℕ → ℕ → ℕ → Tables → Bool × Tables) → Tables → Bool × Tables
each_leaf pml4 f = each_present 256 0 pml4 λ a pdpt. each_present 512 0 (page_of pdpt) λ b pd.
    each_present 512 0 (page_of pd)
      λ c pt. each_present 512 0 (page_of pt) λ d e. f a b c (page_of pt) d e

-- The body of the loops of destroy_user_pages at entry `i` of the table `pt`.
pub destroy_leaf : (ℕ → Bool) → (pt i e : ℕ) → Tables → Tables
destroy_leaf is_fb pt i e t =
    if is_user e && not (is_fb (page_of e)) then put_entry pt i 0 (give_back (page_of e) t) else t

pub destroy_user_pages : (ℕ → Bool) → (pml4 : ℕ) → Tables → Tables
destroy_user_pages is_fb pml4 t =
    (each_leaf pml4 (λ a b c pt d e t. (true, destroy_leaf is_fb pt d e t)) t).1

-- `a << 39 | b << 30 | c << 21 | d << 12` for indices below 512.
abbrev pub address_of : (a b c d : ℕ) → ℕ
address_of a b c d = a * 2 ^ 39 + b * 2 ^ 30 + c * 2 ^ 21 + d * 2 ^ 12

-- The body of the loops of clone_user_pages at the entry `e`.
pub clone_leaf : (ℕ → Bool) → (dst va e : ℕ) → Tables → Bool × Tables
clone_leaf is_fb dst va e t =
    let phys = page_of e in
    let flags = e % 4096 in
    let shared = (map_page dst va phys flags t).1 in
    let (o, t1) = get_page t in
    let copy : ℕ → Bool × Tables = λ p.
      let t2 : Tables = record t1 { entries = update t1.entries p (t1.entries phys) } in
      let (mapped, t3) = map_page dst va p flags t2 in
      if mapped then (true, t3) else (false, give_back p t3) in
    if not (is_user e)
    then (true, t)
    else if is_fb phys
    then (true, shared)
    else elim o [ none ↦ (false, t1) | some p ↦ copy p ]

pub clone_user_pages : (ℕ → Bool) → (dst src : ℕ) → Tables → Bool × Tables
clone_user_pages is_fb dst src =
    each_leaf src λ a b c pt d e. clone_leaf is_fb dst (address_of a b c d) e

-- PageTable::create and AddressSpace::create: the blocks for the two objects come from the heap, of
-- which `kmalloc` and `kfree` are the functions; 0 is the null pointer.
pub record Spaces (W : Type 0) : Type 0 where
  pub tables : Tables
  pub world : W
  pub pml4_of : ℕ → ℕ
  pub table_of : ℕ → ℕ

module _ {W : Type 0} (kmalloc : ℕ → W → ℕ × W) (kfree : ℕ → W → W) (kernel_pml4 : ℕ) where
  pub create_table : Spaces W → ℕ × Spaces W
  create_table s =
      let (p, w) = kmalloc 16 s.world in
      let (o, t) = create_address_space kernel_pml4 s.tables in
      if p == 0 then (0, record s { world = w }) else elim o [
        | none ↦ (0, record s { tables = t; world = kfree p w })
        | some pml4 ↦ (p, record s { tables = t; world = w; pml4_of = update s.pml4_of p pml4 })
      ]

  pub create : Spaces W → ℕ × Spaces W
  create s =
      let (space, w) = kmalloc 8 s.world in
      let (table, s') = create_table (record s { world = w }) in
      if space == 0
      then (0, record s { world = w })
      else if table == 0
      then (0, record s' { world = kfree space s'.world })
      else (space, record s' { table_of = update s'.table_of space table })

  -- AddressSpace::destroy; the table of the kernel is never freed.
  pub destroy : (ℕ → Bool) → (space : ℕ) → Spaces W → Spaces W
  destroy is_fb space s =
      let table = s.table_of space in
      let emptied : Spaces W = record s {
        tables = destroy_user_pages is_fb (s.pml4_of table) s.tables;
        world = kfree table s.world;
      } in
      let s' = if not (table == 0) && not (table == kernel_pml4) then emptied else s in
      record s' { world = kfree space s'.world }

-- The virtual allocator: `next` is where the next region starts.
pub record Vmm : Type 0 where
  pub tables : Tables
  pub kernel_pml4 : ℕ
  pub next : ℕ

pub map : (virt phys flags : ℕ) → Vmm → Vmm
map virt phys flags v = record v {
  tables = (map_page v.kernel_pml4 (page_of virt) (page_of phys) flags v.tables).1;
}

pub unmap : (virt : ℕ) → Vmm → Vmm
unmap virt v = record v { tables = unmap_page v.kernel_pml4 (page_of virt) v.tables }

-- The loop of alloc over `left` pages; 0 where no page is free.
pub alloc_pages : (left addr flags : ℕ) → Vmm → Bool × Vmm
alloc_pages zero addr flags v = (true, v)
alloc_pages (suc left) addr flags v =
    let r = alloc_page v.tables.pages in
    let v' : Vmm = record v { tables = record v.tables { pages = r.1 } } in
    let rest = alloc_pages left ((addr + 4096) % 2 ^ 64) flags (map addr r.0 flags v') in
    if r.0 == 0 then (false, v') else rest

pub alloc : (size flags : ℕ) → Vmm → ℕ × Vmm
alloc size flags v =
    let size = page_of ((size + 4095) % 2 ^ 64) in
    let whole = ltb v.next ((v.next + size) % 2 ^ 64) in
    let (ok, v') = alloc_pages (if whole then size / 4096 else 0) v.next flags v in
    if ok then (v.next, record v' { next = (v.next + size) % 2 ^ 64 }) else (0, v')
