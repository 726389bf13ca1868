-- ===== src/Paging.antt =====
-- The page tables, src/mm/paging.cpp. A table is the physical address of its page, and `tables`
-- holds the 512 entries of each; the kernel reads them at the physical address.
pub mod Pages
pub mod Levels
pub mod Mapping
pub mod Spaces
mod Tests
use Prim.Native.Nat.{bit_or}
use los_tac_os.Base.{
  ℕ, zero, suc, ◌+◌, ◌-◌, ◌*◌, ◌/◌, ◌%◌, ◌^◌, Bool, true, false, ◌&&◌, ◌||◌, not, Option, none,
  some, List, [], ◌∷◌, ltb, leb, ◌==◌, if◌then◌else◌, update,
}
use los_tac_os.Pmm.{Pmm, alloc_page, free_page, reserve_region}

-- `pages` is the page allocator, `flushed` the addresses given to invlpg.
pub record Tables : Type 0 where
  pub pages : Pmm
  pub entries : ℕ → ℕ → ℕ
  pub flushed : List ℕ
  pub reserved_end : ℕ

abbrev pub identity_map_limit : ℕ
identity_map_limit = 0x10000000

abbrev pub is_present : ℕ → Bool
is_present e = e % 2 == 1

-- PAGE_USER, the flag 4.
abbrev pub is_user : ℕ → Bool
is_user e = e / 4 % 2 == 1

-- `a & ~0xFFF`.
abbrev pub page_of : ℕ → ℕ
page_of a = a / 4096 * 4096

abbrev pub put_entry : (table i v : ℕ) → Tables → Tables
put_entry table i v t = record t { entries = update t.entries table (update (t.entries table) i v) }

-- `(va >> shift) & 0x1FF`.
abbrev pub index : (shift va : ℕ) → ℕ
index shift va = va / 2 ^ shift % 512

pub reserve_below : ℕ → Tables → Tables
reserve_below addr t = if leb addr t.reserved_end then t else record t {
  pages = reserve_region 0 (page_of ((addr + 0xFFF) % 2 ^ 64)) t.pages;
  reserved_end = addr;
}

-- paging::alloc_page; `none` is the null pointer.
pub get_page : Tables → Option ℕ × Tables
get_page t =
    let r = alloc_page t.pages in
    if r.0 == 0
    then (none, record t { pages = r.1 })
    else if leb identity_map_limit r.0
    then (none, record t { pages = free_page r.0 r.1 })
    else (some r.0, record t { pages = r.1; entries = update t.entries r.0 (λ _. 0) })

-- One level of map_page: the table that entry `i` leads to, made where there is none.
pub descend : (upper table i : ℕ) → Tables → Option ℕ × Tables
unfolding get_page
descend upper table i t =
    let e = t.entries table i in
    if is_present e
    then (some (page_of e), put_entry table i (bit_or e upper) t)
    else (let (o, t') = get_page t in
        elim o [ none ↦ (none, t') | some p ↦ (some p, put_entry table i (bit_or p upper) t') ])

-- The entry of the last table; a translation that was there is flushed.
pub set_leaf : (pt va pa flags : ℕ) → Tables → Tables
set_leaf pt va pa flags t =
    let e = t.entries pt (index 12 va) in
    let t = put_entry pt (index 12 va) (bit_or (page_of pa) flags) t in
    if is_present e then record t { flushed = va ∷ t.flushed } else t

-- The flags of the upper tables: present and writable, and user where the page is.
abbrev pub upper_flags : ℕ → ℕ
upper_flags flags = if is_user flags then 7 else 3

pub map_page : (pml4 va pa flags : ℕ) → Tables → Bool × Tables
unfolding descend set_leaf
map_page pml4 va pa flags t =
    let upper = upper_flags flags in
    let (a, t) = descend upper pml4 (index 39 va) t in
    elim a [
      | none ↦ (false, t)
      | some pdpt ↦
          let (b, t) = descend upper pdpt (index 30 va) t in
          elim b [
            | none ↦ (false, t)
            | some pd ↦
                let (c, t) = descend upper pd (index 21 va) t in
                elim c [ none ↦ (false, t) | some pt ↦ (true, set_leaf pt va pa flags t) ]
          ]
    ]

-- The loop of map_range from `offset` on, with fuel for the pages.
pub map_pages : ℕ → (pml4 virt phys end_ flags offset : ℕ) → Tables → Option (Bool × Tables)
unfolding map_page
map_pages zero pml4 virt phys end_ flags offset t = none
map_pages (suc fuel) pml4 virt phys end_ flags offset t =
    if ltb ((virt + offset) % 2 ^ 64) end_
    then (let (b, t') =
          map_page pml4 ((virt + offset) % 2 ^ 64) ((phys + offset) % 2 ^ 64) flags t in
        elim b [
          | false ↦ some (false, t')
          | true ↦ map_pages fuel pml4 virt phys end_ flags (offset + 4096) t'
        ])
    else some (true, t)

pub map_range : (fuel kernel_pml4 virt phys size flags : ℕ) → Tables → Option (Bool × Tables)
map_range fuel kernel_pml4 virt phys size flags t =
    map_pages fuel kernel_pml4 (page_of virt) (page_of phys)
      (page_of ((virt + size + 0xFFF) % 2 ^ 64)) flags 0 t

-- The last table on the way to `va`, where every entry on it is present.
pub last_table : (pml4 va : ℕ) → Tables → Option ℕ
last_table pml4 va t =
    let e = t.entries pml4 (index 39 va) in
    let f = t.entries (page_of e) (index 30 va) in
    let g = t.entries (page_of f) (index 21 va) in
    if is_present e && (is_present f && is_present g) then some (page_of g) else none

pub unmap_page : (pml4 va : ℕ) → Tables → Tables
unfolding last_table
unmap_page pml4 va t = elim (last_table pml4 va t) [
  | none ↦ t
  | some pt ↦
      if is_present (t.entries pt (index 12 va))
      then record (put_entry pt (index 12 va) 0 t) { flushed = va ∷ t.flushed }
      else t
]

-- virt_to_phys, which tests the tables' addresses and no present bit.
pub virt_to_phys : (pml4 va : ℕ) → Tables → ℕ
virt_to_phys pml4 va t =
    let pdpt = page_of (t.entries pml4 (index 39 va)) in
    let pd = page_of (t.entries pdpt (index 30 va)) in
    let pt = page_of (t.entries pd (index 21 va)) in
    if (pdpt == 0) || ((pd == 0) || (pt == 0)) then 0 else page_of (t.entries pt (index 12 va))
