-- ===== src/Pmm.antt =====
-- The physical page allocator, src/mm/pmm.cpp: the bitmap of bytes, the counters and the rolling
-- cursor. The boot loader's memory map is given as a list of tags, in the order of its pointer walk.
mod Bitmap
pub mod Count
pub mod Region
pub mod Alloc
pub mod Boot
unfoldable pub use Bitmap.{set_bit, clear_bit, test_bit, IsBytes}
mod Tests
use los_tac_os.Base.{
  ℕ, zero, suc, ◌+◌, ◌-◌, ◌*◌, ◌/◌, ◌%◌, ◌^◌, Option, none, some, List, [], ◌∷◌, ltb, ◌==◌,
  if◌then◌else◌,
}

abbrev pub page_size : ℕ
page_size = 4096

-- MAX_MEMORY / PAGE_SIZE
abbrev pub max_pages : ℕ
max_pages = 128 * 1024 * 1024 * 1024 / page_size

abbrev pub u64 : ℕ
u64 = 2 ^ 64

pub record Pmm : Type 0 where
  pub bitmap : ℕ → ℕ
  pub last_page : ℕ
  pub total_pages : ℕ
  pub free_pages_count : ℕ

-- The body of the loop of reserve_region, at page `i`.
pub reserve_step : ℕ → Pmm → Pmm
unfolding test_bit set_bit
reserve_step i p =
    if ltb i max_pages
    then (if test_bit p.bitmap i then p else record p {
      bitmap = set_bit p.bitmap i;
      free_pages_count = (p.free_pages_count + u64 - 1) % u64;
    })
    else p

-- for (i = i; n rounds are left; i++)
pub reserve_loop : ℕ → ℕ → Pmm → Pmm
reserve_loop zero i p = p
reserve_loop (suc n) i p = reserve_loop n (i + 1) (reserve_step i p)

pub reserve_region : ℕ → ℕ → Pmm → Pmm
unfolding reserve_loop reserve_step
reserve_region addr len p =
    let start = addr / page_size in
    let end = (addr + len + page_size - 1) % u64 / page_size in reserve_loop (end - start) start p

pub free_step : ℕ → Pmm → Pmm
unfolding test_bit clear_bit
free_step i p =
    if ltb i max_pages
    then (if test_bit p.bitmap i
        then record p {
          bitmap = clear_bit p.bitmap i;
          free_pages_count = (p.free_pages_count + 1) % u64;
        }
        else p)
    else p

pub free_loop : ℕ → ℕ → Pmm → Pmm
free_loop zero i p = p
free_loop (suc n) i p = free_loop n (i + 1) (free_step i p)

pub free_region : ℕ → ℕ → Pmm → Pmm
unfolding free_loop free_step
free_region addr len p =
    let start = addr / page_size in
    let end = (addr + len) % u64 / page_size in free_loop (end - start) start p

-- A memory map entry, and a tag of the boot information: a memory map or another kind.
pub record Entry : Type 0 where
  pub addr : ℕ
  pub len : ℕ
  pub kind : ℕ

pub data Tag : Type 0 where
  mmap : List Entry → Tag
  other : Tag

abbrev pub memory_available : ℕ
memory_available = 1

pub init_entry : Entry → Pmm → Pmm
unfolding free_region
init_entry e p =
    let pages = e.len / page_size in
    let pages = if ltb max_pages pages then max_pages else pages in
    if e.kind == memory_available
    then free_region e.addr (pages * page_size)
        (record p { total_pages = (p.total_pages + pages) % u64 })
    else p

pub init_entries : List Entry → Pmm → Pmm
init_entries [] p = p
init_entries (e ∷ es) p = init_entries es (init_entry e p)

pub init_tags : List Tag → Pmm → Pmm
init_tags [] p = p
init_tags (mmap es ∷ ts) p = init_tags ts (init_entries es p)
init_tags (other ∷ ts) p = init_tags ts p

-- memset(bitmap, 0xff, ...) and the counters at 0.
pub cleared : Pmm
cleared = record { bitmap = λ _. 255; last_page = 0; total_pages = 0; free_pages_count = 0 }

-- `kernel_start` and `kernel_end` are the linker's symbols.
pub init : List Tag → (kernel_start kernel_end : ℕ) → Pmm
unfolding init_tags init_entries init_entry reserve_region cleared
init tags kernel_start kernel_end =
    reserve_region kernel_start ((kernel_end + u64 - kernel_start) % u64)
      (reserve_region 0 0x100000 (init_tags tags cleared))

-- The first clear bit among `n` pages from `i` on.
pub scan : ℕ → ℕ → (ℕ → ℕ) → Option ℕ
unfolding test_bit
scan zero i m = none
scan (suc n) i m = let rest = scan n (i + 1) m in if test_bit m i then rest else some i

-- What both loops of alloc_page do with the clear bit `i`; the result is the page's address.
pub claim : ℕ → Pmm → ℕ × Pmm
unfolding set_bit
claim i p = (
  i * page_size,
  record p {
    bitmap = set_bit p.bitmap i;
    free_pages_count = (p.free_pages_count + u64 - 1) % u64;
    last_page = i + 1;
  },
)

pub alloc_page : Pmm → ℕ × Pmm
unfolding scan claim
alloc_page p = elim (scan (max_pages - p.last_page) p.last_page p.bitmap) [
  | some i ↦ claim i p
  | none ↦ elim (scan p.last_page 0 p.bitmap) [ some i ↦ claim i p | none ↦ (0, p) ]
]

-- The source tests no bound on the page: an address of 128 GiB or more indexes past the bitmap.
pub free_page : ℕ → Pmm → Pmm
unfolding test_bit clear_bit
free_page addr p =
    let page = addr / page_size in
    if test_bit p.bitmap page
    then record p {
      bitmap = clear_bit p.bitmap page;
      free_pages_count = (p.free_pages_count + 1) % u64;
      last_page = if ltb page p.last_page then page else p.last_page;
    }
    else p

pub free_memory : Pmm → ℕ
free_memory p = p.free_pages_count * page_size % u64

pub total_memory : Pmm → ℕ
total_memory p = p.total_pages * page_size % u64

pub used_memory : Pmm → ℕ
unfolding free_memory total_memory
used_memory p = if ltb (total_memory p) (free_memory p) then 0 else total_memory p - free_memory p
