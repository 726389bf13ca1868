-- ===== src/Paging/Tests.antt =====
-- The page tables of src/mm/paging.cpp after one page was freed.
use los_tac_os.Base.{ℕ, ◌*◌, ◌/◌, ◌≡◌, refl, ap, ◌∙◌, true, [], ◌==◌, if◌then◌else◌, arith}
use los_tac_os.Pmm.{Pmm, cleared, free_page, test_bit}
use los_tac_os.Pmm.Alloc.{free_page-bit}
use los_tac_os.Pmm.Count.{Inv, free_page-Inv}
use los_tac_os.Pmm.Boot.{cleared-Inv, cleared-bit}
use los_tac_os.Paging.{Tables, map_page}
use los_tac_os.Paging.Levels.{IsHierarchy}
use los_tac_os.Paging.Spaces.{create_address_space}
use los_tac_os.Paging.Spaces.Created.{Created, create_address_space-Created}
use los_tac_os.Paging.Mapping.{Mapped, map_page-Mapped}

-- Only page 5 is free.
abbrev one_page : Tables
one_page = record {
  pages = free_page (5 * 4096) cleared;
  entries = λ _ _. 0;
  flushed = [];
  reserved_end = 0;
}

-- The pages 5, 6 and 7 are free, and page 9 is an empty table of the first level.
abbrev one_free : Pmm
one_free = free_page (5 * 4096) cleared

abbrev two_free : Pmm
two_free = free_page (6 * 4096) one_free

abbrev three_free : Pmm
three_free = free_page (7 * 4096) two_free

one_free-Inv : Inv one_free
one_free-Inv = free_page-Inv (5 * 4096) cleared (omega arith) cleared-Inv

two_free-Inv : Inv two_free
two_free-Inv = free_page-Inv (6 * 4096) one_free (omega arith) one_free-Inv

three_free-Inv : Inv three_free
three_free-Inv = free_page-Inv (7 * 4096) two_free (omega arith) two_free-Inv

page9_used : test_bit three_free.bitmap 9 ≡ true
page9_used =
    free_page-bit two_free (7 * 4096) 9 two_free-Inv.bytes
    ∙ free_page-bit one_free (6 * 4096) 9 one_free-Inv.bytes
    ∙ free_page-bit cleared (5 * 4096) 9 cleared-Inv.bytes
    ∙ cleared-bit 9

abbrev empty_tables : Tables
empty_tables = record { pages = three_free; entries = λ _ _. 0; flushed = []; reserved_end = 0 }

abbrev one_level : ℕ → ℕ
one_level q = if q == 9 * 4096 then 4 else 0

empty_tables-IsHierarchy : IsHierarchy one_level empty_tables
empty_tables-IsHierarchy = record {
  pages = three_free-Inv;
  used = λ p n.
      let same : p ≡ 9 * 4096 = ground arith in
      ap (λ q. test_bit three_free.bitmap (q / 4096)) same ∙ page9_used;
  nonzero = refl;
  leads = λ p i k l e. cc;
}

map_page-Mapped_example :
    Mapped one_level empty_tables
      (9 * 4096)
      0x400123
      0x800456
      (map_page (9 * 4096) 0x400123 0x800456 7 empty_tables)
map_page-Mapped_example =
    map_page-Mapped one_level (9 * 4096) 0x400123 0x800456 7 empty_tables empty_tables-IsHierarchy
      refl (omega arith)

create_address_space-Created_example :
    Created (9 * 4096) empty_tables (create_address_space (9 * 4096) empty_tables)
create_address_space-Created_example =
    create_address_space-Created one_level (9 * 4096) empty_tables empty_tables-IsHierarchy
      (λ p i l e. refl) refl
