-- ===== src/Pmm/Tests.antt =====
-- The page allocator of src/mm/pmm.cpp on concrete bitmaps.
use los_tac_os.Base.{◌*◌, ◌≡◌, ◌≢◌, refl, inr, true, List, [], ◌∷◌, ◌==◌, if◌then◌else◌, arith}
use los_tac_os.Pmm.{Pmm, Tag, mmap, page_size, cleared, init, alloc_page, free_page, test_bit}
use los_tac_os.Pmm.Count.{Inv, free_page-Inv}
use los_tac_os.Pmm.Boot.{cleared-Inv, init_reserves}
use los_tac_os.Pmm.Alloc.{
  Allocated, Restored, alloc_page-Allocated, alloc_page-Inv, free_page-alloc_page,
  alloc_page-free_page,
}

-- All pages in use but those with the numbers 0 and 5, with the search from page 3 on.
abbrev two_free : Pmm
two_free = record {
  bitmap = λ i. if i == 0 then 222 else 255;
  last_page = 3;
  total_pages = 9;
  free_pages_count = 2;
}

alloc_page-Allocated_example : Allocated two_free (alloc_page two_free)
alloc_page-Allocated_example = alloc_page-Allocated two_free (omega arith)

-- All pages in use, with the search behind page 8, and then page 5 freed.
abbrev past : Pmm
past = record cleared { last_page = 9 }

past-Inv : Inv past
unfolding cleared
past-Inv = record { bytes = cleared-Inv.bytes; counted = cleared-Inv.counted; cursor = omega arith }

abbrev freed : Pmm
freed = free_page (5 * page_size) past

freed-Inv : Inv freed
freed-Inv = free_page-Inv (5 * page_size) past (omega arith) past-Inv

freed_not_null : (alloc_page freed).0 ≢ 0
unfolding cleared test_bit
freed_not_null e = ground (arith, alloc_page-free_page past 5 past-Inv (omega arith) refl)

alloc_page-Inv_example : Inv (alloc_page freed).1
alloc_page-Inv_example = alloc_page-Inv freed freed-Inv

free_page-alloc_page_example : Restored freed (free_page (alloc_page freed).0 (alloc_page freed).1)
free_page-alloc_page_example = free_page-alloc_page freed freed-Inv freed_not_null

-- A memory map with one available area, from 1 MiB on.
abbrev tags : List Tag
tags = mmap (record { addr = 0x100000; len = 0x4000; kind = 1 } ∷ []) ∷ []

init_reserves_example : test_bit (init tags 0x101000 0x102000).bitmap 0x101 ≡ true
init_reserves_example =
    init_reserves tags 0x101000 0x102000 0x101 (omega arith) (omega arith) (omega arith)
      (inr (omega arith, omega arith))
