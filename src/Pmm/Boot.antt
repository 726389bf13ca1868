-- ===== src/Pmm/Boot.antt =====
-- pmm::init of src/mm/pmm.cpp over a whole memory map.
use los_tac_os.Base.{
  ℕ, ◌+◌, ◌-◌, ◌*◌, ◌%◌, ◌≤◌, ◌<◌, ◌≡◌, ◌⊎◌, sym, inl, inr, Bool-cases, true, arith, ◌==◌, List, [],
  ◌∷◌,
}
use los_tac_os.Base.Bits.{bit_full}
use los_tac_os.Pmm.Count.{Inv, count_clear-none}
use los_tac_os.Pmm.Region.{
  reserve_region-Inv, reserve_region_marks, reserve_region_keeps, free_region-Inv,
}
use los_tac_os.Pmm.{
  Pmm, Tag, Entry, mmap, other, page_size, max_pages, u64, test_bit, init, init_tags, init_entries,
  init_entry, cleared, memory_available, reserve_region,
}

pub cleared-bit : (j : ℕ) → test_bit cleared.bitmap j ≡ true
unfolding test_bit cleared
cleared-bit j = bit_full (j % 8) (omega arith)

pub cleared-Inv : Inv cleared
unfolding cleared
cleared-Inv = record {
  bytes = λ i. omega arith;
  counted = sym (count_clear-none max_pages (test_bit (λ _. 255)) cleared-bit);
  cursor = omega arith;
}

init_entry-Inv : (e : Entry) (p : Pmm) → Inv p → Inv (init_entry e p)
unfolding init_entry
init_entry-Inv e p v = elim (Bool-cases (e.kind == memory_available)) [
  | inr off ↦ rw off v
  | inl on ↦ rw on (
      free_region-Inv e.addr _ _
        (record { bytes = v.bytes; counted = v.counted; cursor = v.cursor }))
]

init_entries-Inv : (es : List Entry) (p : Pmm) → Inv p → Inv (init_entries es p)
unfolding init_entries
init_entries-Inv [] p v = v
init_entries-Inv (e ∷ es) p v = init_entries-Inv es (init_entry e p) (init_entry-Inv e p v)

init_tags-Inv : (ts : List Tag) (p : Pmm) → Inv p → Inv (init_tags ts p)
unfolding init_tags
init_tags-Inv [] p v = v
init_tags-Inv (mmap es ∷ ts) p v = init_tags-Inv ts (init_entries es p) (init_entries-Inv es p v)
init_tags-Inv (other ∷ ts) p v = init_tags-Inv ts p v

-- After pmm::init the free-page counter is the number of clear bits, for every memory map.
pub init-Inv : (ts : List Tag) (kernel_start kernel_end : ℕ) → Inv (init ts kernel_start kernel_end)
unfolding init
init-Inv ts kernel_start kernel_end =
    reserve_region-Inv kernel_start ((kernel_end + u64 - kernel_start) % u64)
      (reserve_region 0 0x100000 (init_tags ts cleared))
      (reserve_region-Inv 0 0x100000 (init_tags ts cleared) (init_tags-Inv ts cleared cleared-Inv))

-- Whatever the memory map says, after pmm::init the pages of the first MiB and those of the kernel
-- image are in use.
pub init_reserves :
    (ts : List Tag) (kernel_start kernel_end j : ℕ)
    → kernel_start ≤ kernel_end
    → kernel_end + page_size ≤ u64
    → j < max_pages
    → (j * page_size < 0x100000)
      ⊎ ((kernel_start < (j + 1) * page_size) × (j * page_size < kernel_end))
    → test_bit (init ts kernel_start kernel_end).bitmap j ≡ true
unfolding init
init_reserves ts kernel_start kernel_end j le fits l (inl low) =
    let v : Inv (init_tags ts cleared) = init_tags-Inv ts cleared cleared-Inv in
    reserve_region_keeps kernel_start ((kernel_end + u64 - kernel_start) % u64) j
      (reserve_region 0 0x100000 (init_tags ts cleared))
      (reserve_region-Inv 0 0x100000 (init_tags ts cleared) v) (omega arith) l
      (reserve_region_marks 0 0x100000 j (init_tags ts cleared) v (omega arith) l (omega arith)
        (omega arith))
init_reserves ts kernel_start kernel_end j le fits l (inr (a, b)) =
    reserve_region_marks kernel_start ((kernel_end + u64 - kernel_start) % u64) j
      (reserve_region 0 0x100000 (init_tags ts cleared))
      (reserve_region-Inv 0 0x100000 (init_tags ts cleared) (init_tags-Inv ts cleared cleared-Inv))
      (omega arith) l a (omega arith)
