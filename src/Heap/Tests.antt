-- ===== src/Heap/Tests.antt =====
-- The heap of src/mm/heap.cpp with two blocks.
use los_tac_os.Base.{
  ◌+◌, ◌≤◌, ◌≡◌, refl, true, false, none, some, [], ◌∷◌, ◌++◌, ◌==◌, if◌then◌else◌, arith,
}
use los_tac_os.Heap.{Heap, header, take_block}
use los_tac_os.Heap.Tiling.{Tiles, cut_list, take_block-Tiles}

-- A block of 64 bytes at 4096, and one of 128 bytes behind it.
abbrev two_blocks : Heap
two_blocks = record {
  blocks = λ a.
      if a == 4096
      then record { size = 64; free = true; next = some 4192 }
      else record { size = 128; free = true; next = none };
  words = λ _. 0;
  head = some 4096;
  cursor = some 4096;
  initialized = true;
}

take_block-Tiles_example :
    ((take_block 4192 32 two_blocks).0 ≡ 4192 + header)
    × (Tiles
          (take_block 4192 32 two_blocks).1.blocks
          4096
          ((4096 ∷ []) ++ 4192 ∷ cut_list 4192 32 two_blocks [])
          4352
        × ((((take_block 4192 32 two_blocks).1.blocks 4192).free ≡ false)
            × (32 ≤ ((take_block 4192 32 two_blocks).1.blocks 4192).size)))
take_block-Tiles_example =
    take_block-Tiles 4096 4192 32 4352 (4096 ∷ []) [] two_blocks (omega arith) (omega arith)
      (refl, (refl, (refl, (refl, refl))))
