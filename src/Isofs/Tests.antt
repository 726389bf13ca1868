-- ===== src/Isofs/Tests.antt =====
-- A file of 5000 bytes on a disc in which each byte is its place in the file, cut to a byte.
use los_tac_os.Base.{ℕ, ◌+◌, ◌-◌, ◌*◌, ◌%◌, ◌/◌, ◌≤◌, ◌≡◌, refl, min, some, arith}
use los_tac_os.Base.Int.{int32}
use los_tac_os.Base.Run.{done}
use los_tac_os.Isofs.{Disk, isofs_read}
use los_tac_os.Isofs.Read.{with_bytes, handle, isofs_read-with_bytes}

abbrev places : ℕ → ℕ → ℕ
places j i = (2048 * j + i) % 256

abbrev disc : Disk
disc port lba = some (places (lba - 40))

disc_blocks : (j : ℕ) → j ≤ 5000 / 2048 → disc 1 (40 + j) ≡ some (places j)
disc_blocks j h = let at : 40 + j - 40 ≡ j = omega arith in rw at refl

abbrev clear : ℕ → ℕ
clear i = 0

isofs_read-with_bytes_example :
    (bytes : ℕ → ℕ) × (isofs_read disc clear 3000
        (handle disc places 1 18 2048 40 5000 disc_blocks (omega arith) 2000)
      ≡ done (
        int32 (min 3000 (5000 - 2000)),
        bytes,
        handle disc places 1 18 2048 40 5000 disc_blocks
            (omega arith)
            (2000 + min 3000 (5000 - 2000)),
      ))
    × ((i : ℕ) → bytes i ≡ with_bytes places 0 (min 3000 (5000 - 2000)) 2000 clear i)
isofs_read-with_bytes_example =
    isofs_read-with_bytes disc places 1 18 2048 40 5000 disc_blocks (omega arith) clear 3000 2000
      (omega arith)
