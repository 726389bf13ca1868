-- ===== src/Elf/Tests.antt =====
-- A segment of four bytes that starts inside a page.
use los_tac_os.Base.{ℕ, ◌+◌, ◌-◌, ◌%◌, ◌≡◌, ◌&&◌, ltb, leb, if◌then◌else◌, arith}
use los_tac_os.Elf.{Phdr, copy_in, copy_page}
use los_tac_os.Elf.Segments.{segment_byte, copy_page-segment_byte}

abbrev four_bytes : Phdr
four_bytes = record { p_type = 1; p_offset = 0x100; p_vaddr = 0x400010; p_filesz = 4; p_memsz = 64 }

abbrev image : ℕ → ℕ
image i = i % 256

abbrev old_bytes : ℕ → ℕ
old_bytes i = 170

copy_page-segment_byte_example :
    copy_page four_bytes 0x400000 0x5000 image (copy_in 0x5000 0x1000 (λ _. 0) old_bytes) 0x5011 ≡ (
      if leb 0x5000 0x5011 && ltb 0x5011 (0x5000 + 0x1000)
      then segment_byte four_bytes image (0x400000 + (0x5011 - 0x5000))
      else old_bytes 0x5011)
copy_page-segment_byte_example =
    copy_page-segment_byte four_bytes 0x400000 0x5000 image old_bytes 0x5011 (omega arith)
      (omega arith) (omega arith)
