-- ===== src/Tarfs/Mount/Unpacked.antt =====
-- mount of src/fs/tarfs.cpp with an archive in a gzip member.
use los_tac_os.Base.{
  ℕ, zero, suc, ◌+◌, ◌*◌, ◌/◌, ◌%◌, ◌^◌, ◌≤◌, ◌<◌, ◌≡◌, ◌≢◌, refl, sym, List, take, ap, ◌∙◌, true,
  ◌&&◌, ltb, leb, ==_ne, lt→ltb, arith,
}
use mathlib.Core.Path.{subst}
use los_tac_os.Base.Run.{done}
use los_tac_os.Vfs.{Allocator}
use los_tac_os.Tarfs.{TarEntry, max_tar_files, octal_loop, octal_to_int, digit_of, build_index}
use los_tac_os.Tarfs.Index.{Members, build_index-take}
use los_tac_os.Tarfs.Loops.{IsHeader, first_header, header_behind, HasSizes, archive_members}
use los_tac_os.Gzip.Blocks.Stored.{IsStored, is_gzip-stored, decompress-stored}
use los_tac_os.Tarfs.Mount.{unpacked_size, with_buffer, set_archive, mount}

octal_loop_same :
    (len p q value : ℕ) (m m' : ℕ → ℕ)
    → ((i : ℕ) → i < len → m' (q + i) ≡ m (p + i))
    → octal_loop len q value m' ≡ octal_loop len p value m
unfolding octal_loop
octal_loop_same zero p q value m m' same = refl
octal_loop_same (suc len) p q value m m' same =
    let q0 : q + 0 ≡ q = omega arith in
    let p0 : p + 0 ≡ p = omega arith in
    let here : m' q ≡ m p = ap m' (sym q0) ∙ same 0 (omega arith) ∙ ap m p0 in
    let next : ℕ = (value * 8 % 2 ^ 64 + digit_of (m p)) % 2 ^ 64 in
    let rest : octal_loop len (q + 1) next m' ≡ octal_loop len (p + 1) next m =
      octal_loop_same len (p + 1) (q + 1) next m m' (λ i l.
        let q1 : q + 1 + i ≡ q + suc i = omega arith in
        let p1 : p + suc i ≡ p + 1 + i = omega arith in
        ap m' q1 ∙ same (suc i) (omega arith) ∙ ap m p1) in
    rw (here, rest) refl

octal_to_int_same :
    (len p q : ℕ) (m m' : ℕ → ℕ)
    → ((i : ℕ) → i < len → m' (q + i) ≡ m (p + i))
    → octal_to_int q len m' ≡ octal_to_int p len m
unfolding octal_to_int
octal_to_int_same len p q m m' same = octal_loop_same len p q 0 m m' same

-- An archive of whole blocks of 512 bytes at `p`, and its copy at `q`.
module _ (p q len : ℕ) (m m' : ℕ → ℕ) (whole : len % 512 ≡ 0)
    (same : (i : ℕ) → i < len → m' (q + i) ≡ m (p + i)) where
  same_size :
      (d : ℕ)
      → d % 512 ≡ 0
      → d < len
      → octal_to_int (q + d + 124) 12 m' ≡ octal_to_int (p + d + 124) 12 m
  same_size d block inside = octal_to_int_same 12 (p + d + 124) (q + d + 124) m m' (λ i l.
      let q1 : q + d + 124 + i ≡ q + (d + 124 + i) = omega arith in
      let p1 : p + (d + 124 + i) ≡ p + d + 124 + i = omega arith in
      ap m' q1 ∙ same (d + 124 + i) (omega arith) ∙ ap m p1)

  -- A header of the copy stands where the archive has one.
  record IsCopied (r : ℕ) : Type 0 where
    place : ℕ
    at : r ≡ q + place
    block : place % 512 ≡ 0
    original : IsHeader m p (p + len) (p + place)

  header-IsCopied : (r : ℕ) → IsHeader m' q (q + len) r → IsCopied r
  header-IsCopied _ first_header = record {
    place = 0;
    at = omega arith;
    block = refl;
    original =
        let p0 : p ≡ p + 0 = omega arith in subst (λ x. IsHeader m p (p + len) x) p0 first_header;
  }
  header-IsCopied _ (header_behind ptr i count h inside l ne lo hi) =
      let c = header-IsCopied ptr h in
      let d = c.place in
      let low : d < len = omega (arith, c.at) in
      let size : octal_to_int (ptr + 124) 12 m' ≡ octal_to_int (p + d + 124) 12 m =
        ap (λ x. octal_to_int (x + 124) 12 m') c.at ∙ same_size d c.block low in
      let shift : ptr + i ≡ q + (d + i) = omega (arith, c.at) in
      let back : p + (d + i) ≡ p + d + i = omega arith in
      let byte : m' (ptr + i) ≡ m (p + d + i) =
        ap m' shift ∙ same (d + i) (omega (arith, c.block)) ∙ ap m back in
      let to : p + d + 512 + 512 * count ≡ p + (d + 512 + 512 * count) = omega arith in
      record {
        place = d + 512 + 512 * count;
        at = omega (arith, c.at);
        block = omega (arith, c.block);
        original =
            subst (λ x. IsHeader m p (p + len) x) to
              (header_behind (p + d) i count c.original (omega arith) l (λ z. ne (byte ∙ z))
                (omega (arith, size)) (omega (arith, size)));
      }

  sizes_copied : HasSizes m p (p + len) → HasSizes m' q (q + len)
  sizes_copied sizes r h inside =
      let c = header-IsCopied r h in
      let low : c.place < len = omega (arith, c.at) in
      let size : octal_to_int (r + 124) 12 m' ≡ octal_to_int (p + c.place + 124) 12 m =
        ap (λ x. octal_to_int (x + 124) 12 m') c.at ∙ same_size c.place c.block low in
      omega (arith, size, sizes (p + c.place) c.original (omega arith))

set_archive_members :
    {W : Type 0} (a : Allocator W) (fuel start size : ℕ) (m : ℕ → ℕ) (w : W)
    → HasSizes m start (start + size)
    → start + size < 2 ^ 63
    → size / 512 + 2 ≤ fuel
    → (es : List TarEntry) × Members m (start + size) start es
      × (set_archive a fuel start size m w
          ≡ done record {
            tar_start = start;
            tar_size = size;
            entries = take max_tar_files es;
            memory = m;
            world = w;
          })
unfolding set_archive
set_archive_members a fuel start size m w sizes low enough =
    let (es, h, few) = archive_members fuel start size m sizes low enough in
    let flat : (start + size) % 2 ^ 64 ≡ start + size = omega arith in
    let ran : build_index fuel start size m ≡ done (take max_tar_files es) =
      build_index-take fuel start size m es (subst (λ e. Members m e start es) (sym flat) h) few in
    (es, h, rw ran refl)

-- An archive of whole blocks of 512 bytes, fewer than 65536 bytes and at least one block, in a gzip
-- member of one stored block, in which the size in every header is below 2^62: if there is memory
-- for the buffer, and that lies below 2^62, mount leaves the copy of the archive there as the
-- archive, with its exact size, and as the index the first 512 members of the copy. One unit of fuel
-- for each 512 bytes, and two more, are enough.
pub mount-set_archive :
    {W : Type 0} (a : Allocator W) (fuel address len : ℕ) (m : ℕ → ℕ) (w : W)
    → address ≢ 0
    → IsStored len (λ i. m (address + i))
    → 0 < len
    → len < 65536
    → len % 512 ≡ 0
    → HasSizes m (address + 15) (address + 15 + len)
    → (a.kmalloc unpacked_size w).0 ≢ 0
    → (a.kmalloc unpacked_size w).0 < 2 ^ 62
    → len / 512 + 2 ≤ suc fuel
    → (m' : ℕ → ℕ) × (es : List TarEntry) × Members m'
        ((a.kmalloc unpacked_size w).0 + len)
        (a.kmalloc unpacked_size w).0
        es
      × (mount a (suc fuel) address (15 + len + 8) m w
          ≡ done record {
            tar_start = (a.kmalloc unpacked_size w).0;
            tar_size = len;
            entries = take max_tar_files es;
            memory = m';
            world = (a.kmalloc unpacked_size w).1;
          })
      × ((i : ℕ) → i < len → m' ((a.kmalloc unpacked_size w).0 + i) ≡ m (address + 15 + i))
unfolding mount
mount-set_archive a fuel address len m w there stored some_bytes small whole sizes given low
      enough =
    let (p, w') = a.kmalloc unpacked_size w in
    let bytes : ℕ → ℕ = λ i. m (address + i) in
    let (r, ran, back) =
      decompress-stored len unpacked_size bytes (λ i. m (p + i)) stored small (omega arith) fuel in
    let ok : r.ok ≡ true = back.ok ∙ lt→ltb 0 len some_bytes in
    let m' = with_buffer p r.output m in
    let copied : (i : ℕ) → i < len → m' (p + i) ≡ m (address + 15 + i) = λ i h.
      let inside : (leb p (p + i) && ltb (p + i) (p + unpacked_size)) ≡ true = ground arith in
      let from : address + (15 + i) ≡ address + 15 + i = omega arith in
      rw inside (ap r.output (omega arith) ∙ back.bytes i h ∙ ap m from) in
    let (es, h, made) =
      set_archive_members a (suc fuel) p len m' w'
        (sizes_copied (address + 15) p len m m' whole copied sizes) (omega (arith, low)) enough in
    rw (==_ne address 0 there, is_gzip-stored stored, ==_ne p 0 given, ran, back.written, ok)
      (m', es, h, made, copied)
