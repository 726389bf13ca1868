-- ===== src/Paging/Spaces/Created.antt =====
-- create_address_space of src/mm/paging.cpp as a whole.
use Prim.Native.Nat.{bit_or}
use los_tac_os.Base.{
  ℕ, ◌/◌, ◌%◌, ◌≤◌, ◌<◌, ◌≡◌, ◌≢◌, ◌⊎◌, refl, sym, ap, ◌∙◌, Bool, true, false, ◌&&◌, Option, none,
  some, ◌==◌, if◌then◌else◌, update, update_self, update_ne, arith, inl, inr, Bool-cases, ==_ne,
}
use los_tac_os.Pmm.{page_size}
use los_tac_os.Pmm.Count.{Inv}
use los_tac_os.Paging.{Tables, get_page, index, page_of, put_entry, virt_to_phys}
use los_tac_os.Paging.Levels.{
  IsHierarchy, in_use, Given, nothing, page, get_page-Given, page_of-bit_or, put_entry_other,
  put_entry_here,
}
use los_tac_os.Paging.Spaces.{copy_entries, add_pdpt, create_address_space, give_back}
use los_tac_os.Paging.Spaces.Shared.{
  IsClean, Laid, child, copy_entries_other, copy_entries_copied, copy_entries_pages,
  laid_translates,
}
use mathlib.Core.Path.{subst}

-- What create_address_space leaves: a space that translates the lowest 512 GiB and the upper half as
-- the kernel's did, or nothing, where alloc_page refused the first page, or the second after the
-- first was filled, and the first is given back.
pub data Created (kernel : ℕ) (t : Tables) : Option ℕ × Tables → Type 0 where
  refused_pml4 : (t' : Tables) → get_page t ≡ (none, t') → Created kernel t (none, t')
  refused_pdpt :
      (pml4 : ℕ) (t1 t2 : Tables)
      → get_page t ≡ (some pml4, t1)
      → get_page (copy_entries 256 256 kernel pml4 t1) ≡ (none, t2)
      → Created kernel t (none, give_back pml4 t2)
  made :
      (pml4 : ℕ) (t' : Tables)
      → ((va : ℕ)
          → (index 39 va ≡ 0) ⊎ (256 ≤ index 39 va)
          → virt_to_phys pml4 va t' ≡ virt_to_phys kernel va t)
      → Created kernel t (some pml4, t')

not_free : {b : Bool} → b ≡ true → b ≡ false → ⊥
not_free x y = cc

still_used : (b : Bool) {u : Bool} → u ≡ true → (if b then true else u) ≡ true
still_used true e = refl
still_used false e = e

module _ (level : ℕ → ℕ) (kernel : ℕ) (t : Tables) (h : IsHierarchy level t)
    (clean : IsClean level t) (root : level kernel ≡ 4) where
  -- The tables behind the two pages: `t1` has the first, `t3` the second.
  module _ (pml4 pdpt : ℕ) (t1 t3 : Tables) (free1 : in_use t pml4 ≡ false) (nz : pdpt ≢ 0)
      (aligned : pdpt % page_size ≡ 0)
      (used1 : (q : ℕ)
        → in_use t1 q ≡ (if q / page_size == pml4 / page_size then true else in_use t q))
      (entries1 : t1.entries ≡ update t.entries pml4 (λ _. 0))
      (free3 : in_use (copy_entries 256 256 kernel pml4 t1) pdpt ≡ false)
      (entries3 : t3.entries
        ≡ update (copy_entries 256 256 kernel pml4 t1).entries pdpt (λ _. 0)) where
    abbrev t2 : Tables
    t2 = copy_entries 256 256 kernel pml4 t1

    abbrev kp : ℕ
    kp = page_of (t.entries kernel 0)

    table_pml4 : (q : ℕ) → level q ≢ 0 → q ≢ pml4
    table_pml4 q l e = not_free (h.used q l) (ap (in_use t) e ∙ free1)

    used2 : (q : ℕ) → in_use t1 q ≡ true → q ≢ pdpt
    used2 q u e = not_free u (
        ap (in_use t1) e
        ∙ sym (
            ap (λ p. in_use (record t1 { pages = p }) pdpt)
              (copy_entries_pages 256 256 kernel pml4 t1))
        ∙ free3)

    table_pdpt : (q : ℕ) → level q ≢ 0 → q ≢ pdpt
    table_pdpt q l = used2 q (used1 q ∙ still_used (q / page_size == pml4 / page_size) (h.used q l))

    pml4_pdpt : pml4 ≢ pdpt
    pml4_pdpt = used2 pml4 (used1 pml4 ∙ (ground arith))

    other1 : (q j : ℕ) → q ≢ pml4 → t1.entries q j ≡ t.entries q j
    other1 q j ne =
        ap (λ m. m q j) entries1 ∙ ap (λ m. m j) (update_ne t.entries pml4 q (λ _. 0) ne)

    other3 : (q j : ℕ) → q ≢ pml4 → q ≢ pdpt → t3.entries q j ≡ t.entries q j
    other3 q j ne ne' =
        ap (λ m. m q j) entries3
        ∙ ap (λ m. m j) (update_ne t2.entries pdpt q (λ _. 0) ne')
        ∙ copy_entries_other 256 256 kernel pml4 q j t1 ne
        ∙ other1 q j ne

    kernel_table : level kernel ≢ 0
    kernel_table z = absurd (omega (arith, root, z))

    high3 : (j : ℕ) → 256 ≤ j → j < 512 → t3.entries pml4 j ≡ t.entries kernel j
    high3 j lo hi =
        ap (λ m. m pml4 j) entries3
        ∙ ap (λ m. m j) (update_ne t2.entries pdpt pml4 (λ _. 0) pml4_pdpt)
        ∙ copy_entries_copied 256 256 kernel pml4 j t1 (table_pml4 kernel kernel_table) lo
            (omega arith)
        ∙ other1 kernel j (table_pml4 kernel kernel_table)

    zeroed3 : (j : ℕ) → t3.entries pdpt j ≡ 0
    zeroed3 j = ap (λ m. m pdpt j) entries3 ∙ ap (λ m. m j) (update_self t2.entries pdpt (λ _. 0))

    kp3 : page_of (t3.entries kernel 0) ≡ kp
    kp3 =
        ap page_of
          (other3 kernel 0 (table_pml4 kernel kernel_table) (table_pdpt kernel kernel_table))

    -- The entries of the second page, and those of the other tables.
    abbrev mid : Tables
    mid =
        if page_of (t3.entries kernel 0) == 0
        then t3
        else copy_entries 512 0 (page_of (t3.entries kernel 0)) pdpt t3

    mid_other : (q j : ℕ) → q ≢ pdpt → mid.entries q j ≡ t3.entries q j
    mid_other q j ne = elim (Bool-cases (page_of (t3.entries kernel 0) == 0)) [
      | inl e ↦ rw e refl
      | inr e ↦ rw e (copy_entries_other 512 0 (page_of (t3.entries kernel 0)) pdpt q j t3 ne)
    ]

    mid_none : (j : ℕ) → kp ≡ 0 → mid.entries pdpt j ≡ 0
    mid_none j z =
        let null : (page_of (t3.entries kernel 0) == 0) ≡ true = ground (arith, kp3, z) in
        rw null (zeroed3 j)

    mid_tables : (j : ℕ) → j < 512 → kp ≢ 0 → mid.entries pdpt j ≡ t.entries kp j
    mid_tables j small some_there =
        let there : (page_of (t3.entries kernel 0) == 0) ≡ false =
          ap (λ p. p == 0) kp3 ∙ ==_ne kp 0 some_there in
        let three : (kp ≡ 0) ⊎ (level kp ≡ 3) = child level t h clean kernel 0 2 root in
        let leads : level kp ≡ 3 = ground (arith, three) in
        let table : level kp ≢ 0 = λ z. absurd (omega (arith, leads, z)) in
        rw (there, kp3)
          (copy_entries_copied 512 0 kp pdpt j t3 (table_pdpt kp table) (omega arith) (omega arith)
            ∙ other3 kp j (table_pml4 kp table) (table_pdpt kp table))

    abbrev final : Tables
    final = put_entry pml4 0 (bit_or pdpt 7) mid

    final_other :
        (q j : ℕ) → ((q == pml4) && (j == 0)) ≡ false → final.entries q j ≡ mid.entries q j
    final_other q j ne = put_entry_other pml4 0 (bit_or pdpt 7) q j mid ne

    not_pml4 : (q j : ℕ) → q ≢ pml4 → ((q == pml4) && (j == 0)) ≡ false
    not_pml4 q j ne = rw (==_ne q pml4 ne) refl

    final-Laid : Laid level kernel pml4 pdpt t final
    final-Laid =
        let pdpt_pml4 : pdpt ≢ pml4 = λ e. pml4_pdpt (sym e) in
        record {
          nonzero = nz;
          low =
              ap page_of (put_entry_here pml4 0 (bit_or pdpt 7) pml4 0 mid (ground arith))
              ∙ page_of-bit_or pdpt 7 (omega arith)
              ∙ omega (arith, aligned);
          high = λ j lo hi.
              final_other pml4 j (ground arith) ∙ mid_other pml4 j pml4_pdpt ∙ high3 j lo hi;
          no_tables = λ j small z.
              ap page_of (final_other pdpt j (not_pml4 pdpt j pdpt_pml4) ∙ mid_none j z);
          tables = λ j small some_there.
              final_other pdpt j (not_pml4 pdpt j pdpt_pml4) ∙ mid_tables j small some_there;
          same = λ q j l.
              final_other q j (not_pml4 q j (table_pml4 q l))
              ∙ mid_other q j (table_pdpt q l)
              ∙ other3 q j (table_pml4 q l) (table_pdpt q l);
        }

    final-made : Created kernel t (some pml4, final)
    final-made =
        made pml4 final (laid_translates level kernel pml4 pdpt t final h clean root final-Laid)

  second :
      (pml4 : ℕ) (t1 : Tables)
      → get_page t ≡ (some pml4, t1)
      → in_use t pml4 ≡ false
      → ((q : ℕ) → in_use t1 q ≡ (if q / page_size == pml4 / page_size then true else in_use t q))
      → t1.entries ≡ update t.entries pml4 (λ _. 0)
      → (r : Option ℕ × Tables) → get_page (copy_entries 256 256 kernel pml4 t1) ≡ r
      → Given (copy_entries 256 256 kernel pml4 t1) r
      → Created kernel t (elim r.0 [
        | none ↦ (none, give_back pml4 r.1)
        | some pdpt ↦ (
          some pml4,
          put_entry pml4 0 (bit_or pdpt 7) (
              if page_of (r.1.entries kernel 0) == 0
              then r.1
              else copy_entries 512 0 (page_of (r.1.entries kernel 0)) pdpt r.1),
        )
      ])
  second pml4 t1 got free used e1 _ e (nothing t3 inv keeps same) = refused_pdpt pml4 t1 t3 got e
  second pml4 t1 got free used e1 _ e (page pdpt t3 inv nz al free3 used3 e3) =
      final-made pml4 pdpt t1 t3 free nz al used e1 free3 e3

  first :
      (r : Option ℕ × Tables)
      → get_page t ≡ r
      → Given t r
      → Created kernel t (elim r.0 [
        | none ↦ (none, r.1)
        | some pml4 ↦ add_pdpt kernel pml4 (copy_entries 256 256 kernel pml4 r.1)
      ])
  unfolding add_pdpt
  first _ e (nothing t1 inv keeps same) = refused_pml4 t1 e
  first _ e (page pml4 t1 inv nz al free used e1) =
      let t2 = copy_entries 256 256 kernel pml4 t1 in
      second pml4 t1 e free used e1 (get_page t2) refl
        (get_page-Given t2 (subst Inv (sym (copy_entries_pages 256 256 kernel pml4 t1)) inv))

-- create_address_space, over tables in which an entry that is not present holds no address: the new
-- space translates every address of the lowest 512 GiB, so also those of programs, and of the
-- upper half as the kernel's tables did; it fails only where alloc_page refuses one of its two pages.
pub create_address_space-Created :
    (level : ℕ → ℕ) (kernel : ℕ) (t : Tables)
    → IsHierarchy level t
    → IsClean level t
    → level kernel ≡ 4
    → Created kernel t (create_address_space kernel t)
unfolding create_address_space
create_address_space-Created level kernel t h clean root =
    first level kernel t h clean root (get_page t) refl (get_page-Given t h.pages)
