-- ===== src/Paging/Levels.antt =====
-- The page tables of src/mm/paging.cpp as a tree of four levels, and what alloc_page leaves of it.
pub mod Descend
pub mod Extends
use los_tac_os.Base.{
  ℕ, zero, suc, ◌+◌, ◌*◌, ◌/◌, ◌%◌, ◌^◌, ◌<◌, ◌≡◌, ◌≢◌, ◌⊎◌, refl, sym, ap, ◌∙◌, Bool, true, false,
  ◌&&◌, ◌||◌, Option, none, some, leb, ◌==◌, if◌then◌else◌, update, arith, inl, inr, Bool-cases,
  ==_ne,
}
use Prim.Native.Nat.{bit_or}
use los_tac_os.Base.Digits.{bit_or_page, bit_or_odd}
use los_tac_os.Pmm.{Pmm, alloc_page, free_page, page_size, test_bit}
use los_tac_os.Pmm.Count.{Inv, free_page-Inv}
use los_tac_os.Pmm.Alloc.{
  alloc_page-Inv, alloc_page_page, Taken, alloc_page-Taken, alloc_page_keeps, Restored,
  free_page-alloc_page,
}
use los_tac_os.Paging.{
  Tables, identity_map_limit, get_page, is_present, page_of, put_entry, upper_flags, descend,
}

abbrev pub in_use : Tables → ℕ → Bool
in_use t p = test_bit t.pages.bitmap (p / page_size)

-- `level` gives the level of each table, 1 for the last, and 0 for what is no table. A table is a
-- page in use, and a present entry above the last level leads to a table of the next level.
pub record IsHierarchy (level : ℕ → ℕ) (t : Tables) : Type 0 where
  pub pages : Inv t.pages
  pub used : (p : ℕ) → level p ≢ 0 → in_use t p ≡ true
  pub nonzero : level 0 ≡ 0
  pub leads :
      (p i k : ℕ)
      → level p ≡ suc (suc k)
      → is_present (t.entries p i) ≡ true
      → level (page_of (t.entries p i)) ≡ suc k

-- A page for a new table, or the refusal that leaves the tables as they were.
pub data Given (t : Tables) : Option ℕ × Tables → Type 0 where
  nothing :
      (t' : Tables)
      → Inv t'.pages
      → ((p : ℕ) → in_use t p ≡ true → in_use t' p ≡ true)
      → t'.entries ≡ t.entries
      → Given t (none, t')
  page :
      (p : ℕ) (t' : Tables)
      → Inv t'.pages
      → p ≢ 0
      → p % page_size ≡ 0
      → in_use t p ≡ false
      → ((q : ℕ) → in_use t' q ≡ (if q / page_size == p / page_size then true else in_use t q))
      → t'.entries ≡ update t.entries p (λ _. 0)
      → Given t (some p, t')

pub get_page-Given : (t : Tables) → Inv t.pages → Given t (get_page t)
unfolding get_page
get_page-Given t v =
    let r = alloc_page t.pages in
    let w : Inv r.1 = alloc_page-Inv t.pages v in
    let (i, small, e) = alloc_page_page t.pages v.cursor in
    elim (Bool-cases (r.0 == 0)) [
      | inl z ↦ rw z (
          nothing (record t { pages = r.1 }) w (λ p. alloc_page_keeps t.pages (p / page_size) v)
            refl)
      | inr nz ↦
          let ne : r.0 ≢ 0 = λ z. ground arith in
          let k : Taken t.pages r = alloc_page-Taken t.pages v ne in
          rw nz (elim (Bool-cases (leb identity_map_limit r.0)) [
            | inl big ↦
                let back : Restored t.pages (free_page r.0 r.1) =
                  free_page-alloc_page t.pages v ne in
                rw big (
                  nothing (record t { pages = free_page r.0 r.1 })
                    (free_page-Inv r.0 r.1 (ground (arith, e)) w)
                    (λ p h. back.bits (p / page_size) ∙ h) refl)
            | inr fits ↦ rw fits (
                page r.0 (record t { pages = r.1; entries = update t.entries r.0 (λ _. 0) }) w ne
                  (ground (arith, e)) k.was_free (λ q. k.bits (q / page_size)) refl)
          ])
    ]

pub is_present_or : (e flags : ℕ) → flags % 2 ≡ 1 → is_present (bit_or e flags) ≡ true
is_present_or e flags h = ground (arith, bit_or_odd e flags h)

pub page_of-bit_or : (e flags : ℕ) → flags < 4096 → page_of (bit_or e flags) ≡ page_of e
page_of-bit_or e flags h = ap (λ q. q * 4096) (bit_or_page e flags h)

pub put_entry_other :
    (table i v q j : ℕ) (t : Tables)
    → ((q == table) && (j == i)) ≡ false
    → (put_entry table i v t).entries q j ≡ t.entries q j
put_entry_other table i v q j t h = ground arith

pub put_entry_here :
    (table i v q j : ℕ) (t : Tables)
    → ((q == table) && (j == i)) ≡ true
    → (put_entry table i v t).entries q j ≡ v
put_entry_here table i v q j t h = ground arith

-- An entry is written that is present and leads to a table of the next level.
pub put_entry-IsHierarchy :
    (level : ℕ → ℕ) (table i v k : ℕ) (t : Tables)
    → IsHierarchy level t
    → level table ≡ suc (suc k)
    → level (page_of v) ≡ suc k
    → IsHierarchy level (put_entry table i v t)
put_entry-IsHierarchy level table i v k t h a b = record {
  pages = h.pages;
  used = h.used;
  nonzero = h.nonzero;
  leads = λ p j n l e. elim (Bool-cases ((p == table) && (j == i))) [
    | inl hit ↦
        let same : p ≡ table = ground arith in
        ap (λ y. level (page_of y)) (put_entry_here table i v p j t hit)
        ∙ b
        ∙ omega (arith, ap level same, l, a)
    | inr miss ↦
        let other = put_entry_other table i v p j t miss in
        ap (λ y. level (page_of y)) other ∙ h.leads p j n l (ap is_present (sym other) ∙ e)
  ];
}

-- A new page becomes a table of some level, with no entry.
abbrev pub with_table : (p k : ℕ) → (ℕ → ℕ) → ℕ → ℕ
with_table p k level q = if q == p then k else level q

pub fresh_level :
    (level : ℕ → ℕ) (t : Tables) (p : ℕ) → IsHierarchy level t → in_use t p ≡ false → level p ≡ 0
fresh_level level t p h f = elim (Bool-cases (level p == 0)) [
  | inl e ↦ ground arith
  | inr e ↦ absurd (ground (arith, h.used p (ground arith), f))
]

pub other_level :
    (level : ℕ → ℕ) (p k x n : ℕ) → level p ≡ 0 → level x ≡ suc n → with_table p k level x ≡ suc n
other_level level p k x n z l = elim (Bool-cases (x == p)) [
  | inl e ↦ let same : x ≡ p = ground arith in absurd (omega (arith, ap level same, z, l))
  | inr e ↦ ground arith
]

pub with_table-IsHierarchy :
    (level : ℕ → ℕ) (p k : ℕ) (t t' : Tables)
    → IsHierarchy level t
    → Inv t'.pages
    → p ≢ 0
    → in_use t p ≡ false
    → ((q : ℕ) → in_use t' q ≡ (if q / page_size == p / page_size then true else in_use t q))
    → t'.entries ≡ update t.entries p (λ _. 0)
    → IsHierarchy (with_table p k level) t'
with_table-IsHierarchy level p k t t' h w ne free bits e = record {
  pages = w;
  used = λ q l. elim (Bool-cases (q == p)) [
    | inl y ↦
        let same : q ≡ p = ground arith in ground (arith, bits q, ap (λ x. x / page_size) same)
    | inr y ↦ ground (arith, bits q, h.used q (ground arith))
  ];
  nonzero = ground (arith, h.nonzero, ne);
  leads = λ q i n l g.
      let zero_level : level p ≡ 0 = fresh_level level t p h free in
      let at : t'.entries q i ≡ update t.entries p (λ _. 0) q i = ap (λ m. m q i) e in
      elim (Bool-cases (q == p)) [
        | inl y ↦
            let empty : t'.entries q i ≡ 0 = at ∙ ground arith in absurd (ground (arith, empty))
        | inr y ↦
            let old : t'.entries q i ≡ t.entries q i = at ∙ ground arith in
            let leads = h.leads q i n (ground arith) (ap is_present (sym old) ∙ g) in
            ap (λ x. with_table p k level (page_of x)) old
            ∙ other_level level p k (page_of (t.entries q i)) n zero_level leads
      ];
}
