-- ===== src/Paging/Mapping.antt =====
-- map_page of src/mm/paging.cpp against virt_to_phys.
use los_tac_os.Base.{
  ℕ, suc, ◌%◌, ◌<◌, ◌≡◌, ◌≢◌, refl, sym, ap, ◌∙◌, Bool, true, false, ◌&&◌, ◌==◌, Option, none, some,
  ==_ne, arith, inl, inr, Bool-cases,
}
use Prim.Native.Nat.{bit_or}
use los_tac_os.Paging.{
  Tables, get_page, is_present, is_user, page_of, index, put_entry, upper_flags, descend, set_leaf,
  map_page, virt_to_phys,
}
use los_tac_os.Paging.Levels.{IsHierarchy, page_of-bit_or, put_entry_other, put_entry_here}
use los_tac_os.Paging.Levels.Extends.{Extends, Extends-refl, Extends-same, Extends-Descended}
use los_tac_os.Paging.Levels.Descend.{Descended, Descends, refused, found, descend-Descends}

apart : (level : ℕ → ℕ) (a b m n : ℕ) → level a ≡ m → level b ≡ n → m ≢ n → a ≢ b
apart level a b m n x y ne z = ne (sym x ∙ ap level z ∙ y)

live : (level : ℕ → ℕ) (q n : ℕ) → level q ≡ suc n → level q ≢ 0
live level q n e z = omega (arith, e, z)

not_null : (level : ℕ → ℕ) (q n : ℕ) (t : Tables) → IsHierarchy level t → level q ≡ suc n → q ≢ 0
not_null level q n t h e = apart level q 0 (suc n) 0 e h.nonzero (λ z. cc)

-- A level leaves the other tables alone.
untouched :
    (level level' : ℕ → ℕ) (table i k p q j : ℕ) (t t' : Tables)
    → Descended level table i k t p level' t'
    → level q ≢ 0
    → q ≢ table
    → t'.entries q j ≡ t.entries q j
untouched level level' table i k p q j t t' d l ne = d.others q j l (ground (arith, ne))

-- The entries of set_leaf, whether it flushes or not.
set_leaf-entries :
    (pt va pa flags q j : ℕ) (t : Tables)
    → (set_leaf pt va pa flags t).entries q j
      ≡ (put_entry pt (index 12 va) (bit_or (page_of pa) flags) t).entries q j
unfolding set_leaf
set_leaf-entries pt va pa flags q j t =
    elim (Bool-cases (is_present (t.entries pt (index 12 va)))) [
      | inl e ↦ rw e refl
      | inr e ↦ rw e refl
    ]

set_leaf-other :
    (pt va pa flags q j : ℕ) (t : Tables)
    → q ≢ pt
    → (set_leaf pt va pa flags t).entries q j ≡ t.entries q j
set_leaf-other pt va pa flags q j t ne =
    set_leaf-entries pt va pa flags q j t
    ∙ put_entry_other pt (index 12 va) (bit_or (page_of pa) flags) q j t (ground (arith, ne))

set_leaf-pages : (pt va pa flags : ℕ) (t : Tables) → (set_leaf pt va pa flags t).pages ≡ t.pages
unfolding set_leaf
set_leaf-pages pt va pa flags t = elim (Bool-cases (is_present (t.entries pt (index 12 va)))) [
  | inl e ↦ rw e refl
  | inr e ↦ rw e refl
]

set_leaf-IsHierarchy :
    (level : ℕ → ℕ) (pt va pa flags : ℕ) (t : Tables)
    → IsHierarchy level t
    → level pt ≡ 1
    → IsHierarchy level (set_leaf pt va pa flags t)
set_leaf-IsHierarchy level pt va pa flags t h l =
    let same : (set_leaf pt va pa flags t).pages ≡ t.pages = set_leaf-pages pt va pa flags t in
    record {
      pages = rw same h.pages;
      used = λ p n. rw same (h.used p n);
      nonzero = h.nonzero;
      leads = λ p i k m e.
          let ne : p ≢ pt = apart level p pt (suc (suc k)) 1 m l (λ z. cc) in
          let old = set_leaf-other pt va pa flags p i t ne in
          ap (λ y. level (page_of y)) old ∙ h.leads p i k m (ap is_present (sym old) ∙ e);
    }

translate :
    (pml4 va pdpt pd pt : ℕ) (t : Tables)
    → page_of (t.entries pml4 (index 39 va)) ≡ pdpt
    → page_of (t.entries pdpt (index 30 va)) ≡ pd
    → page_of (t.entries pd (index 21 va)) ≡ pt
    → pdpt ≢ 0
    → pd ≢ 0
    → pt ≢ 0
    → virt_to_phys pml4 va t ≡ page_of (t.entries pt (index 12 va))
unfolding virt_to_phys
translate pml4 va pdpt pd pt t a b c x y z =
    rw (a, b, c, ==_ne pdpt 0 x, ==_ne pd 0 y, ==_ne pt 0 z) refl

-- What map_page leaves: the tables are a hierarchy that extends the old one, whose levels are
-- `level0`; the address is mapped, or a page for a table was needed and refused.
pub data Mapped (level0 : ℕ → ℕ) (t0 : Tables) (pml4 va pa : ℕ) : Bool × Tables → Type 0 where
  no_page :
      (level : ℕ → ℕ) (t t' : Tables)
      → IsHierarchy level t'
      → Extends (λ _. false) level0 t0 level t'
      → get_page t ≡ (none, t')
      → Mapped level0 t0 pml4 va pa (false, t')
  mapped :
      (level : ℕ → ℕ) (t' : Tables)
      → IsHierarchy level t'
      → Extends (λ j. j == index 12 va) level0 t0 level t'
      → virt_to_phys pml4 va t' ≡ page_of pa
      → Mapped level0 t0 pml4 va pa (true, t')

Extends-set_leaf :
    (level0 : ℕ → ℕ) (t0 : Tables) (level : ℕ → ℕ) (pt va pa flags : ℕ) (t : Tables)
    → level pt ≡ 1
    → Extends (λ _. false) level0 t0 level t
    → Extends (λ j. j == index 12 va) level0 t0 level (set_leaf pt va pa flags t)
Extends-set_leaf level0 t0 level pt va pa flags t last x = record {
  levels = x.levels;
  kept = λ q j l e.
      let old : level0 q ≢ 0 = λ z. absurd (omega (arith, l, z)) in
      let ne : q ≢ pt = λ z. absurd (omega (arith, l, last, x.levels q old, ap level z)) in
      let same = set_leaf-other pt va pa flags q j t ne in
      let (there, leads) = x.kept q j l e in (ap is_present same ∙ there, ap page_of same ∙ leads);
  leaves = λ q j l k.
      let miss : ((q == pt) && (j == index 12 va)) ≡ false = ground arith in
      set_leaf-entries pt va pa flags q j t
      ∙ put_entry_other pt (index 12 va) (bit_or (page_of pa) flags) q j t miss
      ∙ x.leaves q j l refl;
}

page_twice : (a : ℕ) → page_of (page_of a) ≡ page_of a
page_twice a = omega arith

upper_flags-odd : (flags : ℕ) → (upper_flags flags < 4096) × (upper_flags flags % 2 ≡ 1)
upper_flags-odd flags = elim (Bool-cases (is_user flags)) [
  | inl e ↦ rw e (omega arith, refl)
  | inr e ↦ rw e (omega arith, refl)
]

module _ (level0 : ℕ → ℕ) (t0 : Tables) (upper pml4 va pa flags : ℕ) (small : upper < 4096)
    (odd : upper % 2 ≡ 1) (f : flags < 4096) where
  -- What map_page does after each of its levels.
  abbrev after_pd : Option ℕ × Tables → Bool × Tables
  after_pd r = elim r.0 [ none ↦ (false, r.1) | some pt ↦ (true, set_leaf pt va pa flags r.1) ]

  abbrev after_pdpt : Option ℕ × Tables → Bool × Tables
  after_pdpt r = elim r.0 [
    | none ↦ (false, r.1)
    | some pd ↦ after_pd (descend upper pd (index 21 va) r.1)
  ]

  abbrev after_pml4 : Option ℕ × Tables → Bool × Tables
  after_pml4 r = elim r.0 [
    | none ↦ (false, r.1)
    | some pdpt ↦ after_pdpt (descend upper pdpt (index 30 va) r.1)
  ]

  -- The way to the last table but one.
  record Way (level : ℕ → ℕ) (pdpt pd : ℕ) (t : Tables) : Type 0 where
    whole : IsHierarchy level t
    from_old : Extends (λ _. false) level0 t0 level t
    at4 : level pml4 ≡ 4
    at3 : level pdpt ≡ 3
    at2 : level pd ≡ 2
    goes4 : page_of (t.entries pml4 (index 39 va)) ≡ pdpt
    goes3 : page_of (t.entries pdpt (index 30 va)) ≡ pd

  after_pd-Mapped :
      (level : ℕ → ℕ) (pdpt pd : ℕ) (t : Tables) (r : Option ℕ × Tables)
      → Way level pdpt pd t
      → Descends level pd (index 21 va) 0 t r
      → Mapped level0 t0 pml4 va pa (after_pd r)
  after_pd-Mapped level pdpt pd t _ w (refused t' g same h) =
      no_page level t t' h (Extends-same (λ _. false) level0 t0 level t t' same w.from_old) g
  after_pd-Mapped level pdpt pd t _ w (found pt t' level' d) =
      let t4 : Tables = set_leaf pt va pa flags t' in
      let live4 : level pml4 ≢ 0 = live level pml4 3 w.at4 in
      let live3 : level pdpt ≢ 0 = live level pdpt 2 w.at3 in
      let live2 : level pd ≢ 0 = live level pd 1 w.at2 in
      let at4 : level' pml4 ≡ 4 = d.keeps pml4 live4 ∙ w.at4 in
      let at3 : level' pdpt ≡ 3 = d.keeps pdpt live3 ∙ w.at3 in
      let at2 : level' pd ≡ 2 = d.keeps pd live2 ∙ w.at2 in
      let kept4 : t4.entries pml4 (index 39 va) ≡ t.entries pml4 (index 39 va) =
        set_leaf-other pt va pa flags pml4 (index 39 va) t'
          (apart level' pml4 pt 4 1 at4 d.child (λ z. cc))
        ∙ untouched level level' pd (index 21 va) 0 pt pml4 (index 39 va) t t' d live4
            (apart level pml4 pd 4 2 w.at4 w.at2 (λ z. cc)) in
      let kept3 : t4.entries pdpt (index 30 va) ≡ t.entries pdpt (index 30 va) =
        set_leaf-other pt va pa flags pdpt (index 30 va) t'
          (apart level' pdpt pt 3 1 at3 d.child (λ z. cc))
        ∙ untouched level level' pd (index 21 va) 0 pt pdpt (index 30 va) t t' d live3
            (apart level pdpt pd 3 2 w.at3 w.at2 (λ z. cc)) in
      let kept2 : t4.entries pd (index 21 va) ≡ t'.entries pd (index 21 va) =
        set_leaf-other pt va pa flags pd (index 21 va) t'
          (apart level' pd pt 2 1 at2 d.child (λ z. cc)) in
      let value : t4.entries pt (index 12 va) ≡ bit_or (page_of pa) flags =
        set_leaf-entries pt va pa flags pt (index 12 va) t'
        ∙ put_entry_here pt (index 12 va) (bit_or (page_of pa) flags) pt (index 12 va) t'
            (ground arith) in
      let ext : Extends (λ j. j == index 12 va) level0 t0 level' t4 =
        Extends-set_leaf level0 t0 level' pt va pa flags t' d.child (
          Extends-Descended (λ _. false) level0 t0 level pd (index 21 va) 0 t pt level' t' w.at2
            w.from_old d) in
      mapped level' t4 (set_leaf-IsHierarchy level' pt va pa flags t' d.whole d.child) ext (
        translate pml4 va pdpt pd pt t4 (ap page_of kept4 ∙ w.goes4) (ap page_of kept3 ∙ w.goes3)
          (ap page_of kept2 ∙ d.goes) (not_null level' pdpt 2 t' d.whole at3)
          (not_null level' pd 1 t' d.whole at2) (not_null level' pt 0 t' d.whole d.child)
        ∙ ap page_of value
        ∙ page_of-bit_or (page_of pa) flags f
        ∙ page_twice pa)

  after_pdpt-Mapped :
      (level : ℕ → ℕ) (pdpt : ℕ) (t : Tables) (r : Option ℕ × Tables)
      → IsHierarchy level t
      → Extends (λ _. false) level0 t0 level t
      → level pml4 ≡ 4
      → level pdpt ≡ 3
      → page_of (t.entries pml4 (index 39 va)) ≡ pdpt
      → Descends level pdpt (index 30 va) 1 t r
      → Mapped level0 t0 pml4 va pa (after_pdpt r)
  after_pdpt-Mapped level pdpt t _ h x a b g (refused t' r same h') =
      no_page level t t' h' (Extends-same (λ _. false) level0 t0 level t t' same x) r
  after_pdpt-Mapped level pdpt t _ h x a b g (found pd t' level' d) =
      let live4 : level pml4 ≢ 0 = live level pml4 3 a in
      let kept4 : t'.entries pml4 (index 39 va) ≡ t.entries pml4 (index 39 va) =
        untouched level level' pdpt (index 30 va) 1 pd pml4 (index 39 va) t t' d live4
          (apart level pml4 pdpt 4 3 a b (λ z. cc)) in
      after_pd-Mapped level' pdpt pd t' (descend upper pd (index 21 va) t')
        record {
          whole = d.whole;
          from_old =
              Extends-Descended (λ _. false) level0 t0 level pdpt (index 30 va) 1 t pd level' t' b x
                d;
          at4 = d.keeps pml4 live4 ∙ a;
          at3 = d.keeps pdpt (live level pdpt 2 b) ∙ b;
          at2 = d.child;
          goes4 = ap page_of kept4 ∙ g;
          goes3 = d.goes;
        }
        (descend-Descends level' upper pd (index 21 va) 0 t' d.whole d.child small odd)

  after_pml4-Mapped :
      (level : ℕ → ℕ) (t : Tables) (r : Option ℕ × Tables)
      → Extends (λ _. false) level0 t0 level t
      → level pml4 ≡ 4
      → Descends level pml4 (index 39 va) 2 t r
      → Mapped level0 t0 pml4 va pa (after_pml4 r)
  after_pml4-Mapped level t _ x a (refused t' r same h') =
      no_page level t t' h' (Extends-same (λ _. false) level0 t0 level t t' same x) r
  after_pml4-Mapped level t _ x a (found pdpt t' level' d) =
      after_pdpt-Mapped level' pdpt t' (descend upper pdpt (index 30 va) t') d.whole
        (Extends-Descended (λ _. false) level0 t0 level pml4 (index 39 va) 2 t pdpt level' t' a x d)
        (d.keeps pml4 (live level pml4 3 a) ∙ a) d.child d.goes
        (descend-Descends level' upper pdpt (index 30 va) 1 t' d.whole d.child small odd)

-- map_page over a hierarchy of tables, with flags below the bits of an address, leaves a hierarchy in
-- which the old tables keep their levels, above the last level what their present entries lead to,
-- and at the last level all entries but those at the index of the address, and these too where it
-- fails. Where it succeeds, virt_to_phys of the address gives the physical page; it fails only after
-- alloc_page refused a page for a table.
pub map_page-Mapped :
    (level : ℕ → ℕ) (pml4 va pa flags : ℕ) (t : Tables)
    → IsHierarchy level t
    → level pml4 ≡ 4
    → flags < 4096
    → Mapped level t pml4 va pa (map_page pml4 va pa flags t)
unfolding map_page
map_page-Mapped level pml4 va pa flags t h a f =
    let upper : ℕ = upper_flags flags in
    let (small, odd) = upper_flags-odd flags in
    after_pml4-Mapped level t upper pml4 va pa flags small odd f level t
      (descend upper pml4 (index 39 va) t) (Extends-refl (λ _. false) level t) a
      (descend-Descends level upper pml4 (index 39 va) 2 t h a small odd)
