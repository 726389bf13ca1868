-- ===== src/Paging/Levels/Extends.antt =====
-- How the tables that map_page of src/mm/paging.cpp leaves go on from those that it found.
use los_tac_os.Base.{
  ℕ, suc, Bool, false, ==_ne, ◌<◌, ◌≡◌, ◌≢◌, refl, sym, ap, ◌∙◌, true, ◌&&◌, ◌==◌, inl, inr,
  Bool-cases, arith,
}
use los_tac_os.Paging.{Tables, is_present, page_of}
use los_tac_os.Paging.Levels.Descend.{Descended}

-- What becomes of tables `t0` while pages are mapped: each keeps its level, above the last level an
-- entry that was present still leads to the same table, and at the last level the entries are the
-- same but for those at the indices that `skip` gives.
pub record Extends (skip : ℕ → Bool) (level0 : ℕ → ℕ) (t0 : Tables) (level : ℕ → ℕ) (t : Tables)
    : Type 0 where
  pub levels : (q : ℕ) → level0 q ≢ 0 → level q ≡ level0 q
  pub kept :
      (q j : ℕ)
      → 1 < level0 q
      → is_present (t0.entries q j) ≡ true
      → (is_present (t.entries q j) ≡ true) × (page_of (t.entries q j) ≡ page_of (t0.entries q j))
  pub leaves : (q j : ℕ) → level0 q ≡ 1 → skip j ≡ false → t.entries q j ≡ t0.entries q j

pub Extends-refl : (skip : ℕ → Bool) (level : ℕ → ℕ) (t : Tables) → Extends skip level t level t
Extends-refl skip level t = record {
  levels = λ q l. refl;
  kept = λ q j l e. (e, refl);
  leaves = λ q j l k. refl;
}

pub Extends-same :
    (skip : ℕ → Bool) (level0 : ℕ → ℕ) (t0 : Tables) (level : ℕ → ℕ) (t t' : Tables)
    → t'.entries ≡ t.entries
    → Extends skip level0 t0 level t
    → Extends skip level0 t0 level t'
Extends-same skip level0 t0 level t t' e x = record {
  levels = x.levels;
  kept = λ q j l p.
      let (there, leads) = x.kept q j l p in
      (ap (λ m. is_present (m q j)) e ∙ there, ap (λ m. page_of (m q j)) e ∙ leads);
  leaves = λ q j l k. ap (λ m. m q j) e ∙ x.leaves q j l k;
}

Descended-kept :
    (level : ℕ → ℕ) (table i k : ℕ) (t : Tables) (p : ℕ) (level' : ℕ → ℕ) (t' : Tables)
    → Descended level table i k t p level' t'
    → (q j : ℕ) → level q ≢ 0
    → is_present (t.entries q j) ≡ true
    → (is_present (t'.entries q j) ≡ true) × (page_of (t'.entries q j) ≡ page_of (t.entries q j))
Descended-kept level table i k t p level' t' d q j l e =
    elim (Bool-cases ((q == table) && (j == i))) [
      | inl at ↦
          let at_table : q ≡ table = ground arith in
          let at_entry : j ≡ i = ground arith in
          let there : is_present (t.entries table i) ≡ true = rw (at_table, at_entry) at e in
          rw (at_table, at_entry) (d.present, d.stays there)
      | inr other ↦
          let same : t'.entries q j ≡ t.entries q j = d.others q j l other in
          (ap is_present same ∙ e, ap page_of same)
    ]

pub Extends-Descended :
    (skip : ℕ → Bool) (level0 : ℕ → ℕ) (t0 : Tables) (level : ℕ → ℕ) (table i k : ℕ) (t : Tables)
    (p : ℕ) (level' : ℕ → ℕ) (t' : Tables)
    → level table ≡ suc (suc k)
    → Extends skip level0 t0 level t
    → Descended level table i k t p level' t'
    → Extends skip level0 t0 level' t'
Extends-Descended skip level0 t0 level table i k t p level' t' up x d =
    let live_of : (q : ℕ) → level0 q ≢ 0 → level q ≢ 0 = λ q l z. l (sym (x.levels q l) ∙ z) in
    record {
      levels = λ q l. d.keeps q (live_of q l) ∙ x.levels q l;
      kept = λ q j l e.
          let (there, leads) = x.kept q j l e in
          let old : level0 q ≢ 0 = λ z. absurd (omega (arith, l, z)) in
          let (there', leads') =
            Descended-kept level table i k t p level' t' d q j (live_of q old) there in
          (there', leads' ∙ leads);
      leaves = λ q j l k'.
          let old : level0 q ≢ 0 = λ z. absurd (omega (arith, l, z)) in
          let ne : q ≢ table = λ z. absurd (omega (arith, l, up, x.levels q old, ap level z)) in
          let miss : ((q == table) && (j == i)) ≡ false = rw (==_ne q table ne) refl in
          d.others q j (live_of q old) miss ∙ x.leaves q j l k';
    }
