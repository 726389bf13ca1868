-- ===== src/Paging/Levels/Descend.antt =====
-- One level of map_page, src/mm/paging.cpp.
use los_tac_os.Base.{
  ℕ, suc, ◌%◌, ◌<◌, ◌≡◌, ◌≢◌, refl, sym, ap, ◌∙◌, true, false, ◌&&◌, Option, none, some, ◌==◌,
  update, arith, inl, inr, Bool-cases,
}
use Prim.Native.Nat.{bit_or}
use los_tac_os.Paging.{Tables, get_page, is_present, page_of, put_entry, descend}
use los_tac_os.Paging.Levels.{
  IsHierarchy, page_of-bit_or, put_entry_other, put_entry_here, put_entry-IsHierarchy, with_table,
  fresh_level, other_level, with_table-IsHierarchy, Given, nothing, page, get_page-Given,
  is_present_or,
}

-- What one level of map_page leaves: the entry leads to the table `p`, and the entries of all tables
-- but that one are as before.
pub record Descended (level : ℕ → ℕ) (table i k : ℕ) (t : Tables) (p : ℕ) (level' : ℕ → ℕ)
    (t' : Tables) : Type 0 where
  pub whole : IsHierarchy level' t'
  pub child : level' p ≡ suc k
  pub goes : page_of (t'.entries table i) ≡ p
  pub present : is_present (t'.entries table i) ≡ true
  pub stays :
      is_present (t.entries table i) ≡ true
      → page_of (t'.entries table i) ≡ page_of (t.entries table i)
  pub keeps : (q : ℕ) → level q ≢ 0 → level' q ≡ level q
  pub others :
      (q j : ℕ) → level q ≢ 0 → ((q == table) && (j == i)) ≡ false → t'.entries q j ≡ t.entries q j

old_level :
    (level : ℕ → ℕ) (p k q : ℕ) → level p ≡ 0 → level q ≢ 0 → with_table p k level q ≡ level q
old_level level p k q z l = let apart : q ≢ p = λ e. l (ap level e ∙ z) in ground (arith, apart)

cleared_other : (p q j : ℕ) (m : ℕ → ℕ → ℕ) → q ≢ p → update m p (λ _. 0) q j ≡ m q j
cleared_other p q j m ne = ground (arith, ne)

pub data Descends (level : ℕ → ℕ) (table i k : ℕ) (t : Tables) : Option ℕ × Tables → Type 0 where
  refused :
      (t' : Tables)
      → get_page t ≡ (none, t')
      → t'.entries ≡ t.entries
      → IsHierarchy level t'
      → Descends level table i k t (none, t')
  found :
      (p : ℕ) (t' : Tables) (level' : ℕ → ℕ)
      → Descended level table i k t p level' t'
      → Descends level table i k t (some p, t')

-- The entry was there.
descend-present :
    (level : ℕ → ℕ) (upper table i k : ℕ) (t : Tables)
    → IsHierarchy level t
    → level table ≡ suc (suc k)
    → upper < 4096
    → upper % 2 ≡ 1
    → is_present (t.entries table i) ≡ true
    → Descended level table i k t
        (page_of (t.entries table i))
        level
        (put_entry table i (bit_or (t.entries table i) upper) t)
descend-present level upper table i k t h a small odd e =
    let v = t.entries table i in
    let same : page_of (bit_or v upper) ≡ page_of v = page_of-bit_or v upper small in
    let child : level (page_of v) ≡ suc k = h.leads table i k a e in
    record {
      whole = put_entry-IsHierarchy level table i (bit_or v upper) k t h a (ap level same ∙ child);
      child = child;
      goes = ap page_of (put_entry_here table i (bit_or v upper) table i t (ground arith)) ∙ same;
      present =
          ap is_present (put_entry_here table i (bit_or v upper) table i t (ground arith))
          ∙ is_present_or v upper odd;
      stays =
          λ _. ap page_of (put_entry_here table i (bit_or v upper) table i t (ground arith)) ∙ same;
      keeps = λ q l. refl;
      others = λ q j l miss. put_entry_other table i (bit_or v upper) q j t miss;
    }

-- The entry is made, with a new table.
descend-absent :
    (level : ℕ → ℕ) (upper table i k : ℕ) (t : Tables) (r : Option ℕ × Tables)
    → IsHierarchy level t
    → level table ≡ suc (suc k)
    → upper < 4096
    → upper % 2 ≡ 1
    → is_present (t.entries table i) ≡ false
    → get_page t ≡ r
    → Given t r
    → Descends level table i k t (elim r.0 [
      | none ↦ (none, r.1)
      | some p ↦ (some p, put_entry table i (bit_or p upper) r.1)
    ])
descend-absent level upper table i k t _ h a small odd absent g (nothing t' w bits e) =
    refused t' g e record {
      pages = w;
      used = λ p l. bits p (h.used p l);
      nonzero = h.nonzero;
      leads = λ p j n l x.
          ap (λ m. level (page_of (m p j))) e
          ∙ h.leads p j n l (ap (λ m. is_present (m p j)) (sym e) ∙ x);
    }
descend-absent level upper table i k t _ h a small odd absent g
      (page p t' w ne aligned free bits e) =
    let level' : ℕ → ℕ = with_table p (suc k) level in
    let mid : IsHierarchy level' t' =
      with_table-IsHierarchy level p (suc k) t t' h w ne free bits e in
    let zero_level : level p ≡ 0 = fresh_level level t p h free in
    let v : ℕ = bit_or p upper in
    let same : page_of v ≡ p = page_of-bit_or p upper small ∙ omega arith in
    found p (put_entry table i v t') level' record {
      whole =
          put_entry-IsHierarchy level' table i v k t' mid
            (other_level level p (suc k) table (suc k) zero_level a)
            (ap level' same ∙ ground arith);
      child = ground arith;
      goes = ap page_of (put_entry_here table i v table i t' (ground arith)) ∙ same;
      present =
          ap is_present (put_entry_here table i v table i t' (ground arith))
          ∙ is_present_or p upper odd;
      stays = λ there. absurd (cc (absent, there));
      keeps = λ q l. old_level level p (suc k) q zero_level l;
      others = λ q j l miss.
          put_entry_other table i v q j t' miss
          ∙ ap (λ m. m q j) e
          ∙ cleared_other p q j t.entries (λ z. l (ap level z ∙ zero_level));
    }

-- A level of map_page goes to a table of the next level, through an entry that is present, unless a
-- page was needed and refused.
pub descend-Descends :
    (level : ℕ → ℕ) (upper table i k : ℕ) (t : Tables)
    → IsHierarchy level t
    → level table ≡ suc (suc k)
    → upper < 4096
    → upper % 2 ≡ 1
    → Descends level table i k t (descend upper table i t)
unfolding descend
descend-Descends level upper table i k t h a small odd =
    elim (Bool-cases (is_present (t.entries table i))) [
      | inl e ↦ rw e (
          found (page_of (t.entries table i))
            (put_entry table i (bit_or (t.entries table i) upper) t) level
            (descend-present level upper table i k t h a small odd e))
      | inr e ↦ rw e (
          descend-absent level upper table i k t (get_page t) h a small odd e refl
            (get_page-Given t h.pages))
    ]
