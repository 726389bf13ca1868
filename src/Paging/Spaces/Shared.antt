-- ===== src/Paging/Spaces/Shared.antt =====
-- The translation that create_address_space of src/mm/paging.cpp gives to a new space.
use los_tac_os.Base.{
  ℕ, zero, suc, ◌+◌, ◌≤◌, ◌<◌, ◌≡◌, ◌≢◌, ◌⊎◌, refl, sym, ap, ◌∙◌, true, false, ◌&&◌, ◌==◌,
  if◌then◌else◌, arith, inl, inr, Bool-cases, ==_ne,
}
use los_tac_os.Paging.{Tables, index, is_present, page_of, put_entry, virt_to_phys}
use los_tac_os.Paging.Levels.{IsHierarchy, put_entry_other, put_entry_here}
use los_tac_os.Paging.Spaces.{copy_entries}

-- Entries of a table are copied, and those of other tables are left.
pub copy_entries_other :
    (left i src dst q j : ℕ) (t : Tables)
    → q ≢ dst
    → (copy_entries left i src dst t).entries q j ≡ t.entries q j
unfolding copy_entries
copy_entries_other zero i src dst q j t ne = refl
copy_entries_other (suc left) i src dst q j t ne =
    let t' = put_entry dst i (t.entries src i) t in
    let apart : ((q == dst) && (j == i)) ≡ false = rw (==_ne q dst ne) refl in
    copy_entries_other left (i + 1) src dst q j t' ne
    ∙ put_entry_other dst i (t.entries src i) q j t apart

copy_entries_below :
    (left i src dst j : ℕ) (t : Tables)
    → j < i
    → (copy_entries left i src dst t).entries dst j ≡ t.entries dst j
unfolding copy_entries
copy_entries_below zero i src dst j t lt = refl
copy_entries_below (suc left) i src dst j t lt =
    let t' = put_entry dst i (t.entries src i) t in
    let other : (j == i) ≡ false = ground arith in
    let apart : ((dst == dst) && (j == i)) ≡ false = ground (arith, other) in
    copy_entries_below left (i + 1) src dst j t' (omega arith)
    ∙ put_entry_other dst i (t.entries src i) dst j t apart

pub copy_entries_copied :
    (left i src dst j : ℕ) (t : Tables)
    → src ≢ dst
    → i ≤ j
    → j < i + left
    → (copy_entries left i src dst t).entries dst j ≡ t.entries src j
unfolding copy_entries
copy_entries_copied zero i src dst j t ne lo hi = absurd (omega arith)
copy_entries_copied (suc left) i src dst j t ne lo hi =
    let t' = put_entry dst i (t.entries src i) t in
    elim (Bool-cases (j == i)) [
      | inl here ↦
          let at : j ≡ i = ground arith in
          copy_entries_below left (i + 1) src dst j t' (omega (arith, at))
          ∙ put_entry_here dst i (t.entries src i) dst j t (ground (arith, here))
          ∙ ap (t.entries src) (sym at)
      | inr later ↦
          let apart : ((src == dst) && (j == i)) ≡ false = rw (==_ne src dst ne) refl in
          copy_entries_copied left (i + 1) src dst j t' ne (ground arith) (omega arith)
          ∙ put_entry_other dst i (t.entries src i) src j t apart
    ]

pub copy_entries_pages :
    (left i src dst : ℕ) (t : Tables) → (copy_entries left i src dst t).pages ≡ t.pages
unfolding copy_entries
copy_entries_pages zero i src dst t = refl
copy_entries_pages (suc left) i src dst t =
    copy_entries_pages left (i + 1) src dst (put_entry dst i (t.entries src i) t)

-- The part of a translation below the third level.
abbrev below : (pd va : ℕ) → (ℕ → ℕ → ℕ) → ℕ
below pd va entries =
    let pt = page_of (entries pd (index 21 va)) in
    if pd == 0 then 0 else if pt == 0 then 0 else page_of (entries pt (index 12 va))

virt_to_phys-below :
    (pml4 va : ℕ) (t : Tables)
    → virt_to_phys pml4 va t ≡ (
        if page_of (t.entries pml4 (index 39 va)) == 0
        then 0
        else below
            (page_of (t.entries (page_of (t.entries pml4 (index 39 va))) (index 30 va)))
            va
            t.entries)
unfolding virt_to_phys
virt_to_phys-below pml4 va t =
    let pdpt = page_of (t.entries pml4 (index 39 va)) in
    let pd = page_of (t.entries pdpt (index 30 va)) in
    let pt = page_of (t.entries pd (index 21 va)) in
    elim (Bool-cases (pdpt == 0)) [
      | inl a ↦ rw a refl
      | inr a ↦ rw a (elim (Bool-cases (pd == 0)) [
        | inl b ↦ rw b refl
        | inr b ↦ rw b (elim (Bool-cases (pt == 0)) [ inl c ↦ rw c refl | inr c ↦ rw c refl ])
      ])
    ]

-- An entry that is not present holds no address.
abbrev pub IsClean : (ℕ → ℕ) → Tables → Type 0
IsClean level t =
    (p i : ℕ) → level p ≢ 0 → is_present (t.entries p i) ≡ false → page_of (t.entries p i) ≡ 0

module _ (level : ℕ → ℕ) (t : Tables) (h : IsHierarchy level t) (clean : IsClean level t) where
  -- What an entry leads to: nothing, or a table of the next level.
  pub child :
      (p i k : ℕ)
      → level p ≡ suc (suc k)
      → (page_of (t.entries p i) ≡ 0) ⊎ (level (page_of (t.entries p i)) ≡ suc k)
  child p i k e = elim (Bool-cases (is_present (t.entries p i))) [
    | inl present ↦ inr (h.leads p i k e present)
    | inr absent ↦ inl (clean p i (λ z. absurd (omega (arith, e, z))) absent)
  ]

  module _ (entries : ℕ → ℕ → ℕ)
      (same : (q j : ℕ) → level q ≢ 0 → entries q j ≡ t.entries q j) where
    below_last :
        (pt va : ℕ)
        → (pt ≡ 0) ⊎ (level pt ≡ 1)
        → (if pt == 0 then 0 else page_of (entries pt (index 12 va)))
          ≡ (if pt == 0 then 0 else page_of (t.entries pt (index 12 va)))
    below_last pt va (inl z) = let null : (pt == 0) ≡ true = ground (arith, z) in rw null refl
    below_last pt va (inr one) =
        ap (λ e. if pt == 0 then 0 else page_of e)
          (same pt (index 12 va) (λ z. absurd (omega (arith, one, z))))

    below-same :
        (pd va : ℕ) → (pd ≡ 0) ⊎ (level pd ≡ 2) → below pd va entries ≡ below pd va t.entries
    below-same pd va (inl z) = let null : (pd == 0) ≡ true = ground (arith, z) in rw null refl
    below-same pd va (inr two) =
        let e = same pd (index 21 va) (λ z. absurd (omega (arith, two, z))) in
        ap
          (λ v.
            if pd == 0
            then 0
            else if page_of v == 0
            then 0
            else page_of (entries (page_of v) (index 12 va)))
          e
        ∙ ap (λ v. if pd == 0 then 0 else v)
            (below_last (page_of (t.entries pd (index 21 va))) va (child pd (index 21 va) 0 two))

-- A new space: one table of the lowest 512 GiB with the entries of the kernel's, the kernel's upper
-- half, and every table that was there as it was.
pub record Laid (level : ℕ → ℕ) (kernel pml4 pdpt : ℕ) (t t' : Tables) : Type 0 where
  pub nonzero : pdpt ≢ 0
  pub low : page_of (t'.entries pml4 0) ≡ pdpt
  pub high : (j : ℕ) → 256 ≤ j → j < 512 → t'.entries pml4 j ≡ t.entries kernel j
  pub no_tables :
      (j : ℕ) → j < 512 → page_of (t.entries kernel 0) ≡ 0 → page_of (t'.entries pdpt j) ≡ 0
  pub tables :
      (j : ℕ)
      → j < 512
      → page_of (t.entries kernel 0) ≢ 0
      → t'.entries pdpt j ≡ t.entries (page_of (t.entries kernel 0)) j
  pub same : (q j : ℕ) → level q ≢ 0 → t'.entries q j ≡ t.entries q j

module _ (level : ℕ → ℕ) (kernel pml4 pdpt : ℕ) (t t' : Tables) (h : IsHierarchy level t)
    (clean : IsClean level t) (root : level kernel ≡ 4) (l : Laid level kernel pml4 pdpt t t') where
  abbrev lower : (table va : ℕ) → (ℕ → ℕ → ℕ) → ℕ
  lower table va entries =
      if table == 0 then 0 else below (page_of (entries table (index 30 va))) va entries

  same_below :
      (pd va : ℕ) → (pd ≡ 0) ⊎ (level pd ≡ 2) → below pd va t'.entries ≡ below pd va t.entries
  same_below = below-same level t h clean t'.entries l.same

  laid_low : (va : ℕ) → lower pdpt va t'.entries ≡ lower (page_of (t.entries kernel 0)) va t.entries
  laid_low va =
      let kp = page_of (t.entries kernel 0) in
      let there : (pdpt == 0) ≡ false = ==_ne pdpt 0 l.nonzero in
      let small : index 30 va < 512 = omega arith in
      rw there (elim (Bool-cases (kp == 0)) [
        | inl none_there ↦
            let z : kp ≡ 0 = ground arith in
            let null : (page_of (t'.entries pdpt (index 30 va)) == 0) ≡ true =
              ground (arith, l.no_tables (index 30 va) small z) in
            rw (none_there, null) refl
        | inr some_there ↦
            let nz : kp ≢ 0 = λ z. ground arith in
            let three : (kp ≡ 0) ⊎ (level kp ≡ 3) = child level t h clean kernel 0 2 root in
            let leads : level kp ≡ 3 = ground (arith, three) in
            rw some_there (
              ap (λ e. below (page_of e) va t'.entries) (l.tables (index 30 va) small nz)
              ∙ same_below (page_of (t.entries kp (index 30 va))) va
                  (child level t h clean kp (index 30 va) 1 leads))
      ])

  laid_table :
      (table va : ℕ)
      → (table ≡ 0) ⊎ (level table ≡ 3)
      → lower table va t'.entries ≡ lower table va t.entries
  laid_table table va (inl z) = let null : (table == 0) ≡ true = ground (arith, z) in rw null refl
  laid_table table va (inr three) =
      let e = l.same table (index 30 va) (λ z. absurd (omega (arith, three, z))) in
      ap (λ v. if table == 0 then 0 else below (page_of v) va t'.entries) e
      ∙ ap (λ v. if table == 0 then 0 else v)
          (same_below (page_of (t.entries table (index 30 va))) va
            (child level t h clean table (index 30 va) 1 three))

  -- The new space translates the lowest 512 GiB and the upper half like the kernel.
  pub laid_translates :
      (va : ℕ)
      → (index 39 va ≡ 0) ⊎ (256 ≤ index 39 va)
      → virt_to_phys pml4 va t' ≡ virt_to_phys kernel va t
  laid_translates va (inl z) =
      let top : page_of (t'.entries pml4 (index 39 va)) ≡ pdpt =
        ap (λ i. page_of (t'.entries pml4 i)) z ∙ l.low in
      virt_to_phys-below pml4 va t'
      ∙ ap (λ p. lower p va t'.entries) top
      ∙ laid_low va
      ∙ ap (λ i. lower (page_of (t.entries kernel i)) va t.entries) (sym z)
      ∙ sym (virt_to_phys-below kernel va t)
  laid_translates va (inr up) =
      let top = l.high (index 39 va) up (omega arith) in
      virt_to_phys-below pml4 va t'
      ∙ ap (λ e. lower (page_of e) va t'.entries) top
      ∙ laid_table (page_of (t.entries kernel (index 39 va))) va
          (child level t h clean kernel (index 39 va) 2 root)
      ∙ sym (virt_to_phys-below kernel va t)
