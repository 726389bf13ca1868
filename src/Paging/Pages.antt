-- ===== src/Paging/Pages.antt =====
-- alloc_page and unmap_page of src/mm/paging.cpp.
use los_tac_os.Base.{
  ℕ, ◌%◌, ◌<◌, ◌≡◌, ◌≢◌, refl, Option, none, some, leb, ◌==◌, update, arith, inl, inr, Bool-cases,
}
use los_tac_os.Pmm.{alloc_page, free_page, page_size}
use los_tac_os.Pmm.Count.{Inv, free_page-Inv}
use los_tac_os.Pmm.Alloc.{alloc_page_page, alloc_page-Inv}
use los_tac_os.Paging.{Tables, identity_map_limit, get_page}

-- What alloc_page leaves: the page allocator's invariant, and an aligned page of zeros below the
-- limit.
pub data Got (t : Tables) : Option ℕ × Tables → Type 0 where
  refused : (t' : Tables) → Inv t'.pages → t'.entries ≡ t.entries → Got t (none, t')
  given :
      (p : ℕ) (t' : Tables)
      → Inv t'.pages
      → p ≢ 0
      → p % page_size ≡ 0
      → p < identity_map_limit
      → t'.entries ≡ update t.entries p (λ _. 0)
      → Got t (some p, t')

-- alloc_page of the paging code gives an aligned page below the limit, not 0, that is all zeros, or
-- refuses and leaves the tables as they were; the page allocator stays consistent.
pub get_page-Got : (t : Tables) → Inv t.pages → Got t (get_page t)
unfolding get_page
get_page-Got t v =
    let (i, small, e) = alloc_page_page t.pages v.cursor in
    let r = alloc_page t.pages in
    let w : Inv r.1 = alloc_page-Inv t.pages v in
    elim (Bool-cases (r.0 == 0)) [
      | inl z ↦ rw z (refused (record t { pages = r.1 }) w refl)
      | inr nz ↦ rw nz (elim (Bool-cases (leb identity_map_limit r.0)) [
        | inl big ↦ rw big (
            refused (record t { pages = free_page r.0 r.1 })
              (free_page-Inv r.0 r.1 (ground (arith, e)) w) refl)
        | inr small' ↦ rw small' (
            given r.0 (record t { pages = r.1; entries = update t.entries r.0 (λ _. 0) }) w
              (λ z. ground arith) (ground (arith, e)) (ground arith) refl)
      ])
    ]
