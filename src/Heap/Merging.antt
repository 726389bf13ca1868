-- ===== src/Heap/Merging.antt =====
-- The joining of two free blocks by kfree, src/mm/heap.cpp.
use los_tac_os.Base.{ℕ, ◌+◌, ◌^◌, ◌<◌, ◌≡◌, ◌≢◌, refl, ap, ◌∙◌, List, ◌∷◌, ◌++◌, arith}
use los_tac_os.Heap.{Heap, header, write_footer, join}
use los_tac_os.Heap.Tiling.{Tiles, Tiles-replace, Tiles-same}

-- The memory of the blocks after `n` has joined `b`.
record Joined (b n : ℕ) (h h' : Heap) : Type 0 where
  pub here : h'.blocks b ≡ record {
    size = (h.blocks b).size + header + (h.blocks n).size;
    free = (h.blocks b).free;
    next = (h.blocks n).next;
  }
  pub others : (x : ℕ) → x ≢ b → h'.blocks x ≡ h.blocks x

join-Joined :
    (b n : ℕ) (h : Heap)
    → (h.blocks b).size + header + (h.blocks n).size < 2 ^ 64
    → Joined b n h (join b n h)
unfolding join write_footer
join-Joined b n h f = record { here = ground arith; others = λ x p. ground (arith, p) }

Tiles-Joined :
    (b n : ℕ) (h h' : Heap) (post : List ℕ) (e : ℕ)
    → Joined b n h h'
    → Tiles h.blocks b (b ∷ (n ∷ post)) e
    → Tiles h'.blocks b (b ∷ post) e
Tiles-Joined b n h h' post e k t =
    let next_one : b + header + (h.blocks b).size ≡ n = t.1.1.0 in
    let same_end : b + header + ((h.blocks b).size + header + (h.blocks n).size)
        ≡ n + header + (h.blocks n).size =
      omega arith in
    (
      refl,
      (
        ap (λ v. v.next) k.here ∙ t.1.1.1.0,
        simp (k.here, same_end)
            (Tiles-same h.blocks h'.blocks (n + header + (h.blocks n).size) post e
              (λ x l. k.others x (λ q. omega (arith, q))) t.1.1.1.1),
      ),
    )

-- When kfree joins a block to the one before it, the blocks tile the heap as before, without the
-- joined one.
pub join-Tiles :
    (a b n e : ℕ) (pre post : List ℕ) (h : Heap)
    → (h.blocks b).size + header + (h.blocks n).size < 2 ^ 64
    → Tiles h.blocks a (pre ++ b ∷ (n ∷ post)) e
    → Tiles (join b n h).blocks a (pre ++ b ∷ post) e
join-Tiles a b n e pre post h f t =
    let k = join-Joined b n h f in
    Tiles-replace h.blocks (join b n h).blocks a pre b (n ∷ post) post e
      (λ x l. k.others x (λ q. omega (arith, q))) (Tiles-Joined b n h (join b n h) post e k) t
