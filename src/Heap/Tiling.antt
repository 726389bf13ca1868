-- ===== src/Heap/Tiling.antt =====
-- The blocks of src/mm/heap.cpp tile the heap.
use los_tac_os.Base.{
  ℕ, ◌+◌, ◌-◌, ◌^◌, ◌≤◌, ◌<◌, ◌≡◌, ◌≢◌, refl, ap, ◌∙◌, true, false, Option, none, some, List, [],
  ◌∷◌, ◌++◌, leb, if◌then◌else◌, arith, inl, inr, Bool-cases,
}
use los_tac_os.Heap.{Block, Heap, header, write_footer, split, take_block}

abbrev pub first_of : List ℕ → Option ℕ
first_of [] = none
first_of (x ∷ xs) = some x

-- From the address `a` on the blocks `xs` lie one behind the other up to `e`, each with a pointer to
-- the next.
abbrev pub Tiles : (ℕ → Block) → ℕ → List ℕ → ℕ → Type 0
Tiles b a [] e = a ≡ e
Tiles b a (x ∷ xs) e =
    (a ≡ x) × (((b x).next ≡ first_of xs) × Tiles b (x + header + (b x).size) xs e)

-- Blocks that change only below `a`.
pub Tiles-same :
    (b b' : ℕ → Block) (a : ℕ) (xs : List ℕ) (e : ℕ)
    → ((x : ℕ) → a ≤ x → b' x ≡ b x)
    → Tiles b a xs e
    → Tiles b' a xs e
Tiles-same b b' a [] e same t = t
Tiles-same b b' a (x ∷ xs) e same t =
    let here : b' x ≡ b x = same x (ground (arith, t.0)) in
    (
      t.0,
      (
        ap (λ v. v.next) here ∙ t.1.0,
        simp (here) (
            Tiles-same b b' (x + header + (b x).size) xs e (λ y l. same y (ground (arith, t.0)))
              t.1.1),
      ),
    )

Tiles-above :
    (b : ℕ → Block) (a : ℕ) (pre : List ℕ) (c : ℕ) (post : List ℕ) (e : ℕ)
    → Tiles b a (pre ++ c ∷ post) e
    → a ≤ c
Tiles-above b a [] c post e t = ground (arith, t.0)
Tiles-above b a (x ∷ pre) c post e t =
    ground (arith, t.0, Tiles-above b (x + header + (b x).size) pre c post e t.1.1)

first_of-append :
    (pre : List ℕ) (c : ℕ) (ys zs : List ℕ) → first_of (pre ++ c ∷ ys) ≡ first_of (pre ++ c ∷ zs)
first_of-append [] c ys zs = refl
first_of-append (x ∷ pre) c ys zs = refl

-- The block `c` is replaced by blocks that take the same room.
pub Tiles-replace :
    (b b' : ℕ → Block) (a : ℕ) (pre : List ℕ) (c : ℕ) (post ys : List ℕ) (e : ℕ)
    → ((x : ℕ) → x < c → b' x ≡ b x)
    → (Tiles b c (c ∷ post) e → Tiles b' c (c ∷ ys) e)
    → Tiles b a (pre ++ c ∷ post) e
    → Tiles b' a (pre ++ c ∷ ys) e
Tiles-replace b b' a [] c post ys e same f t = (t.0, (f (refl, t.1)).1)
Tiles-replace b b' a (x ∷ pre) c post ys e same f t =
    let above : x + header + (b x).size ≤ c =
      Tiles-above b (x + header + (b x).size) pre c post e t.1.1 in
    let here : b' x ≡ b x = same x (omega arith) in
    (
      t.0,
      (
        ap (λ v. v.next) here ∙ t.1.0 ∙ first_of-append pre c post ys,
        simp (here) (Tiles-replace b b' (x + header + (b x).size) pre c post ys e same f t.1.1),
      ),
    )

-- The memory of the blocks after kmalloc has taken `c`, cut or whole.
record Taken (c size : ℕ) (h h' : Heap) : Type 0 where
  pub here :
      h'.blocks c ≡ record { size = (h.blocks c).size; free = false; next = (h.blocks c).next }
  pub others : (x : ℕ) → x ≢ c → h'.blocks x ≡ h.blocks x

record Cut (c size n : ℕ) (h h' : Heap) : Type 0 where
  pub here : h'.blocks c ≡ record { size = size; free = false; next = some n }
  pub rest :
      h'.blocks n
      ≡ record { size = (h.blocks c).size - size - header; free = true; next = (h.blocks c).next }
  pub others : (x : ℕ) → x ≢ c → x ≢ n → h'.blocks x ≡ h.blocks x

take_block-Cut :
    (c size : ℕ) (h : Heap)
    → size + header + 16 < 2 ^ 64
    → leb (size + header + 16) (h.blocks c).size ≡ true
    → Cut c size (c + header + size) h (take_block c size h).1
unfolding take_block split write_footer
take_block-Cut c size h f g = record {
  here = ground arith;
  rest = ground arith;
  others = λ x p q. ground (arith, p, q);
}

take_block-Taken :
    (c size : ℕ) (h : Heap)
    → size + header + 16 < 2 ^ 64
    → leb (size + header + 16) (h.blocks c).size ≡ false
    → Taken c size h (take_block c size h).1
unfolding take_block
take_block-Taken c size h f g = record { here = ground arith; others = λ x p. ground (arith, p) }

-- The blocks behind `c` after kmalloc has taken `c` for `size` bytes.
abbrev pub cut_list : (c size : ℕ) → Heap → List ℕ → List ℕ
cut_list c size h post =
    if leb (size + header + 16) (h.blocks c).size then (c + header + size) ∷ post else post

Tiles-Cut :
    (c size : ℕ) (h h' : Heap) (post : List ℕ) (e : ℕ)
    → size + header + 16 ≤ (h.blocks c).size
    → Cut c size (c + header + size) h h'
    → Tiles h.blocks c (c ∷ post) e
    → Tiles h'.blocks c (c ∷ ((c + header + size) ∷ post)) e
Tiles-Cut c size h h' post e f k t =
    let n = c + header + size in
    let same_end : n + header + ((h.blocks c).size - size - header)
        ≡ c + header + (h.blocks c).size =
      omega arith in
    let past : Tiles h'.blocks (c + header + (h.blocks c).size) post e =
      Tiles-same h.blocks h'.blocks (c + header + (h.blocks c).size) post e
        (λ x l. k.others x (λ q. omega (arith, q)) (λ q. omega (arith, q))) t.1.1 in
    (
      refl,
      (
        ap (λ v. v.next) k.here,
        (simp (k.here) refl, (ap (λ v. v.next) k.rest ∙ t.1.0, simp (k.rest, same_end) past)),
      ),
    )

Tiles-Taken :
    (c size : ℕ) (h h' : Heap) (post : List ℕ) (e : ℕ)
    → Taken c size h h'
    → Tiles h.blocks c (c ∷ post) e
    → Tiles h'.blocks c (c ∷ post) e
Tiles-Taken c size h h' post e k t = (
  refl,
  (
    ap (λ v. v.next) k.here ∙ t.1.0,
    simp (k.here) (
        Tiles-same h.blocks h'.blocks (c + header + (h.blocks c).size) post e
          (λ x l. k.others x (λ q. omega (arith, q))) t.1.1),
  ),
)

-- kmalloc takes a block that fits: the blocks tile the heap as before, with one more behind the
-- taken block when at least a header and 16 bytes are left over; the taken block is in use and
-- has the requested size at least, and the address returned is that of its payload.
pub take_block-Tiles :
    (a c size e : ℕ) (pre post : List ℕ) (h : Heap)
    → size + header + 16 < 2 ^ 64
    → size ≤ (h.blocks c).size
    → Tiles h.blocks a (pre ++ c ∷ post) e
    → ((take_block c size h).0 ≡ c + header)
      × (Tiles (take_block c size h).1.blocks a (pre ++ c ∷ cut_list c size h post) e
          × ((((take_block c size h).1.blocks c).free ≡ false)
              × (size ≤ ((take_block c size h).1.blocks c).size)))
unfolding take_block
take_block-Tiles a c size e pre post h f fits t =
    elim (Bool-cases (leb (size + header + 16) (h.blocks c).size)) [
      | inl g ↦
          let k = take_block-Cut c size h f g in
          (
            refl,
            (
              rw g (
                  Tiles-replace h.blocks (take_block c size h).1.blocks a pre c post
                    ((c + header + size) ∷ post) e
                    (λ x l. k.others x (λ q. omega (arith, q)) (λ q. omega (arith, q)))
                    (Tiles-Cut c size h (take_block c size h).1 post e (ground arith) k) t),
              (ap (λ v. v.free) k.here, ground (arith, ap (λ v. v.size) k.here)),
            ),
          )
      | inr g ↦
          let k = take_block-Taken c size h f g in
          (
            refl,
            (
              rw g (
                  Tiles-replace h.blocks (take_block c size h).1.blocks a pre c post post e
                    (λ x l. k.others x (λ q. omega (arith, q)))
                    (Tiles-Taken c size h (take_block c size h).1 post e k) t),
              (ap (λ v. v.free) k.here, ground (arith, ap (λ v. v.size) k.here)),
            ),
          )
    ]
