-- ===== src/Tarfs/Headers.antt =====
-- The headers that build_index of src/fs/tarfs.cpp looks at, and the members they stand for.
use los_tac_os.Base.{
  ℕ, zero, suc, ◌+◌, ◌<◌, ◌≡◌, ◌≢◌, ◌==◌, ==_ne, Bool-cases, inl, inr, refl, ap, ◌∙◌, sym, true,
  false, arith, List, [], ◌∷◌,
}
use los_tac_os.Tarfs.{TarEntry, text_at, octal_to_int, zeros_from, empty_block, entry_at}

-- The characters from `p` on, up to a byte 0 and at most `n` of them.
pub data IsText (m : ℕ → ℕ) : (n p : ℕ) → List ℕ → Type 0 where
  cut_off : (p : ℕ) → IsText m 0 p []
  ended : (n p : ℕ) → m p ≡ 0 → IsText m n p []
  letter :
      (n p c : ℕ) (cs : List ℕ)
      → m p ≡ c
      → c ≢ 0
      → IsText m n (p + 1) cs
      → IsText m (suc n) p (c ∷ cs)

IsText-text_at : (m : ℕ → ℕ) (n p : ℕ) (cs : List ℕ) → IsText m n p cs → text_at n p m ≡ cs
unfolding text_at
IsText-text_at m _ _ _ (cut_off p) = refl
IsText-text_at m _ _ _ (ended zero p e) = refl
IsText-text_at m _ _ _ (ended (suc n) p e) = rw e refl
IsText-text_at m _ _ _ (letter n p c cs e ne h) =
    let some_char : (m p == 0) ≡ false = ground (arith, e, ==_ne c 0 ne) in
    rw some_char
      (ap (λ x. x ∷ text_at n (p + 1) m) e ∙ ap (λ l. c ∷ l) (IsText-text_at m n (p + 1) cs h))

text_at-IsText : (m : ℕ → ℕ) (n p : ℕ) → IsText m n p (text_at n p m)
unfolding text_at
text_at-IsText m zero p = cut_off p
text_at-IsText m (suc n) p = elim (Bool-cases (m p == 0)) [
  | inl e ↦ rw e (ended (suc n) p (ground arith))
  | inr e ↦
      rw e (
        letter n p (m p) (text_at n (p + 1) m) refl (λ z. ground arith)
          (text_at-IsText m n (p + 1)))
]

-- The member whose header stands at `ptr`, by the layout of a header: the name is the text at its
-- start, of at most 255 characters, the size the octal number at 124 and the type the character at
-- 156; the contents follow the header of 512 bytes.
pub record IsMember (m : ℕ → ℕ) (ptr : ℕ) (e : TarEntry) : Type 0 where
  pub name : IsText m 255 ptr e.name
  pub size : e.size ≡ octal_to_int (ptr + 124) 12 m
  pub contents : e.contents ≡ ptr + 512
  pub is_dir : e.directory ≡ true → m (ptr + 156) ≡ b'5'
  pub is_file : e.directory ≡ false → m (ptr + 156) ≢ b'5'

zeros_from-true :
    (n p : ℕ) (m : ℕ → ℕ) → ((i : ℕ) → i < n → m (p + i) ≡ 0) → zeros_from n p m ≡ true
unfolding zeros_from
zeros_from-true zero p m h = refl
zeros_from-true (suc n) p m h =
    let here : m p ≡ 0 = ap m (omega arith) ∙ h 0 (omega arith) in
    rw here (zeros_from-true n (p + 1) m (λ i l. ap m (omega arith) ∙ h (suc i) (omega arith)))

zeros_from-false : (n p i : ℕ) (m : ℕ → ℕ) → i < n → m (p + i) ≢ 0 → zeros_from n p m ≡ false
unfolding zeros_from
zeros_from-false zero p i m l ne = absurd (omega arith)
zeros_from-false (suc n) p zero m l ne =
    let here : (m p == 0) ≡ false = ==_ne (m p) 0 (λ z. ne (ap m (omega arith) ∙ z)) in rw here refl
zeros_from-false (suc n) p (suc i) m l ne =
    let rest : zeros_from n (p + 1) m ≡ false =
      zeros_from-false n (p + 1) i m (omega arith) (λ z. ne (ap m (omega arith) ∙ z)) in
    ground (arith, rest)

zeros_from-all : (n p : ℕ) (m : ℕ → ℕ) → zeros_from n p m ≡ true → (i : ℕ) → i < n → m (p + i) ≡ 0
unfolding zeros_from
zeros_from-all zero p m e i l = absurd (omega arith)
zeros_from-all (suc n) p m e zero l =
    let here : m p ≡ 0 = ground arith in let at : p + 0 ≡ p = omega arith in ap m at ∙ here
zeros_from-all (suc n) p m e (suc i) l =
    let at : p + suc i ≡ p + 1 + i = omega arith in
    ap m at ∙ zeros_from-all n (p + 1) m (ground arith) i (omega arith)

zeros_from-some :
    (n p : ℕ) (m : ℕ → ℕ) → zeros_from n p m ≡ false → (i : ℕ) × (i < n) × (m (p + i) ≢ 0)
unfolding zeros_from
zeros_from-some zero p m e = absurd (cc e)
zeros_from-some (suc n) p m e = elim (Bool-cases (m p == 0)) [
  | inr here ↦ let at : p + 0 ≡ p = omega arith in (0, omega arith, λ z. ground (arith, ap m at, z))
  | inl here ↦
      let (i, l, ne) = zeros_from-some n (p + 1) m (ground arith) in
      let at : p + 1 + i ≡ p + suc i = omega arith in (suc i, omega arith, λ z. ne (ap m at ∙ z))
]

-- A block of zeros is an empty one, and the other way round.
pub empty_block-true :
    (ptr : ℕ) (m : ℕ → ℕ) → ((i : ℕ) → i < 512 → m (ptr + i) ≡ 0) → empty_block ptr m ≡ true
unfolding empty_block
empty_block-true ptr m h = zeros_from-true 512 ptr m h

pub empty_block-false :
    (ptr i : ℕ) (m : ℕ → ℕ) → i < 512 → m (ptr + i) ≢ 0 → empty_block ptr m ≡ false
unfolding empty_block
empty_block-false ptr i m l ne = zeros_from-false 512 ptr i m l ne

pub empty_block-zeros :
    (ptr : ℕ) (m : ℕ → ℕ) → empty_block ptr m ≡ true → (i : ℕ) → i < 512 → m (ptr + i) ≡ 0
unfolding empty_block
empty_block-zeros ptr m e = zeros_from-all 512 ptr m e

pub empty_block-used :
    (ptr : ℕ) (m : ℕ → ℕ) → empty_block ptr m ≡ false → (i : ℕ) × (i < 512) × (m (ptr + i) ≢ 0)
unfolding empty_block
empty_block-used ptr m e = zeros_from-some 512 ptr m e

pub entry_at-IsMember : (ptr : ℕ) (m : ℕ → ℕ) → IsMember m ptr (entry_at ptr m)
unfolding entry_at
entry_at-IsMember ptr m = record {
  name = text_at-IsText m 255 ptr;
  size = refl;
  contents = refl;
  is_dir = λ e. ground arith;
  is_file = λ e z. ground arith;
}

pub IsMember-entry_at : (ptr : ℕ) (m : ℕ → ℕ) (e : TarEntry) → IsMember m ptr e → entry_at ptr m ≡ e
unfolding entry_at
IsMember-entry_at ptr m e h =
    let dir : (m (ptr + 156) == b'5') ≡ e.directory = elim (Bool-cases e.directory) [
      | inl d ↦ rw (d, h.is_dir d) refl
      | inr d ↦ rw d (==_ne (m (ptr + 156)) b'5' (h.is_file d))
    ] in
    sym (
      ap (λ n. record e { name = n }) (sym (IsText-text_at m 255 ptr e.name h.name))
      ∙ ap (λ n. record e { name = text_at 255 ptr m; size = n }) h.size
      ∙ ap
          (λ n. record e {
            name = text_at 255 ptr m;
            size = octal_to_int (ptr + 124) 12 m;
            contents = n;
          })
          h.contents
      ∙ ap
          (λ d. record {
            name = text_at 255 ptr m;
            contents = ptr + 512;
            size = octal_to_int (ptr + 124) 12 m;
            directory = d;
          })
          (sym dir))
