-- ===== src/Vfs/Texts.antt =====
-- The text of a file in src/fs/vfs.cpp: what write_content and append_content leave and read returns.
use los_tac_os.Base.{
  ℕ, zero, suc, ◌+◌, ◌-◌, ◌≤◌, ◌<◌, ◌≡◌, ◌≢◌, refl, sym, ap, ◌∙◌, Bool, true, false, Option, none,
  some, List, [], ◌∷◌, ◌++◌, length, length-append, ltb, if◌then◌else◌, arith, ==_ne, update_self,
  update_ne,
}
use los_tac_os.Base.Int.{int32}
use los_tac_os.Fd.{File}
use los_tac_os.Vfs.{Node, Vfs, Allocator, set_node}
use los_tac_os.Vfs.Content.{byte_at, joined, bytes_of, ensure_storage, install, overwrite, extend}
use los_tac_os.Vfs.Handles.{slice, read_content}

slice-cons : (n : ℕ) (m : ℕ → ℕ) → slice (suc n) m ≡ m 0 ∷ slice n (λ i. m (suc i))
unfolding slice
slice-cons zero m = refl
slice-cons (suc n) m = rw (slice-cons n m) refl

slice-same : (n : ℕ) (m m' : ℕ → ℕ) → ((i : ℕ) → i < n → m i ≡ m' i) → slice n m ≡ slice n m'
unfolding slice
slice-same zero m m' h = refl
slice-same (suc n) m m' h =
    rw (h n (omega arith), slice-same n m m' (λ i l. h i (omega arith))) refl

slice-append : (n k : ℕ) (m : ℕ → ℕ) → slice (n + k) m ≡ slice n m ++ slice k (λ i. m (n + i))
unfolding slice
slice-append zero k m =
    let count : 0 + k ≡ k = omega arith in
    ap (λ x. slice x m) count ∙ slice-same k m (λ i. m (0 + i)) (λ i l. ap m (omega arith))
slice-append (suc n) k m =
    let count : suc n + k ≡ suc (n + k) = omega arith in
    ap (λ x. slice x m) count
    ∙ slice-cons (n + k) m
    ∙ ap (λ l. m 0 ∷ l)
        (slice-append n k (λ i. m (suc i))
          ∙ ap (λ l. slice n (λ i. m (suc i)) ++ l)
              (slice-same k (λ i. m (suc (n + i))) (λ i. m (suc n + i))
                (λ i l. ap m (omega arith))))
    ∙ ap (λ l. l ++ slice k (λ i. m (suc n + i))) (sym (slice-cons n m))

slice-byte_at : (bs : List ℕ) → slice (length bs) (byte_at bs) ≡ bs
unfolding slice byte_at
slice-byte_at [] = refl
slice-byte_at (b ∷ bs) =
    slice-cons (length bs) (byte_at (b ∷ bs)) ∙ ap (λ l. b ∷ l) (slice-byte_at bs)

length-slice : (n : ℕ) (m : ℕ → ℕ) → length (slice n m) ≡ n
unfolding slice
length-slice zero m = refl
length-slice (suc n) m = length-append (slice n m) (m n ∷ []) ∙ omega (arith, length-slice n m)

-- The bytes of a longer buffer: the old ones and those behind them.
slice-joined :
    (n : ℕ) (old : ℕ → ℕ) (bs : List ℕ)
    → slice (n + length bs) (joined n old bs) ≡ slice n old ++ bs
unfolding joined
slice-joined n old bs =
    slice-append n (length bs) (joined n old bs)
    ∙ ap (λ l. l ++ slice (length bs) (λ i. joined n old bs (n + i)))
        (slice-same n (joined n old bs) old (λ i l. ground arith))
    ∙ ap (λ l. slice n old ++ l)
        (slice-same (length bs) (λ i. joined n old bs (n + i)) (byte_at bs)
            (λ i l. ground (arith, behind i))
          ∙ slice-byte_at bs)
  where
    behind : (i : ℕ) → byte_at bs (n + i - n) ≡ byte_at bs i
    behind i = ap (byte_at bs) (omega arith)

-- The text of a node.
abbrev pub text_of : Node → List ℕ
text_of v = elim v.file [ none ↦ [] | some f ↦ slice f.size (bytes_of f) ]

-- The node with a buffer of `size` bytes.
abbrev with_buffer : Node → File → (size : ℕ) → (ℕ → ℕ) → Node
with_buffer v f size m = record v { file = some (record f { size = size; content = some m }) }

read_content-with_buffer :
    (room : ℕ) (v : Node) (f : File) (size : ℕ) (m : ℕ → ℕ)
    → v.directory ≡ false
    → size ≤ room
    → read_content room (with_buffer v f size m) ≡ (int32 size, slice size m)
unfolding read_content
read_content-with_buffer room v f size m d r =
    let all : (if ltb size room then size else room) ≡ size = ground arith in rw (d, all) refl

-- What a change of the text of `n` leaves.
pub record HasText {W : Type 0} (n : ℕ) (text : List ℕ) (s s' : Vfs W) : Type 0 where
  pub reads :
      (size : ℕ) → length text ≤ size → read_content size (s'.nodes n) ≡ (int32 (length text), text)
  pub others : (x : ℕ) → x ≢ n → s'.nodes x ≡ s.nodes x
  pub kind : (s'.nodes n).directory ≡ (s.nodes n).directory
  pub stored : (f : File) × ((s'.nodes n).file ≡ some f)
  pub text_is : text_of (s'.nodes n) ≡ text

module _ {W : Type 0} (a : Allocator W) where
  install-HasText :
      (n size : ℕ) (m : ℕ → ℕ) (f : File) (s : Vfs W) (text : List ℕ)
      → (s.nodes n).directory ≡ false
      → (a.kmalloc (size + 1) s.world).0 ≢ 0
      → slice size m ≡ text
      → length text ≡ size
      → (s' : Vfs W) × (install a n size m f s ≡ (true, s')) × HasText n text s s'
  unfolding install
  install-HasText n size m f s text d g e l =
      let w : W = (a.kmalloc (size + 1) s.world).1 in
      let s' : Vfs W = set_node n (with_buffer (s.nodes n) f size m) (record s { world = w }) in
      let here : s'.nodes n ≡ with_buffer (s.nodes n) f size m =
        update_self s.nodes n (with_buffer (s.nodes n) f size m) in
      (
        s',
        rw (==_ne (a.kmalloc (size + 1) s.world).0 0 g) refl,
        record {
          reads = λ room r.
              ap (read_content room) here
              ∙ read_content-with_buffer room (s.nodes n) f size m d (omega (arith, l))
              ∙ rw (e, l) refl;
          others = λ x ne. update_ne s.nodes n x (with_buffer (s.nodes n) f size m) ne;
          kind = ap (λ v. v.directory) here;
          stored = (record f { size = size; content = some m }, ap (λ v. v.file) here);
          text_is = ap text_of here ∙ e;
        },
      )

  ensure_storage-stored :
      (n : ℕ) (f : File) (s : Vfs W)
      → (s.nodes n).directory ≡ false
      → (s.nodes n).file ≡ some f
      → ensure_storage a n s ≡ (some f, s)
  unfolding ensure_storage
  ensure_storage-stored n f s d e = simp (d, e) refl

  -- write_content on a file with storage, where the heap has a block for the bytes: what is read of
  -- it is those bytes, and no other node changes.
  pub overwrite-HasText :
      (n : ℕ) (bs : List ℕ) (f : File) (s : Vfs W)
      → (s.nodes n).directory ≡ false
      → (s.nodes n).file ≡ some f
      → (a.kmalloc (length bs + 1) s.world).0 ≢ 0
      → (s' : Vfs W) × (overwrite a n bs s ≡ (true, s')) × HasText n bs s s'
  unfolding overwrite
  overwrite-HasText n bs f s d e g =
      let (s', r, t) =
        install-HasText n (length bs) (byte_at bs) f s bs d g (slice-byte_at bs) refl in
      let go : Option File × Vfs W → Bool × Vfs W = λ q. elim q.0 [
        | none ↦ (false, q.1)
        | some k ↦ install a n (length bs) (byte_at bs) k q.1
      ] in
      let stored = ensure_storage-stored n f s d e in
      (s', ap (λ b. if b then (false, s) else go (ensure_storage a n s)) d ∙ ap go stored ∙ r, t)

  -- append_content on a file with a buffer, where the heap has a block for the old and the new
  -- bytes: what is read of it is the old text with the new bytes behind it, and no other node
  -- changes.
  pub extend-HasText :
      (n : ℕ) (bs : List ℕ) (f : File) (s : Vfs W)
      → (s.nodes n).directory ≡ false
      → (s.nodes n).file ≡ some f
      → (a.kmalloc (f.size + length bs + 1) s.world).0 ≢ 0
      → (s' : Vfs W) × (extend a n bs s ≡ (true, s')) × HasText n (text_of (s.nodes n) ++ bs) s s'
  unfolding extend
  extend-HasText n bs f s d e g =
      let text : List ℕ = slice f.size (bytes_of f) ++ bs in
      let old : text_of (s.nodes n) ≡ slice f.size (bytes_of f) = rw e refl in
      let (s', r, t) =
        install-HasText n (f.size + length bs) (joined f.size (bytes_of f) bs) f s text d g
          (slice-joined f.size (bytes_of f) bs)
          (length-append (slice f.size (bytes_of f)) bs
            ∙ ap (λ k. k + length bs) (length-slice f.size (bytes_of f))) in
      let go : Option File × Vfs W → Bool × Vfs W = λ q. elim q.0 [
        | none ↦ (false, q.1)
        | some k ↦ install a n (k.size + length bs) (joined k.size (bytes_of k) bs) k q.1
      ] in
      let stored = ensure_storage-stored n f s d e in
      (
        s',
        ap (λ b. if b then (false, s) else go (ensure_storage a n s)) d ∙ ap go stored ∙ r,
        rw old t,
      )
