-- ===== src/Fd/Io/Files.antt =====
-- Files through descriptors, src/user/syscall.cpp: what sys_write stores, sys_read returns.
use los_tac_os.Base.{
  ℕ, zero, suc, ◌+◌, ◌-◌, ◌%◌, ◌^◌, ◌≤◌, ◌<◌, ◌≡◌, ◌⊎◌, refl, sym, ap, ◌∙◌, false, none, some, List,
  [], ◌∷◌, ltb, leb, ◌==◌, if◌then◌else◌, update, length, arith, inl, inr, Bool-cases, Option-cases,
  update_ne, update_self,
}
use los_tac_os.Fd.{
  FdEntry, File, Inode, Sys, Drivers, Outcome, done, Slot, entry_at, set_entry, fail,
}
use los_tac_os.Fd.Io.{
  store_bytes, load_bytes, copy_front, ensure_file, grow_file, put_file, write_file, read_file,
  empty_file,
}

store_bytes-out :
    (m : ℕ → ℕ) (a : ℕ) (bs : List ℕ) (i : ℕ)
    → (i < a) ⊎ (a + length bs ≤ i)
    → store_bytes m a bs i ≡ m i
unfolding store_bytes
store_bytes-out m a [] i h = refl
store_bytes-out m a (b ∷ bs) i h =
    ground (arith, store_bytes-out (update m a b) (a + 1) bs i (out h))
  where
    out : (i < a) ⊎ (a + suc (length bs) ≤ i) → (i < a + 1) ⊎ (a + 1 + length bs ≤ i)
    out (inl x) = inl (omega arith)
    out (inr y) = inr (omega arith)

load_bytes-same :
    (m m' : ℕ → ℕ) (a n : ℕ)
    → ((i : ℕ) → a ≤ i → i < a + n → m i ≡ m' i)
    → load_bytes m a n ≡ load_bytes m' a n
unfolding load_bytes
load_bytes-same m m' a zero h = refl
load_bytes-same m m' a (suc n) h =
    ground (arith, h a, load_bytes-same m m' (a + 1) n (λ i x y. h i (omega arith) (omega arith)))

load-store : (m : ℕ → ℕ) (a : ℕ) (bs : List ℕ) → load_bytes (store_bytes m a bs) a (length bs) ≡ bs
unfolding store_bytes load_bytes
load-store m a [] = refl
load-store m a (b ∷ bs) = ground (
  arith,
  load-store (update m a b) (a + 1) bs,
  store_bytes-out (update m a b) (a + 1) bs a (inl (omega arith)),
)

-- A file whose size covers its content.
abbrev content_or_zero : File → ℕ → ℕ
content_or_zero f i = elim f.content [ none ↦ 0 | some m ↦ m i ]

-- The file after `bs` was written at `off`: the bytes stand there, the file reaches past them, is
-- followed by a 0, and keeps its other bytes below the old size.
pub record Written (off : ℕ) (bs : List ℕ) (f g : File) : Type 0 where
  pub content :
      (m : ℕ → ℕ) × (g.content ≡ some m)
      × (load_bytes m off (length bs) ≡ bs)
      × (m g.size ≡ 0)
      × ((i : ℕ) → i < f.size → (i < off) ⊎ (off + length bs ≤ i) → m i ≡ content_or_zero f i)
  pub reaches : off + length bs ≤ g.size
  pub grows : f.size ≤ g.size
  pub exact : (g.size ≡ f.size) ⊎ (g.size ≡ off + length bs)

-- The content of the block that grow_file returns.
record Grown (new : ℕ) (f g : File) : Type 0 where
  content : (m : ℕ → ℕ) × (g.content ≡ some m) × ((i : ℕ) → i < f.size → m i ≡ content_or_zero f i)
  reaches : new ≤ g.size
  grows : f.size ≤ g.size
  exact : (g.size ≡ f.size) ⊎ (g.size ≡ new)

module _ {W : Type 0} (d : Drivers W) where
  abbrev pub Refuses : ℕ → W → Type 0
  Refuses k w = d.kmalloc k w ≡ none

  -- The heap has no block for the file, or none for `new` bytes with their terminating 0, before or
  -- after it gave one for the file.
  abbrev pub Exhausted : (new : ℕ) → W → Type 0
  Exhausted new w =
      Refuses 40 w
      ⊎ (Refuses (new + 1) w
          ⊎ ((m : ℕ → ℕ) × (w' : W) × (d.kmalloc 40 w ≡ some (m, w')) × Refuses (new + 1) w'))

  copy_front-below : (n : ℕ) (src dst : ℕ → ℕ) (i : ℕ) → i < n → copy_front n src dst i ≡ src i
  unfolding copy_front
  copy_front-below n src dst i h = ground arith

  module _ (f : File) (full : f.content ≡ none → f.size ≡ 0) where
    grow_file-Grown :
        (new : ℕ) (w : W)
        → 0 < new
        → (Refuses (new + 1) w × (grow_file d f new w ≡ none))
          ⊎ ((g : File) × (w' : W) × (grow_file d f new w ≡ some (g, w')) × Grown new f g)
    unfolding grow_file
    grow_file-Grown new w h = elim (Bool-cases (ltb f.size new)) [
      | inr fits ↦ elim (Option-cases f.content) [
        | inl e ↦ absurd (ground (arith, full e))
        | inr (m, e) ↦ inr (
          f,
          w,
          rw (fits, grow_file),
          record {
            content = (m, e, λ i l. rw e refl);
            reaches = ground arith;
            grows = omega arith;
            exact = inl refl;
          },
        )
      ]
      | inl more ↦ elim (Option-cases (d.kmalloc (new + 1) w)) [
        | inl e ↦ inl (e, rw (more, e, grow_file))
        | inr ((fresh, w'), e) ↦ elim (Option-cases f.content) [
          | inl c ↦ inr (
            record f { content = some fresh; size = new },
            w',
            rw (more, e, c, grow_file),
            record {
              content = (fresh, refl, λ i l. absurd (omega (arith, full c)));
              reaches = omega arith;
              grows = ground arith;
              exact = inr refl;
            },
          )
          | inr (old, c) ↦ inr (
            record f { content = some (copy_front f.size old fresh); size = new },
            d.kfree old w',
            rw (more, e, c, grow_file),
            record {
              content = (
                copy_front f.size old fresh,
                refl,
                λ i l. copy_front-below f.size old fresh i l ∙ rw c refl,
              );
              reaches = omega arith;
              grows = ground arith;
              exact = inr refl;
            },
          )
        ]
      ]
    ]

  abbrev pub file_of : Inode → File
  file_of x = elim x.file [ none ↦ empty_file | some f ↦ f ]

  ensure_file-total :
      (x : Inode) (w : W)
      → (Refuses 40 w × (ensure_file d x w ≡ none))
        ⊎ ((w' : W) × (ensure_file d x w ≡ some (file_of x, w'))
            × ((w' ≡ w) ⊎ ((m : ℕ → ℕ) × (d.kmalloc 40 w ≡ some (m, w')))))
  unfolding ensure_file
  ensure_file-total x w = elim (Option-cases x.file) [
    | inr (f, e) ↦ inr (w, rw (e, ensure_file), inl refl)
    | inl e ↦ elim (Option-cases (d.kmalloc 40 w)) [
      | inl k ↦ inl (k, rw (e, k, ensure_file))
      | inr ((m, w'), k) ↦ inr (w', rw (e, k, ensure_file), inr (m, k))
    ]
  ]

  -- What put_file makes of a grown file.
  abbrev put : File → (ℕ → ℕ) → ℕ → List ℕ → File
  put g m off bs = record g { content = some (update (store_bytes m off bs) g.size 0) }

  put-Written :
      (f g : File) (off : ℕ) (bs : List ℕ)
      → (h : Grown (off + length bs) f g) → Written off bs f (put g h.content.0 off bs)
  put-Written f g off bs h =
      let m = h.content.0 in
      let m' : ℕ → ℕ = update (store_bytes m off bs) g.size 0 in
      record {
        content = (
          m',
          refl,
          load_bytes-same m' (store_bytes m off bs) off (length bs)
                (λ i x y. update_ne (store_bytes m off bs) g.size i 0 (omega (arith, h.reaches)))
              ∙ load-store m off bs,
          update_self (store_bytes m off bs) g.size 0,
          λ i l out.
              update_ne (store_bytes m off bs) g.size i 0 (omega (arith, h.grows))
              ∙ store_bytes-out m off bs i out
              ∙ h.content.2 i l,
        );
        reaches = h.reaches;
        grows = h.grows;
        exact = h.exact;
      }

  -- A write that succeeded: the file holds the bytes, the entry's offset is past them, and
  -- reading as many bytes from the old offset returns them.
  pub record Stored (slot : Slot) (e : FdEntry) (n : ℕ) (bs : List ℕ) (s : Sys W) (r : Outcome W ℕ)
      : Type 0 where
    pub after : Sys W
    pub file : File
    pub returns : r ≡ done (length bs) after
    pub holds : (after.inodes n).file ≡ some file
    pub written : Written e.offset bs (file_of (s.inodes n)) file
    pub offset : (entry_at slot after).offset ≡ e.offset + length bs
    pub reads_back :
        read_file d slot e n file (length bs) after
        ≡ done (length bs, bs) (set_entry slot (record e { offset = e.offset + length bs }) after)

  read_file-Written :
      (slot : Slot) (e : FdEntry) (n : ℕ) (f g : File) (bs : List ℕ) (s : Sys W)
      → 0 < length bs
      → Written e.offset bs f g
      → read_file d slot e n g (length bs) s
        ≡ done (length bs, bs) (set_entry slot (record e { offset = e.offset + length bs }) s)
  unfolding read_file
  read_file-Written slot e n f g bs s some_bytes w =
      let nonempty : (g.size == 0) ≡ false = ground (arith, w.reaches) in
      let inside : leb g.size e.offset ≡ false = ground (arith, w.reaches) in
      let all : (if ltb (length bs) (g.size - e.offset) then length bs else g.size - e.offset)
          ≡ length bs =
        ground (arith, w.reaches) in
      rw (w.content.1, nonempty, inside, all, w.content.2, read_file)

  put_file-Stored :
      (p k : ℕ) (e : FdEntry) (n : ℕ) (bs : List ℕ) (s s' : Sys W) (g : File)
      → 0 < length bs
      → (e.offset + length bs) % 2 ^ 64 ≡ e.offset + length bs
      → Grown (e.offset + length bs) (file_of (s.inodes n)) g
      → s'.inodes ≡ s.inodes
      → Stored (p, k) e n bs s (put_file d (p, k) e n (s.inodes n) g bs s')
  unfolding put_file
  put_file-Stored p k e n bs s s' g some_bytes fits h same =
      let w = put-Written (file_of (s.inodes n)) g e.offset bs h in
      let g' : File = put g h.content.0 e.offset bs in
      let after : Sys W =
        set_entry (p, k) (record e { offset = e.offset + length bs })
          (record s' { inodes = update s'.inodes n (record (s.inodes n) { file = some g' }) }) in
      record {
        after = after;
        file = g';
        returns = rw (h.content.1, fits, put_file);
        holds = ground arith;
        written = w;
        offset = ground arith;
        reads_back = read_file-Written (p, k) e n (file_of (s.inodes n)) g' bs after some_bytes w;
      }

  -- Writing at least one byte at an offset below 2 ^ 63 to a file either stores all the bytes at
  -- that offset, so that reading them back returns them, or fails because the heap, as it then is, has
  -- no block for the file or for the bytes.
  pub write_file-Stored :
      (slot : Slot) (e : FdEntry) (n : ℕ) (bs : List ℕ) (s : Sys W)
      → ((file_of (s.inodes n)).content ≡ none → (file_of (s.inodes n)).size ≡ 0)
      → 0 < length bs
      → e.offset + length bs < 2 ^ 63
      → Stored slot e n bs s (write_file d slot e n bs s)
        ⊎ (Exhausted (e.offset + length bs) s.world
            × (s' : Sys W) × (write_file d slot e n bs s ≡ done fail s'))
  unfolding write_file
  write_file-Stored (p, k) e n bs s full some_bytes small =
      let fits : (e.offset + length bs) % 2 ^ 64 ≡ e.offset + length bs = omega arith in
      elim (ensure_file-total (s.inodes n) s.world) [
        | inl (x, q) ↦ inr (inl x, s, rw (q, write_file))
        | inr (w, q, from) ↦
            elim (grow_file-Grown (file_of (s.inodes n)) full (e.offset + length bs) w
              (omega arith)) [
                | inl (x, r) ↦ inr (
                  later (e.offset + length bs) s.world w from x,
                  record s {
                    inodes =
                        update s.inodes n
                          (record (s.inodes n) { file = some (file_of (s.inodes n)) });
                    world = w;
                  },
                  rw (q, fits, r, write_file),
                )
                | inr (g, w', r, h) ↦ inl (
                    rw (q, fits, r, write_file)
                      (put_file-Stored p k e n bs s (record s { world = w' }) g some_bytes fits h
                        refl))
              ]
      ]
    where
      later :
          (new : ℕ) (w w' : W)
          → (w' ≡ w) ⊎ ((m : ℕ → ℕ) × (d.kmalloc 40 w ≡ some (m, w')))
          → Refuses (new + 1) w'
          → Exhausted new w
      later new w w' (inl e) x = inr (inl (ap (d.kmalloc (new + 1)) (sym e) ∙ x))
      later new w w' (inr (m, e)) x = inr (inr (m, w', e, x))
