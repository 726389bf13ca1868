-- ===== src/Kprintf/Loop.antt =====
-- The loop over a format ends with a fuel above its length, and shows the text of the format.
use los_tac_os.Base.{
  ℕ, zero, suc, ◌+◌, ◌-◌, ◌*◌, ◌%◌, ◌^◌, ◌≤◌, ◌<◌, ◌≡◌, refl, Bool, true, false, ◌==◌, List, [],
  ◌∷◌, ◌++◌, length, inl, inr, Bool-cases, arith,
}
use los_tac_os.Base.Run.{done}
use los_tac_os.Kprintf.{
  Sink, skip, read_flags, read_width, read_length, read_directive, format_loop,
}
use los_tac_os.Kprintf.Texts.{IsSink, regroup, converted, rendered, convert-Converts}
use mathlib.Core.List.{append-nil}

length-skip : (cs : List ℕ) → length (skip cs) ≤ length cs
length-skip [] = omega arith
length-skip (c ∷ cs) = omega arith

length-read_flags : (l z : Bool) (cs : List ℕ) → length (read_flags l z cs).2 ≤ length cs
unfolding read_flags
length-read_flags l z [] = omega arith
length-read_flags l z (c ∷ cs) =
    ground (arith, length-read_flags true z cs, length-read_flags l true cs)

length-read_width : (w : ℕ) (cs : List ℕ) → length (read_width w cs).1 ≤ length cs
unfolding read_width
length-read_width w [] = omega arith
length-read_width w (c ∷ cs) = ground (arith, length-read_width ((w * 10 + (c - b'0')) % 2 ^ 32) cs)

length-read_length : (cs : List ℕ) → length (read_length cs).1 ≤ length cs
unfolding read_length
length-read_length cs = ground (arith, length-skip cs, length-skip (skip cs))

-- The parsing of a conversion never goes back in the format.
length-read_directive : (cs : List ℕ) → length (read_directive cs).rest ≤ length cs
unfolding read_directive
length-read_directive cs =
    let f = read_flags false false cs in
    let w = read_width 0 f.2 in
    omega (arith, length-read_flags false false cs, length-read_width 0 f.2, length-read_length w.1)

module _ {S : Type 0} (o : Sink S) (unknown : ℕ → List ℕ) (Shows : S → List ℕ → Type 0)
    (sink : IsSink o unknown Shows) (texts : ℕ → List ℕ) (args : ℕ → ℕ) where
  pub format_loop-Shows :
      (fuel : ℕ) (s : S) (xs cs : List ℕ) (k : ℕ)
      → length cs < fuel
      → Shows s xs
      → (s' : S) × (format_loop o texts args fuel s cs k ≡ done s')
        × Shows s' (xs ++ rendered unknown texts args fuel cs k)
  unfolding format_loop
  format_loop-Shows zero s xs cs k few h = absurd (omega arith)
  format_loop-Shows (suc fuel) s xs [] k few h = (s, refl, rw (append-nil xs) h)
  format_loop-Shows (suc fuel) s xs (c ∷ cs) k few h = elim (Bool-cases (c == b'%')) [
    | inl conversion ↦
        let d = read_directive cs in
        let r = convert-Converts o unknown Shows sink texts args s xs d k h in
        let t = converted unknown texts args d k in
        let (s', ran, shown) =
          format_loop-Shows fuel r.end.0 (xs ++ t.0) (skip d.rest) t.1
            (omega (arith, length-skip d.rest, length-read_directive cs)) r.shown in
        rw conversion (s', rw (r.ran, r.used) ran, regroup o unknown Shows sink s' xs t.0 _ shown)
    | inr plain ↦
        let (s', ran, shown) =
          format_loop-Shows fuel (o.put s c) (xs ++ c ∷ []) cs k (omega arith)
            (sink.puts_one s xs c h) in
        rw plain (s', ran, regroup o unknown Shows sink s' xs (c ∷ []) _ shown)
  ]
