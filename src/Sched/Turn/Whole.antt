-- ===== src/Sched/Turn/Whole.antt =====
-- schedule of src/kernel/sched/scheduler.cpp from its call to its result.
use los_tac_os.Base.{
  ℕ, ◌≤◌, ◌≡◌, refl, sym, ap, ◌∙◌, true, false, Option, none, some, List, [], ◌∷◌, ◌++◌, ◌==◌,
  arith, length, Bool-cases, Option-cases, inl, inr,
}
use mathlib.Core.Path.{subst}
use los_tac_os.Sched.{
  Task, Sched, is_ready, is_dead, is_running, successor, find_alive, switch_to, fall_back,
  first_candidate, pick,
}
use los_tac_os.Sched.Chain.{Chain, has, Distinct, IsQueue, has-append}
use los_tac_os.Sched.Pick.{first_ready, find_ready-first}
use los_tac_os.Sched.Reap.{first_of, append_one, Chain-next}
use los_tac_os.Sched.Turn.{
  Scheduled, idle, dispatch, dispatch-runs, switch_to-dispatch, first_alive, first_alive-none,
  first_alive-some, find_alive-first,
}

-- Where the search for a READY task starts, the list splits.
split :
    (a : ℕ) (xs : List ℕ)
    → has a xs ≡ true
    → (pre : List ℕ) × (post : List ℕ) × (xs ≡ pre ++ a ∷ post)
split a [] h = cc
split a (x ∷ xs) h = elim (Bool-cases (a == x)) [
  | inl e ↦ let same : x ≡ a = ground arith in ([], xs, ap (λ y. y ∷ xs) same)
  | inr e ↦ let (pre, post, q) = split a xs (ground arith) in (x ∷ pre, post, ap (λ l. x ∷ l) q)
]

-- The candidate that follows the current task splits the list.
candidate-split :
    (head : ℕ) (s : Sched) (ys : List ℕ)
    → IsQueue s ys
    → s.head ≡ some head
    → ((c : ℕ) → s.current ≡ some c → has c ys ≡ true)
    → (pre : List ℕ) × (post : List ℕ) × (ys ≡ pre ++ first_candidate head s ∷ post)
candidate-split head s [] q e h = absurd (cc (sym e ∙ q.chain))
candidate-split head s (y ∷ ys) q e h = go s.current refl
  where
    at_head : y ≡ head
    at_head = ground (arith, q.chain.0, e)

    after :
        (c : ℕ) (pre post : List ℕ)
        → y ∷ ys ≡ pre ++ c ∷ post
        → (s.tasks c).next ≡ first_of post
        → (pre' : List ℕ) × (post' : List ℕ) × (y ∷ ys ≡ pre' ++ successor head s.tasks c ∷ post')
    after c pre [] w n =
        let around : successor head s.tasks c ≡ head = rw (n, successor) refl in
        ([], ys, ap (λ x. x ∷ ys) (at_head ∙ sym around))
    after c pre (p ∷ ps) w n =
        let next : successor head s.tasks c ≡ p = rw (n, successor) refl in
        (
          pre ++ c ∷ [],
          ps,
          w ∙ sym (append_one pre c (p ∷ ps)) ∙ ap (λ x. (pre ++ c ∷ []) ++ x ∷ ps) (sym next),
        )

    go :
        (o : Option ℕ)
        → s.current ≡ o
        → (pre : List ℕ) × (post : List ℕ) × (y ∷ ys
            ≡ pre ++ (elim o [ none ↦ head | some t ↦ successor head s.tasks t ]) ∷ post)
    go none c = ([], ys, ap (λ x. x ∷ ys) at_head)
    go (some c) k =
        let (pre, post, w) = split c (y ∷ ys) (h c k) in
        let chain : Chain s.tasks s.head (pre ++ c ∷ post) =
          subst (λ l. Chain s.tasks s.head l) w q.chain in
        after c pre post w (Chain-next s.tasks s.head pre c post chain)

Distinct-middle :
    (pre : List ℕ) (x : ℕ) (post : List ℕ)
    → Distinct (pre ++ x ∷ post)
    → (has x pre ≡ false) × (has x post ≡ false)
Distinct-middle [] x post d = (refl, d.0)
Distinct-middle (y ∷ pre) x post d =
    let (a, b) = Distinct-middle pre x post d.1 in
    (ground (arith, a, d.0, has-append y pre (x ∷ post)), b)

first_ready-has :
    (tasks : ℕ → Task) (start : ℕ) (xs : List ℕ)
    → (has (first_ready tasks start xs) (start ∷ xs)) ≡ true
first_ready-has tasks start [] = ground arith
first_ready-has tasks start (x ∷ xs) = elim (Bool-cases (is_ready (tasks x).state)) [
  | inl e ↦ rw e (ground arith)
  | inr e ↦
      let same : first_ready tasks start (x ∷ xs) ≡ first_ready tasks start xs = rw e refl in
      ap (λ a. has a (start ∷ (x ∷ xs))) same ∙ ground (arith, first_ready-has tasks start xs)
]

alive_ready :
    (tasks : ℕ → Task) (t : ℕ) → is_ready (tasks t).state ≡ true → is_dead (tasks t).state ≡ false
alive_ready tasks t h = ground arith

-- The list `ys`, its head, the current task in it and nobody RUNNING.
pub record IsPaused (head : ℕ) (s : Sched) (ys : List ℕ) : Type 0 where
  pub queue : IsQueue s ys
  pub first : s.head ≡ some head
  pub inside : (c : ℕ) → s.current ≡ some c → has c ys ≡ true
  pub calm : (a : ℕ) → has a ys ≡ true → is_running (s.tasks a).state ≡ false

switch_to-Scheduled :
    (old head t : ℕ) (s : Sched) (ys : List ℕ)
    → IsPaused head s ys
    → has t ys ≡ true
    → is_ready (s.tasks t).state ≡ true
    → Scheduled old ys s (some (switch_to t s))
switch_to-Scheduled old head t s ys p h r =
    let d = switch_to-dispatch t s in
    dispatch-runs old t (switch_to t s).0 ys s (switch_to t s).1 p.queue p.calm h
      (alive_ready s.tasks t r) d.1.0 d.1.1.0 d.1.1.1.0 d.1.1.1.1 d.0

fall_back-Scheduled :
    (fuel old head : ℕ) (s : Sched) (ys : List ℕ)
    → IsPaused head s ys
    → length ys ≤ fuel
    → Scheduled old ys s (fall_back fuel old head s)
unfolding fall_back
fall_back-Scheduled fuel old head s [] p f = absurd (cc (sym p.first ∙ p.queue.chain))
fall_back-Scheduled fuel old head s (y ∷ ys) p f =
    let same : y ≡ head = ground (arith, p.queue.chain.0, p.first) in
    let fresh : has head ys ≡ false = ap (λ x. has x ys) (sym same) ∙ p.queue.distinct.0 in
    let chain : Chain s.tasks (s.tasks head).next ys = rw same at p.queue.chain.1 in
    let found : find_alive fuel head s.tasks head ≡ some (first_alive s.tasks (y ∷ ys)) =
      find_alive-first fuel head s.tasks head ys chain fresh (omega arith)
      ∙ ap (λ x. some (first_alive s.tasks (x ∷ ys))) (sym same) in
    elim (Option-cases (first_alive s.tasks (y ∷ ys))) [
      | inl e ↦
          rw (found, e, fall_back) (idle s p.queue (λ a h. first_alive-none s.tasks (y ∷ ys) a e h))
      | inr (t, e) ↦
          let (h, d) = first_alive-some s.tasks (y ∷ ys) t e in
          rw (found, e, fall_back)
            (dispatch-runs old t (s.tasks t).regs (y ∷ ys) s (dispatch t s) p.queue p.calm h d refl
              refl refl refl refl)
    ]

first_ready-inside :
    (tasks : ℕ → Task) (start : ℕ) (pre post : List ℕ)
    → has (first_ready tasks start (start ∷ (post ++ pre))) (pre ++ start ∷ post) ≡ true
first_ready-inside tasks start pre post =
    let t : ℕ = first_ready tasks start (start ∷ (post ++ pre)) in
    ground (
      arith,
      first_ready-has tasks start (start ∷ (post ++ pre)),
      has-append t pre (start ∷ post),
      has-append t post pre,
    )

pub pick-Scheduled :
    (fuel old head : ℕ) (s : Sched) (ys : List ℕ)
    → IsPaused head s ys
    → length ys ≤ fuel
    → Scheduled old ys s (pick fuel old head s)
unfolding pick
pick-Scheduled fuel old head s ys p f =
    let start : ℕ = first_candidate head s in
    let (pre, post, w) = candidate-split head s ys p.queue p.first p.inside in
    let chain : Chain s.tasks s.head (pre ++ start ∷ post) =
      subst (λ l. Chain s.tasks s.head l) w p.queue.chain in
    let chain' : Chain s.tasks (some head) (pre ++ start ∷ post) =
      subst (λ o. Chain s.tasks o (pre ++ start ∷ post)) p.first chain in
    let (a, b) = Distinct-middle pre start post (subst Distinct w p.queue.distinct) in
    let short : length (pre ++ start ∷ post) ≤ fuel = subst (λ l. length l ≤ fuel) w f in
    let t : ℕ = first_ready s.tasks start (start ∷ (post ++ pre)) in
    let inside : has t ys ≡ true = ap (has t) w ∙ first_ready-inside s.tasks start pre post in
    let found = find_ready-first fuel head start s.tasks pre post chain' a b short in
    elim (Bool-cases (is_ready (s.tasks t).state)) [
      | inl r ↦ rw (found, r, pick) (switch_to-Scheduled old head t s ys p inside r)
      | inr r ↦ rw (found, r, pick) (fall_back-Scheduled fuel old head s ys p f)
    ]
