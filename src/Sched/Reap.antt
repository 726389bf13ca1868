-- ===== src/Sched/Reap.antt =====
-- reap of src/kernel/sched/scheduler.cpp: the DEAD tasks leave the list, the current one excepted.
use los_tac_os.Base.{
  ℕ, zero, suc, ◌<◌, ◌≡◌, refl, ap, ◌∙◌, Bool, true, false, ◌&&◌, not, Option, none, some, List, [],
  ◌∷◌, ◌++◌, ◌==◌, if◌then◌else◌, arith, length, length-append, Bool-cases, inl, inr,
}
use los_tac_os.Sched.{Task, Sched, is_dead, points_at, remove_and_destroy, reap_loop, reap}
use los_tac_os.Sched.Chain.{Chain, has, Distinct, without, IsQueue, has-append}
use los_tac_os.Sched.Remove.{Leaves, left, remove_and_destroy-Leaves}

abbrev pub first_of : List ℕ → Option ℕ
first_of [] = none
first_of (x ∷ xs) = some x

pub Chain-first :
    (tasks : ℕ → Task) (p : Option ℕ) (xs : List ℕ) → Chain tasks p xs → p ≡ first_of xs
Chain-first tasks p [] c = c
Chain-first tasks p (x ∷ xs) c = c.0

pub Chain-next :
    (tasks : ℕ → Task) (p : Option ℕ) (pre : List ℕ) (x : ℕ) (post : List ℕ)
    → Chain tasks p (pre ++ x ∷ post)
    → (tasks x).next ≡ first_of post
Chain-next tasks p [] x post c = Chain-first tasks (tasks x).next post c.1
Chain-next tasks p (y ∷ pre) x post c = Chain-next tasks (tasks y).next pre x post c.1

-- DEAD and not the current task.
abbrev pub is_reapable : Option ℕ → (ℕ → Task) → ℕ → Bool
is_reapable current tasks x = is_dead (tasks x).state && not (points_at current x)

abbrev pub survivors : Option ℕ → (ℕ → Task) → List ℕ → List ℕ
survivors current tasks [] = []
survivors current tasks (x ∷ xs) =
    if is_reapable current tasks x
    then survivors current tasks xs
    else x ∷ survivors current tasks xs

survivors-same :
    (c c' : Option ℕ) (m m' : ℕ → Task) (xs : List ℕ)
    → c' ≡ c
    → ((a : ℕ) → (m' a).state ≡ (m a).state)
    → survivors c' m' xs ≡ survivors c m xs
survivors-same c c' m m' [] e s = refl
survivors-same c c' m m' (x ∷ xs) e s = rw (e, s x, survivors-same c c' m m' xs e s) refl

without-middle :
    (pre : List ℕ) (x : ℕ) (post : List ℕ)
    → Distinct (pre ++ x ∷ post)
    → without x (pre ++ x ∷ post) ≡ pre ++ post
without-middle [] x post d = ground arith
without-middle (y ∷ pre) x post d =
    let ne : (y == x) ≡ false = ground (arith, d.0, has-append y pre (x ∷ post)) in
    rw (ne, without-middle pre x post d.1) refl

-- What reap leaves of the list.
pub data Reaped (ys : List ℕ) (s : Sched) : Option Sched → Type 0 where
  reaped :
      (s' : Sched)
      → IsQueue s' ys
      → ((a : ℕ) → (s'.tasks a).state ≡ (s.tasks a).state)
      → s'.current ≡ s.current
      → Reaped ys s (some s')

pub append_one : (pre : List ℕ) (x : ℕ) (post : List ℕ) → (pre ++ x ∷ []) ++ post ≡ pre ++ x ∷ post
append_one [] x post = refl
append_one (y ∷ pre) x post = ap (λ l. y ∷ l) (append_one pre x post)

Reaped-trans :
    (ys ys' : List ℕ) (s s1 : Sched) (o : Option Sched)
    → ys' ≡ ys
    → ((a : ℕ) → (s1.tasks a).state ≡ (s.tasks a).state)
    → s1.current ≡ s.current
    → Reaped ys' s1 o
    → Reaped ys s o
Reaped-trans ys ys' s s1 _ e k c (reaped s' q k' c') =
    reaped s' (rw⁻¹ e q) (λ a. k' a ∙ k a) (c' ∙ c)

has-middle : (pre : List ℕ) (x : ℕ) (post : List ℕ) → has x (pre ++ x ∷ post) ≡ true
has-middle pre x post = ground (arith, has-append x pre (x ∷ post))

reapable-other :
    (c : Option ℕ) (m : ℕ → Task) (x : ℕ) → is_reapable c m x ≡ true → points_at c x ≡ false
reapable-other c m x h = ground arith

reap_loop-Reaped :
    (walk fuel : ℕ) (pre post : List ℕ) (s : Sched)
    → IsQueue s (pre ++ post)
    → length (pre ++ post) < walk
    → length post < fuel
    → Reaped (pre ++ survivors s.current s.tasks post) s (reap_loop walk fuel (first_of post) s)
unfolding reap_loop
reap_loop-Reaped walk zero pre post s q w f = absurd (omega arith)
reap_loop-Reaped walk (suc fuel) pre [] s q w f = reaped s q (λ a. refl) refl
reap_loop-Reaped walk (suc fuel) pre (x ∷ post) s q w f =
    let next : (s.tasks x).next ≡ first_of post = Chain-next s.tasks s.head pre x post q.chain in
    elim (Bool-cases (is_reapable s.current s.tasks x)) [
      | inl dead ↦
          let other : points_at s.current x ≡ false = reapable-other s.current s.tasks x dead in
          let here : has x (pre ++ x ∷ post) ≡ true = has-middle pre x post in
          let less : length (pre ++ post) < walk =
            omega (arith, length-append pre post, length-append pre (x ∷ post)) in
          rw (dead, reap_loop)
            (onward (remove_and_destroy walk x s) next
              (λ s' e. reap_loop-Reaped walk fuel pre post s' e less (omega arith))
              (remove_and_destroy-Leaves walk x (pre ++ x ∷ post) s q here other w))
      | inr stays ↦
          rw (stays, next, reap_loop)
            (Reaped-trans (pre ++ x ∷ survivors s.current s.tasks post)
              ((pre ++ x ∷ []) ++ survivors s.current s.tasks post) s s
              (reap_loop walk fuel (first_of post) s)
              (append_one pre x (survivors s.current s.tasks post)) (λ a. refl) refl
              (reap_loop-Reaped walk fuel (pre ++ x ∷ []) post s (rw (append_one pre x post) q)
                (rw (append_one pre x post) w) (omega arith)))
    ]
  where
    go : Option Sched → Option Sched
    go o = elim o [ none ↦ none | some s' ↦ reap_loop walk fuel (s.tasks x).next s' ]

    onward :
        (o : Option Sched)
        → (s.tasks x).next ≡ first_of post
        → ((s' : Sched)
            → IsQueue s' (pre ++ post)
            → Reaped
                (pre ++ survivors s'.current s'.tasks post)
                s'
                (reap_loop walk fuel (first_of post) s'))
        → Leaves x (pre ++ x ∷ post) s o
        → Reaped (pre ++ survivors s.current s.tasks post) s (go o)
    onward _ next rec (left s' u) =
        let rest : IsQueue s' (pre ++ post) =
          rw (without-middle pre x post q.distinct) at u.queue in
        let same = survivors-same s.current s'.current s.tasks s'.tasks post u.current u.kept in
        rw next (
          Reaped-trans (pre ++ survivors s.current s.tasks post)
            (pre ++ survivors s'.current s'.tasks post) s s'
            (reap_loop walk fuel (first_of post) s') (ap (λ l. pre ++ l) same) u.kept u.current
            (rec s' rest))

-- With more fuel than tasks reap ends; the list keeps in their order the tasks that are not DEAD,
-- and the current one, and no task changes its state.
pub reap-Reaped :
    (fuel : ℕ) (xs : List ℕ) (s : Sched)
    → IsQueue s xs
    → length xs < fuel
    → Reaped (survivors s.current s.tasks xs) s (reap fuel s)
unfolding reap
reap-Reaped fuel xs s q f =
    simp (Chain-first s.tasks s.head xs q.chain) (reap_loop-Reaped fuel fuel [] xs s q f f)
