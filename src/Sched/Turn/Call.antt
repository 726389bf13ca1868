-- ===== src/Sched/Turn/Call.antt =====
-- A call of schedule, src/kernel/sched/scheduler.cpp: reap, the saving of the registers, the choice.
use los_tac_os.Base.{
  ℕ, ◌<◌, ◌≤◌, ◌≡◌, refl, sym, ap, ◌∙◌, true, false, Option, none, some, List, [], ◌∷◌, ◌==◌, arith,
  length, Bool-cases, inl, inr,
}
use mathlib.Core.Path.{subst}
use los_tac_os.Sched.{
  Task, Sched, is_dead, is_running, save_current, pick, after_reap, reap, schedule,
}
use los_tac_os.Sched.Chain.{Chain, has, IsQueue}
use los_tac_os.Sched.Reap.{is_reapable, survivors, Reaped, reaped, reap-Reaped}
use los_tac_os.Sched.Turn.{Scheduled, runs, idle, Saved, save_current-Saved}
use los_tac_os.Sched.Turn.Whole.{pick-Scheduled}

-- The current task is of the list, and no other is RUNNING.
pub record IsSteady (s : Sched) (xs : List ℕ) : Type 0 where
  pub queue : IsQueue s xs
  pub inside : (c : ℕ) → s.current ≡ some c → has c xs ≡ true
  pub single : (a : ℕ) → has a xs ≡ true → is_running (s.tasks a).state ≡ true → s.current ≡ some a

Scheduled-same :
    (old : ℕ) (ys : List ℕ) (s s1 : Sched) (o : Option (ℕ × Sched))
    → ((a : ℕ) → is_dead (s1.tasks a).state ≡ is_dead (s.tasks a).state)
    → Scheduled old ys s1 o
    → Scheduled old ys s o
Scheduled-same old ys s s1 _ k (runs t r s' q h d c v only e) =
    runs t r s' q h (sym (k t) ∙ d) c v only e
Scheduled-same old ys s s1 _ k (idle s' q d) = idle s' q (λ a h. sym (k a) ∙ d a h)

after_reap-Scheduled :
    (fuel old : ℕ) (s : Sched) (ys : List ℕ)
    → IsSteady s ys
    → length ys ≤ fuel
    → Scheduled old ys s (after_reap fuel old s)
unfolding after_reap
after_reap-Scheduled fuel old s ys w f =
    Scheduled-same old ys s s1 (after_reap fuel old s) k.dead_too (go s1.head refl)
  where
    s1 : Sched
    s1 = save_current old s

    k : Saved s s1
    k = save_current-Saved old s

    calm : (a : ℕ) → has a ys ≡ true → is_running (s1.tasks a).state ≡ false
    calm a h = k.idle a (w.single a h)

    nobody :
        (ys : List ℕ) (a : ℕ)
        → Chain s1.tasks none ys
        → has a ys ≡ true
        → is_dead (s1.tasks a).state ≡ true
    nobody [] a c h = cc
    nobody (y ∷ ys) a c h = cc

    go :
        (o : Option ℕ)
        → s1.head ≡ o
        → Scheduled old ys s1 (elim o [ none ↦ some (old, s1) | some head ↦ pick fuel old head s1 ])
    go none e =
        idle s1 (k.list ys w.queue)
          (λ a h. nobody ys a (subst (λ p. Chain s1.tasks p ys) e (k.list ys w.queue).chain) h)
    go (some head) e =
        pick-Scheduled fuel old head s1 ys
          record {
            queue = k.list ys w.queue;
            first = e;
            inside = λ c g. w.inside c (sym k.current ∙ g);
            calm = calm;
          }
          f

survivors-has :
    (c : Option ℕ) (m : ℕ → Task) (a : ℕ) (xs : List ℕ)
    → has a (survivors c m xs) ≡ true
    → has a xs ≡ true
survivors-has c m a [] h = h
survivors-has c m a (x ∷ xs) h = elim (Bool-cases (is_reapable c m x)) [
  | inl e ↦ ground (arith, survivors-has c m a xs)
  | inr e ↦ ground (arith, survivors-has c m a xs)
]

-- The current task survives.
survivors_current :
    (c : Option ℕ) (m : ℕ → Task) (a : ℕ) (xs : List ℕ)
    → c ≡ some a
    → has a xs ≡ true
    → has a (survivors c m xs) ≡ true
survivors_current c m a [] e h = h
survivors_current c m a (x ∷ xs) e h = elim (Bool-cases (is_reapable c m x)) [
  | inl g ↦
      let other : (a == x) ≡ false = ground (arith, e) in
      rw g (survivors_current c m a xs e (ground arith))
  | inr g ↦ elim (Bool-cases (a == x)) [
    | inl y ↦ rw g (ground arith)
    | inr n ↦ rw g (ground (arith, survivors_current c m a xs e))
  ]
]

survivors-length :
    (c : Option ℕ) (m : ℕ → Task) (xs : List ℕ) → length (survivors c m xs) ≤ length xs
survivors-length c m [] = omega arith
survivors-length c m (x ∷ xs) = elim (Bool-cases (is_reapable c m x)) [
  | inl e ↦ rw e (omega (arith, survivors-length c m xs))
  | inr e ↦ rw e (omega (arith, survivors-length c m xs))
]

-- With more fuel than tasks, in a list that holds the current task and in which no other is RUNNING,
-- schedule ends. Of the list it leaves the tasks that were not DEAD, and the current one, in their
-- order. It returns the registers of a task of these that was not DEAD, which is then the current
-- one and the only one that is RUNNING, or the old registers where all of these were DEAD.
pub schedule-Scheduled :
    (fuel old : ℕ) (s : Sched) (xs : List ℕ)
    → IsSteady s xs
    → length xs < fuel
    → Scheduled old (survivors s.current s.tasks xs) s (schedule fuel old s)
unfolding schedule
schedule-Scheduled fuel old s xs w f = onward (reap fuel s) (reap-Reaped fuel xs s w.queue f)
  where
    ys : List ℕ
    ys = survivors s.current s.tasks xs

    onward :
        (o : Option Sched)
        → Reaped ys s o
        → Scheduled old ys s (elim o [ none ↦ none | some s' ↦ after_reap fuel old s' ])
    onward _ (reaped s' q kept c) =
        Scheduled-same old ys s s' (after_reap fuel old s') (λ a. ap is_dead (kept a))
          (after_reap-Scheduled fuel old s' ys
            record {
              queue = q;
              inside = λ b g.
                  let g' : s.current ≡ some b = sym c ∙ g in
                  survivors_current s.current s.tasks b xs g' (w.inside b g');
              single = λ a h r.
                  c
                  ∙ w.single a (survivors-has s.current s.tasks a xs h)
                      (ap is_running (sym (kept a)) ∙ r);
            }
            (omega (arith, survivors-length s.current s.tasks xs)))
