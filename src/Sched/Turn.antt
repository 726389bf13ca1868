-- ===== src/Sched/Turn.antt =====
-- schedule of src/kernel/sched/scheduler.cpp as a whole: which task runs next.
pub mod Whole
pub mod Call
use los_tac_os.Base.{
  ℕ, zero, suc, ◌+◌, ◌≤◌, ◌<◌, ◌≡◌, ◌≢◌, ◌⊎◌, refl, sym, ap, ◌∙◌, Bool, true, false, ◌&&◌, not,
  Option, none, some, List, [], ◌∷◌, ◌++◌, ◌==◌, update, if◌then◌else◌, arith, length,
  length-append, Bool-cases, Option-cases, inl, inr,
}
use los_tac_os.Sched.{
  Task, Sched, State, ready, running, blocked, dead, is_ready, is_dead, is_running, points_at,
  set_state, successor, find_ready, find_alive, switch_to, fall_back, save_current, first_candidate,
  pick, after_reap, reap, schedule,
}
use los_tac_os.Sched.Chain.{Chain, Chain-same, has, Distinct, IsQueue, has-append}
use los_tac_os.Sched.Pick.{first_ready, find_ready-first}
use los_tac_os.Sched.Reap.{
  first_of, Chain-first, Chain-next, survivors, Reaped, reaped, reap-Reaped,
}

-- The first task that is not DEAD.
abbrev pub first_alive : (ℕ → Task) → List ℕ → Option ℕ
first_alive tasks [] = none
first_alive tasks (x ∷ xs) = if is_dead (tasks x).state then first_alive tasks xs else some x

pub find_alive-first :
    (fuel head : ℕ) (tasks : ℕ → Task) (t : ℕ) (post : List ℕ)
    → Chain tasks (tasks t).next post
    → has head post ≡ false
    → length post < fuel
    → find_alive fuel head tasks t ≡ some (first_alive tasks (t ∷ post))
unfolding find_alive
find_alive-first zero head tasks t post c h f = absurd (omega arith)
find_alive-first (suc fuel) head tasks t [] c h f = elim (Bool-cases (is_dead (tasks t).state)) [
  | inl d ↦
      let around : successor head tasks t ≡ head = rw (c, successor) refl in
      rw (d, around) (ground arith)
  | inr d ↦ rw d refl
]
find_alive-first (suc fuel) head tasks t (y ∷ ys) c h f =
    let ne : (y == head) ≡ false = ground arith in
    elim (Bool-cases (is_dead (tasks t).state)) [
      | inl d ↦
          let n : successor head tasks t ≡ y = rw (c.0, successor) refl in
          rw (d, n, ne) (find_alive-first fuel head tasks y ys c.1 (ground arith) (omega arith))
      | inr d ↦ rw d refl
    ]

-- The saving of the registers changes neither the list nor who is DEAD; nobody is RUNNING then if
-- nobody but the current task was.
pub record Saved (s s' : Sched) : Type 0 where
  pub list : (xs : List ℕ) → IsQueue s xs → IsQueue s' xs
  pub head : s'.head ≡ s.head
  pub current : s'.current ≡ s.current
  pub dead_too : (a : ℕ) → is_dead (s'.tasks a).state ≡ is_dead (s.tasks a).state
  pub idle :
      (a : ℕ)
      → (is_running (s.tasks a).state ≡ true → s.current ≡ some a)
      → is_running (s'.tasks a).state ≡ false

abbrev saved_task : ℕ → Task → Task
saved_task old v = record v { regs = old; state = if is_running v.state then ready else v.state }

abbrev saved : ℕ → ℕ → Sched → Sched
saved old t s = record s { tasks = update s.tasks t (saved_task old (s.tasks t)) }

-- RUNNING becomes READY.
abbrev paused : State → State
paused v = if is_running v then ready else v

paused_dead : (v : State) → is_dead (paused v) ≡ is_dead v
paused_dead ready = refl
paused_dead running = refl
paused_dead blocked = refl
paused_dead dead = refl

paused_idle : (v : State) → is_running (paused v) ≡ false
paused_idle ready = refl
paused_idle running = refl
paused_idle blocked = refl
paused_idle dead = refl

saved_next : (old t : ℕ) (s : Sched) (a : ℕ) → ((saved old t s).tasks a).next ≡ (s.tasks a).next
saved_next old t s a = ground arith

saved_dead :
    (old t : ℕ) (s : Sched) (a : ℕ)
    → is_dead ((saved old t s).tasks a).state ≡ is_dead (s.tasks a).state
saved_dead old t s a = elim (Bool-cases (a == t)) [
  | inl e ↦
      let same : a ≡ t = ground arith in
      rw e (paused_dead (s.tasks t).state ∙ ap (λ b. is_dead (s.tasks b).state) (sym same))
  | inr e ↦ ground arith
]

saved_idle :
    (old t : ℕ) (s : Sched) (a : ℕ)
    → (is_running (s.tasks a).state ≡ true → t ≡ a)
    → is_running ((saved old t s).tasks a).state ≡ false
saved_idle old t s a h = elim (Bool-cases (a == t)) [
  | inl e ↦ rw e (paused_idle (s.tasks t).state)
  | inr e ↦ rw e (elim (Bool-cases (is_running (s.tasks a).state)) [
    | inl r ↦ absurd (ground (arith, h r))
    | inr r ↦ r
  ])
]

saved-Saved : (old t : ℕ) (s : Sched) → s.current ≡ some t → Saved s (saved old t s)
saved-Saved old t s e = record {
  list = λ xs q. record {
    chain =
        Chain-same s.tasks (saved old t s).tasks s.head xs (λ a h. saved_next old t s a) q.chain;
    distinct = q.distinct;
    last = q.last;
  };
  head = refl;
  current = refl;
  dead_too = saved_dead old t s;
  idle = λ a h. saved_idle old t s a (λ r. ground (arith, h r, e));
}

unsaved-Saved : (s : Sched) → s.current ≡ none → Saved s s
unsaved-Saved s e = record {
  list = λ xs q. q;
  head = refl;
  current = refl;
  dead_too = λ a. refl;
  idle = λ a h. elim (Bool-cases (is_running (s.tasks a).state)) [
    | inl r ↦ absurd (ground (arith, h r, e))
    | inr r ↦ r
  ];
}

pub save_current-Saved : (old : ℕ) (s : Sched) → Saved s (save_current old s)
unfolding save_current
save_current-Saved old s = go s.current refl
  where
    go : (o : Option ℕ) → s.current ≡ o → Saved s (elim o [ none ↦ s | some t ↦ saved old t s ])
    go none e = unsaved-Saved s e
    go (some t) e = saved-Saved old t s e

-- The state in which `t` runs.
abbrev pub dispatch : ℕ → Sched → Sched
dispatch t s = record (set_state t running s) { current = some t }

pub switch_to-dispatch :
    (t : ℕ) (s : Sched)
    → ((switch_to t s).0 ≡ (s.tasks t).regs)
      × (((switch_to t s).1.tasks ≡ (dispatch t s).tasks)
          × (((switch_to t s).1.head ≡ s.head)
              × (((switch_to t s).1.tail ≡ s.tail) × ((switch_to t s).1.current ≡ some t))))
unfolding switch_to
switch_to-dispatch t s = elim (Option-cases (s.tasks t).process) [
  | inl e ↦ ground (arith, e)
  | inr (p, e) ↦ ground (arith, e)
]

-- The result of schedule over the list `ys`: the registers of a task of the list that was not DEAD
-- and is the current one, the only one that is RUNNING; or the old registers, where all are DEAD.
pub data Scheduled (old : ℕ) (ys : List ℕ) (s : Sched) : Option (ℕ × Sched) → Type 0 where
  runs :
      (t r : ℕ) (s' : Sched)
      → IsQueue s' ys
      → has t ys ≡ true
      → is_dead (s.tasks t).state ≡ false
      → s'.current ≡ some t
      → (s'.tasks t).state ≡ running
      → ((a : ℕ) → has a ys ≡ true → a ≢ t → is_running (s'.tasks a).state ≡ false)
      → r ≡ (s'.tasks t).regs
      → Scheduled old ys s (some (r, s'))
  idle :
      (s' : Sched)
      → IsQueue s' ys
      → ((a : ℕ) → has a ys ≡ true → is_dead (s.tasks a).state ≡ true)
      → Scheduled old ys s (some (old, s'))

pub first_alive-none :
    (tasks : ℕ → Task) (xs : List ℕ) (a : ℕ)
    → first_alive tasks xs ≡ none
    → has a xs ≡ true
    → is_dead (tasks a).state ≡ true
first_alive-none tasks [] a e h = cc
first_alive-none tasks (x ∷ xs) a e h = elim (Bool-cases (is_dead (tasks x).state)) [
  | inr d ↦ absurd (ground (arith, e))
  | inl d ↦ elim (Bool-cases (a == x)) [
    | inl y ↦ let same : a ≡ x = ground arith in ap (λ b. is_dead (tasks b).state) same ∙ d
    | inr y ↦ first_alive-none tasks xs a (ground arith) (ground arith)
  ]
]

pub first_alive-some :
    (tasks : ℕ → Task) (xs : List ℕ) (t : ℕ)
    → first_alive tasks xs ≡ some t
    → (has t xs ≡ true) × (is_dead (tasks t).state ≡ false)
first_alive-some tasks [] t e = cc
first_alive-some tasks (x ∷ xs) t e = elim (Bool-cases (is_dead (tasks x).state)) [
  | inr d ↦
      let same : t ≡ x = ground arith in (ground arith, ap (λ b. is_dead (tasks b).state) same ∙ d)
  | inl d ↦ let (h, k) = first_alive-some tasks xs t (ground arith) in (ground arith, k)
]

-- The state after a task was chosen, whatever it hands to the processor.
pub dispatch-runs :
    (old t r : ℕ) (ys : List ℕ) (s s' : Sched)
    → IsQueue s ys
    → ((a : ℕ) → has a ys ≡ true → is_running (s.tasks a).state ≡ false)
    → has t ys ≡ true
    → is_dead (s.tasks t).state ≡ false
    → s'.tasks ≡ (dispatch t s).tasks
    → s'.head ≡ s.head
    → s'.tail ≡ s.tail
    → s'.current ≡ some t
    → r ≡ (s.tasks t).regs
    → Scheduled old ys s (some (r, s'))
dispatch-runs old t r ys s s' q calm h d tasks head tail current regs =
    let next : (a : ℕ) → (s'.tasks a).next ≡ (s.tasks a).next =
      λ a. ap (λ m. (m a).next) tasks ∙ ground arith in
    let chain : Chain s'.tasks s.head ys =
      Chain-same s.tasks s'.tasks s.head ys (λ a k. next a) q.chain in
    runs t r s' record { chain = rw head chain; distinct = q.distinct; last = tail ∙ q.last } h d
      current (ap (λ m. (m t).state) tasks ∙ ground arith)
      (λ a k ne. ap (λ m. is_running (m a).state) tasks ∙ ground (arith, ne, calm a k))
      (regs ∙ sym (ap (λ m. (m t).regs) tasks ∙ ground arith))
