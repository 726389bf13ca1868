-- ===== src/Sched.antt =====
-- The task list and the scheduler, src/kernel/sched/scheduler.cpp. A task is its address, and
-- `tasks` the memory of the tasks; a pointer is an Option. A loop over the list takes fuel, and
-- `none` says that the fuel ran out.
pub mod Chain
pub mod Add
mod Before
pub mod Remove
pub mod Pick
pub mod Reap
pub mod Turn
mod Tests
use los_tac_os.Base.{
  ℕ, zero, suc, ◌+◌, ◌*◌, Bool, true, false, ◌&&◌, ◌||◌, not, Option, none, some, List, [], ◌∷◌,
  ◌==◌, if◌then◌else◌, update,
}
use los_tac_os.Base.Int.{ℤ}

pub data State : Type 0 where
  ready running blocked dead : State

pub record Task : Type 0 where
  pub pid : ℕ
  pub regs : ℕ
  pub stack : ℕ
  pub process : Option ℕ
  pub state : State
  pub parent : Option ℕ
  pub exit_code : ℤ
  pub next : Option ℕ

-- What leaves the scheduler: the blocks that it gives back, the stack that it hands to the GDT and
-- the process whose address space it activates.
pub data Event : Type 0 where
  destroy_space free_process free_stack free_task set_kernel_stack activate : ℕ → Event

-- `has_space` says of a process whether its `space` is not null.
pub record Sched : Type 0 where
  pub tasks : ℕ → Task
  pub head : Option ℕ
  pub tail : Option ℕ
  pub current : Option ℕ
  pub has_space : ℕ → Bool
  pub events : List Event

abbrev pub is_ready : State → Bool
is_ready ready = true
is_ready _ = false

abbrev pub is_dead : State → Bool
is_dead dead = true
is_dead _ = false

abbrev pub is_running : State → Bool
is_running running = true
is_running _ = false

abbrev pub is_blocked : State → Bool
is_blocked blocked = true
is_blocked _ = false

-- Two pointers are equal, of which the second is not null.
abbrev pub points_at : Option ℕ → ℕ → Bool
points_at none t = false
points_at (some a) t = a == t

abbrev pub set_task : ℕ → Task → Sched → Sched
set_task t v s = record s { tasks = update s.tasks t v }

abbrev pub set_state : ℕ → State → Sched → Sched
set_state t v s = set_task t (record (s.tasks t) { state = v }) s

abbrev pub set_next : ℕ → Option ℕ → Sched → Sched
set_next t n s = set_task t (record (s.tasks t) { next = n }) s

abbrev pub emit : Event → Sched → Sched
emit e s = record s { events = e ∷ s.events }

-- `tail` is not null where `head` is not; a null `tail` there would be a fault, and is left alone.
pub add : ℕ → Sched → Sched
add task s =
    let s = set_next task none s in
    elim s.head [
      | none ↦ record s { head = some task; tail = some task }
      | some _ ↦ elim s.tail [
        | none ↦ s
        | some t ↦ record (set_next t (some task) s) { tail = some task }
      ]
    ]

pub destroy_task : ℕ → Sched → Sched
destroy_task task s =
    let s' = if (s.tasks task).stack == 0 then s else emit (free_stack (s.tasks task).stack) s in
    emit (free_task task) s'

-- The walk to the node before `task`: `some none` where there is none.
pub walk_before : ℕ → ℕ → Option ℕ → Sched → Option (Option ℕ)
walk_before zero task t s = none
walk_before (suc fuel) task none s = some none
walk_before (suc fuel) task (some t) s =
    let rest = walk_before fuel task (s.tasks t).next s in
    if points_at (s.tasks t).next task then some (some t) else rest

-- The first half of remove_and_destroy: the task leaves the list.
pub unlink : ℕ → ℕ → Sched → Option Sched
unlink fuel task s =
    let n = (s.tasks task).next in
    if points_at s.head task
    then some (record s { head = n; tail = if points_at s.tail task then n else s.tail })
    else elim (walk_before fuel task s.head s) [
      | none ↦ none
      | some none ↦ some s
      | some (some t) ↦
          some (record (set_next t n s) { tail = if points_at s.tail task then some t else s.tail })
    ]

-- The second half: the process and the task are given back.
pub release : ℕ → Sched → Sched
release task s = elim (s.tasks task).process [
  | none ↦ destroy_task task s
  | some p ↦
      let s' = if s.has_space p then emit (destroy_space p) s else s in
      destroy_task task (emit (free_process p) s')
]

pub remove_and_destroy : ℕ → ℕ → Sched → Option Sched
remove_and_destroy fuel task s =
    if points_at s.current task
    then some s
    else elim (unlink fuel task s) [ none ↦ none | some s' ↦ some (release task s') ]

-- The loop of reap, from the node `t` on; `walk` is the fuel of each removal.
pub reap_loop : ℕ → ℕ → Option ℕ → Sched → Option Sched
reap_loop walk zero t s = none
reap_loop walk (suc fuel) none s = some s
reap_loop walk (suc fuel) (some t) s =
    let next = (s.tasks t).next in
    elim (is_dead (s.tasks t).state && not (points_at s.current t)) [
      | true ↦ elim (remove_and_destroy walk t s) [
        | none ↦ none
        | some s' ↦ reap_loop walk fuel next s'
      ]
      | false ↦ reap_loop walk fuel next s
    ]

pub reap : ℕ → Sched → Option Sched
reap fuel s = reap_loop fuel fuel s.head s

-- t->next, or the head at the end of the list.
abbrev pub successor : ℕ → (ℕ → Task) → ℕ → ℕ
successor head tasks t = elim (tasks t).next [ none ↦ head | some n ↦ n ]

-- The loop of schedule for a READY task, from `t` on and back to `start`.
pub find_ready : ℕ → (head start : ℕ) → (ℕ → Task) → ℕ → Option ℕ
find_ready zero head start tasks t = none
find_ready (suc fuel) head start tasks t =
    let n = successor head tasks t in
    let rest = find_ready fuel head start tasks n in
    if is_ready (tasks t).state then some t else if n == start then some n else rest

-- The second loop, for a task that is not DEAD, from the head on.
pub find_alive : ℕ → (head : ℕ) → (ℕ → Task) → ℕ → Option (Option ℕ)
find_alive zero head tasks t = none
find_alive (suc fuel) head tasks t =
    let n = successor head tasks t in
    let rest = find_alive fuel head tasks n in
    if is_dead (tasks t).state then (if n == head then some none else rest) else some (some t)

-- What schedule does with the task that it chose; the result is its registers.
pub switch_to : ℕ → Sched → ℕ × Sched
switch_to t s =
    let s = record (set_state t running s) { current = some t } in
    let s =
      if (s.tasks t).stack == 0 then s else emit (set_kernel_stack ((s.tasks t).stack + 8192)) s in
    (
      (s.tasks t).regs,
      elim (s.tasks t).process [
        | none ↦ s
        | some p ↦ if s.has_space p then emit (activate p) s else s
      ],
    )

-- No task is READY: the first that is not DEAD, or the old registers.
pub fall_back : ℕ → ℕ → ℕ → Sched → Option (ℕ × Sched)
fall_back fuel old head s = elim (find_alive fuel head s.tasks head) [
  | none ↦ none
  | some none ↦ some (old, s)
  | some (some t) ↦ some ((s.tasks t).regs, record (set_state t running s) { current = some t })
]

-- The registers of the task that is left, which becomes READY if it was RUNNING.
pub save_current : ℕ → Sched → Sched
save_current old s = elim s.current [
  | none ↦ s
  | some t ↦
      let v = s.tasks t in
      set_task t (record v { regs = old; state = if is_running v.state then ready else v.state }) s
]

abbrev pub first_candidate : ℕ → Sched → ℕ
first_candidate head s = elim s.current [ none ↦ head | some t ↦ successor head s.tasks t ]

-- From the choice of the first candidate on, with a list that is not empty.
pub pick : ℕ → ℕ → ℕ → Sched → Option (ℕ × Sched)
pick fuel old head s =
    let start = first_candidate head s in
    elim (find_ready fuel head start s.tasks start) [
      | none ↦ none
      | some t ↦
          if is_ready (s.tasks t).state then some (switch_to t s) else fall_back fuel old head s
    ]

pub after_reap : ℕ → ℕ → Sched → Option (ℕ × Sched)
after_reap fuel old s =
    let s = save_current old s in
    elim s.head [ none ↦ some (old, s) | some head ↦ pick fuel old head s ]

pub schedule : ℕ → ℕ → Sched → Option (ℕ × Sched)
schedule fuel old s = elim (reap fuel s) [ none ↦ none | some s' ↦ after_reap fuel old s' ]

pub set_current_regs : ℕ → Sched → Sched
set_current_regs r s = elim s.current [
  | none ↦ s
  | some t ↦ set_task t (record (s.tasks t) { regs = r }) s
]

-- find(pid), from the node `t` on.
pub find_loop : ℕ → ℕ → Option ℕ → Sched → Option (Option ℕ)
find_loop zero pid t s = none
find_loop (suc fuel) pid none s = some none
find_loop (suc fuel) pid (some t) s =
    let rest = find_loop fuel pid (s.tasks t).next s in
    if (s.tasks t).pid == pid then some (some t) else rest

pub find : ℕ → ℕ → Sched → Option (Option ℕ)
find fuel pid s = find_loop fuel pid s.head s

-- The marks that exit makes before it schedules: the task is DEAD, a BLOCKED parent READY.
pub mark_exit : ℕ → ℤ → Sched → Sched
mark_exit t code s =
    let s = set_task t (record (s.tasks t) { exit_code = code; state = dead }) s in
    elim (s.tasks t).parent [
      | none ↦ s
      | some p ↦ if is_blocked (s.tasks p).state then set_state p ready s else s
    ]

-- exit(code), up to the jump to the registers that it returns.
pub exit : ℕ → ℤ → Sched → Option (Option ℕ × Sched)
exit fuel code s = elim s.current [
  | none ↦ some (none, s)
  | some t ↦
      let s = mark_exit t code s in
      elim (schedule fuel (s.tasks t).regs s) [ none ↦ none | some (r, s') ↦ some (some r, s') ]
]
