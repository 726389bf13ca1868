-- ===== src/Sched/Tests.antt =====
-- The task list of src/kernel/sched/scheduler.cpp with two tasks.
use los_tac_os.Base.{ℕ, refl, false, Option, none, some, [], ◌∷◌, ◌==◌, if◌then◌else◌, arith}
use los_tac_os.Base.Int.{pos}
use los_tac_os.Sched.{Task, Sched, State, ready, blocked, remove_and_destroy, schedule}
use los_tac_os.Sched.Chain.{IsQueue}
use los_tac_os.Sched.Remove.{Leaves, remove_and_destroy-Leaves}
use los_tac_os.Sched.Reap.{survivors}
use los_tac_os.Sched.Turn.{Scheduled}
use los_tac_os.Sched.Turn.Call.{IsSteady, schedule-Scheduled}

abbrev task_at : State → Option ℕ → Task
task_at v n = record {
  pid = 1;
  regs = 0;
  stack = 0;
  process = none;
  state = v;
  parent = none;
  exit_code = pos 0;
  next = n;
}

-- The tasks 10, which is blocked and current, and 20, which is ready.
abbrev two_tasks : Sched
two_tasks = record {
  tasks = λ a. if a == 10 then task_at blocked (some 20) else task_at ready none;
  head = some 10;
  tail = some 20;
  current = some 10;
  has_space = λ _. false;
  events = [];
}

two_tasks-IsQueue : IsQueue two_tasks (10 ∷ (20 ∷ []))
two_tasks-IsQueue = record {
  chain = (refl, (refl, refl));
  distinct = (refl, (refl, tt));
  last = refl;
}

remove_and_destroy-Leaves_example :
    Leaves 20 (10 ∷ (20 ∷ [])) two_tasks (remove_and_destroy 3 20 two_tasks)
remove_and_destroy-Leaves_example =
    remove_and_destroy-Leaves 3 20 (10 ∷ (20 ∷ [])) two_tasks two_tasks-IsQueue refl refl
      (omega arith)

two_tasks-IsSteady : IsSteady two_tasks (10 ∷ (20 ∷ []))
two_tasks-IsSteady = record {
  queue = two_tasks-IsQueue;
  inside = λ c e. ground (arith, e);
  single = λ a h r. ground arith;
}

schedule-Scheduled_example :
    Scheduled 77
      (survivors two_tasks.current two_tasks.tasks (10 ∷ (20 ∷ [])))
      two_tasks
      (schedule 3 77 two_tasks)
schedule-Scheduled_example =
    schedule-Scheduled 3 77 two_tasks (10 ∷ (20 ∷ [])) two_tasks-IsSteady (omega arith)
