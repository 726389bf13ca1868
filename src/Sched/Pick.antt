-- ===== src/Sched/Pick.antt =====
-- The choice of schedule in src/kernel/sched/scheduler.cpp: the loop for a READY task.
use los_tac_os.Base.{
  ℕ, zero, suc, ◌≤◌, ◌<◌, ◌≡◌, false, Option, some, List, [], ◌∷◌, ◌++◌, ◌==◌, if◌then◌else◌, arith,
  length, length-append,
}
use los_tac_os.Sched.{Task, is_ready, successor, find_ready}
use los_tac_os.Sched.Chain.{Chain, has}

-- The tasks that the loop visits after `t`, until it is back at `start`.
abbrev Around : ℕ → ℕ → (ℕ → Task) → ℕ → List ℕ → Type 0
Around head start tasks t [] = successor head tasks t ≡ start
Around head start tasks t (y ∷ ys) =
    (successor head tasks t ≡ y) × (((y == start) ≡ false) × Around head start tasks y ys)

-- The first READY task, or `start`.
abbrev pub first_ready : (ℕ → Task) → ℕ → List ℕ → ℕ
first_ready tasks start [] = start
first_ready tasks start (x ∷ xs) =
    if is_ready (tasks x).state then x else first_ready tasks start xs

find_ready-Around :
    (fuel head start : ℕ) (tasks : ℕ → Task) (t : ℕ) (ys : List ℕ)
    → Around head start tasks t ys
    → length ys < fuel
    → find_ready fuel head start tasks t ≡ some (first_ready tasks start (t ∷ ys))
unfolding find_ready
find_ready-Around zero head start tasks t ys a f = absurd (omega arith)
find_ready-Around (suc fuel) head start tasks t [] a f = rw a (ground arith)
find_ready-Around (suc fuel) head start tasks t (y ∷ ys) a f =
    rw (a.0, a.1.0)
      (rw (find_ready-Around fuel head start tasks y ys a.1.1 (omega arith)) (ground arith))

-- The part of the list before `start`, up to it.
Around-before :
    (head start : ℕ) (tasks : ℕ → Task) (t : ℕ) (ps post : List ℕ)
    → Chain tasks (tasks t).next (ps ++ start ∷ post)
    → has start ps ≡ false
    → Around head start tasks t ps
Around-before head start tasks t [] post c h = ground (arith, c.0)
Around-before head start tasks t (p ∷ ps) post c h = (
  ground (arith, c.0),
  (ground arith, Around-before head start tasks p ps post c.1 (ground arith)),
)

-- The part behind it, and on from the head.
Around-behind :
    (head start : ℕ) (tasks : ℕ → Task) (t : ℕ) (qs pre post : List ℕ)
    → Chain tasks (tasks t).next qs
    → has start qs ≡ false
    → Chain tasks (some head) (pre ++ start ∷ post)
    → has start pre ≡ false
    → Around head start tasks t (qs ++ pre)
Around-behind head start tasks t [] [] post c h d g = ground (arith, c, d.0)
Around-behind head start tasks t [] (p ∷ ps) post c h d g = (
  ground (arith, c, d.0),
  (ground arith, Around-before head start tasks p ps post d.1 (ground arith)),
)
Around-behind head start tasks t (q ∷ qs) pre post c h d g = (
  ground (arith, c.0),
  (ground arith, Around-behind head start tasks q qs pre post c.1 (ground arith) d g),
)

Chain-behind :
    (tasks : ℕ → Task) (p : Option ℕ) (pre : List ℕ) (x : ℕ) (post : List ℕ)
    → Chain tasks p (pre ++ x ∷ post)
    → Chain tasks (tasks x).next post
Chain-behind tasks p [] x post c = c.1
Chain-behind tasks p (y ∷ pre) x post c = Chain-behind tasks (tasks y).next pre x post c.1

-- From the candidate `start` the loop of schedule goes round the list once: with more fuel than
-- tasks it ends, at the first READY task among `start`, those behind it and those before it in
-- this order, and at `start` when no task is READY.
pub find_ready-first :
    (fuel head start : ℕ) (tasks : ℕ → Task) (pre post : List ℕ)
    → Chain tasks (some head) (pre ++ start ∷ post)
    → has start pre ≡ false
    → has start post ≡ false
    → length (pre ++ start ∷ post) ≤ fuel
    → find_ready fuel head start tasks start
      ≡ some (first_ready tasks start (start ∷ (post ++ pre)))
find_ready-first fuel head start tasks pre post c g h f =
    find_ready-Around fuel head start tasks start (post ++ pre)
      (Around-behind head start tasks start post pre post
        (Chain-behind tasks (some head) pre start post c) h c g)
      (ground (arith, length-append pre (start ∷ post), length-append post pre))
