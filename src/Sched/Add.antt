-- ===== src/Sched/Add.antt =====
-- add of src/kernel/sched/scheduler.cpp.
use los_tac_os.Base.{
  ℕ, ◌≡◌, ◌≢◌, sym, ◌∙◌, true, false, Option, none, some, List, [], ◌∷◌, ◌++◌, arith, Option-cases,
  inl, inr,
}
use los_tac_os.Sched.{Task, Sched, add}
use los_tac_os.Sched.Chain.{
  Chain, has, Distinct, last_of, IsQueue, Distinct-snoc, last_of-snoc, has_last, last_of-none,
}

-- Linking a node behind the last one of a chain that is not empty.
Chain-snoc :
    (tasks tasks' : ℕ → Task) (p : Option ℕ) (xs : List ℕ) (t a : ℕ)
    → Chain tasks p xs
    → Distinct xs
    → last_of xs ≡ some t
    → (tasks' t).next ≡ some a
    → (tasks' a).next ≡ none
    → ((b : ℕ) → has b xs ≡ true → b ≢ t → (tasks' b).next ≡ (tasks b).next)
    → Chain tasks' p (xs ++ a ∷ [])
Chain-snoc tasks tasks' p [] t a c d l e z same = cc
Chain-snoc tasks tasks' p (x ∷ []) t a c d l e z same = ground (arith, c.0)
Chain-snoc tasks tasks' p (x ∷ (y ∷ ys)) t a c d l e z same =
    let other : x ≢ t = λ q. ground (arith, has_last (y ∷ ys) t l, d.0) in
    let kept : (tasks' x).next ≡ (tasks x).next = same x (ground arith) other in
    (
      c.0,
      Chain-snoc tasks tasks' (tasks' x).next (y ∷ ys) t a (kept ∙ c.1.0, c.1.1) d.1 l e z
          (λ b h ne. same b (ground arith) ne),
    )

-- The fields of a task but `next`.
pub record SameTask (v w : Task) : Type 0 where
  pub pid : w.pid ≡ v.pid
  pub regs : w.regs ≡ v.regs
  pub state : w.state ≡ v.state
  pub process : w.process ≡ v.process
  pub stack : w.stack ≡ v.stack
  pub parent : w.parent ≡ v.parent
  pub exit_code : w.exit_code ≡ v.exit_code

-- add puts a task that is not in the list behind the last one, and changes no field of any task
-- but `next`.
pub add-IsQueue :
    (task : ℕ) (s : Sched) (xs : List ℕ)
    → IsQueue s xs
    → has task xs ≡ false
    → IsQueue (add task s) (xs ++ task ∷ [])
      × ((a : ℕ) → SameTask (s.tasks a) ((add task s).tasks a))
unfolding add
add-IsQueue task s [] q h = (
  record {
    chain = ground (arith, q.chain);
    distinct = ground arith;
    last = ground (arith, q.chain);
  },
  λ a. ground (arith, q.chain),
)
add-IsQueue task s (x ∷ xs) q h = elim (Option-cases s.tail) [
  | inl e ↦ absurd (ground (arith, last_of-none (x ∷ xs) (sym q.last ∙ e)))
  | inr (t, e) ↦
      let l : last_of (x ∷ xs) ≡ some t = sym q.last ∙ e in
      let ne : t ≢ task = λ w. ground (arith, has_last (x ∷ xs) t l) in
      let head_kept : (add task s).head ≡ some x = ground (arith, e, q.chain.0) in
      let tail_moved : (add task s).tail ≡ some task = ground (arith, e, q.chain.0) in
      (
        record {
          chain =
              Chain-snoc s.tasks (add task s).tasks (add task s).head (x ∷ xs) t task
                (head_kept, q.chain.1) q.distinct l (ground (arith, e, q.chain.0))
                (ground (arith, e, q.chain.0)) (λ b w m. ground (arith, e, q.chain.0, w, m));
          distinct = Distinct-snoc (x ∷ xs) task q.distinct h;
          last = tail_moved ∙ sym (last_of-snoc (x ∷ xs) task);
        },
        λ a. ground (arith, q.chain.0),
      )
]
