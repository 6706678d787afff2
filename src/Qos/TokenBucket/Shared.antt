-- ===== src/Qos/TokenBucket/Shared.antt =====
-- src/qos/token_bucket.rs: the two loops around `compare_exchange`, with tasks that share a bucket.
-- A task stands at its `load` or at its `compare_exchange`, with the value that it loaded, and a
-- schedule names the task that makes the next of these steps.
use rust_socks.Prelude.{
  ℕ, suc, zero, ◌+◌, ◌-◌, ◌≤◌, ◌≡◌, refl, min, leb, ◌==◌, if◌then◌else◌, arith, Option, some, none,
  List, [], ◌∷◌, All,
}
use rust_socks.Prelude.Machine.{saturating_add}

-- `try_consume` after its refill, and `add_tokens`, each with its amount; then how they ended.
pub data Task : Type 0 where
  taking : ℕ → Option ℕ → Task
  adding : ℕ → Option ℕ → Task
  granted : ℕ → Task
  refused : ℕ → Task
  added : ℕ → Task

module _ (capacity : ℕ) where
  unfoldable pub task_step : ℕ → Task → ℕ × Task
  task_step tokens (taking amount none) =
      if leb amount tokens
      then (tokens, taking amount (some tokens))
      else (tokens, refused (amount - tokens))
  task_step tokens (taking amount (some current)) =
      if tokens == current then (current - amount, granted amount) else (tokens, taking amount none)
  task_step tokens (adding amount none) = (tokens, adding amount (some tokens))
  task_step tokens (adding amount (some current)) =
      if tokens == current
      then (min (saturating_add current amount) capacity, added amount)
      else (tokens, adding amount none)
  task_step tokens (granted amount) = (tokens, granted amount)
  task_step tokens (refused deficit) = (tokens, refused deficit)
  task_step tokens (added amount) = (tokens, added amount)

  unfoldable pub step_at : ℕ → ℕ × List Task → ℕ × List Task
  step_at turn (tokens, []) = (tokens, [])
  step_at zero (tokens, task ∷ tasks) =
      let (left, moved) = task_step tokens task in (left, moved ∷ tasks)
  step_at (suc turn) (tokens, task ∷ tasks) =
      let (left, moved) = step_at turn (tokens, tasks) in (left, task ∷ moved)

  unfoldable pub run_schedule : List ℕ → ℕ × List Task → ℕ × List Task
  run_schedule [] state = state
  run_schedule (turn ∷ turns) state = run_schedule turns (step_at turn state)

abbrev grant : Task → ℕ
grant (granted amount) = amount
grant (taking amount loaded) = 0
grant (adding amount loaded) = 0
grant (refused deficit) = 0
grant (added amount) = 0

abbrev gift : Task → ℕ
gift (added amount) = amount
gift (granted amount) = 0
gift (taking amount loaded) = 0
gift (adding amount loaded) = 0
gift (refused deficit) = 0

-- What was taken from the bucket, and what was put in.
unfoldable pub total_granted : List Task → ℕ
total_granted [] = 0
total_granted (task ∷ tasks) = grant task + total_granted tasks

unfoldable pub total_added : List Task → ℕ
total_added [] = 0
total_added (task ∷ tasks) = gift task + total_added tasks

-- A task that is about to take saw enough tokens.
abbrev Covered : Task → Type 0
Covered (taking amount (some current)) = amount ≤ current
Covered (taking amount none) = Unit
Covered (adding amount loaded) = Unit
Covered (granted amount) = Unit
Covered (refused deficit) = Unit
Covered (added amount) = Unit

task_step_lem :
    (capacity tokens : ℕ) (task : Task)
    → Covered task
    → tokens ≤ capacity
    → (let (left, moved) = task_step capacity tokens task in
        Covered moved
        × (left ≤ capacity)
        × (left + grant moved + gift task ≤ tokens + grant task + gift moved))
unfolding task_step
task_step_lem capacity tokens (taking amount none) w h = ground arith
task_step_lem capacity tokens (taking amount (some current)) w h = ground arith
task_step_lem capacity tokens (adding amount none) w h = ground arith
task_step_lem capacity tokens (adding amount (some current)) w h = ground arith
task_step_lem capacity tokens (granted amount) w h = ground arith
task_step_lem capacity tokens (refused amount) w h = ground arith
task_step_lem capacity tokens (added amount) w h = ground arith

step_at_lem :
    (capacity turn tokens : ℕ) (tasks : List Task)
    → All Covered tasks
    → tokens ≤ capacity
    → (let (left, moved) = step_at capacity turn (tokens, tasks) in
        All Covered moved
        × (left ≤ capacity)
        × (left + total_granted moved + total_added tasks
            ≤ tokens + total_granted tasks + total_added moved))
unfolding step_at total_granted total_added
step_at_lem capacity turn tokens [] w h = (tt, h, omega arith)
step_at_lem capacity zero tokens (task ∷ tasks) w h =
    let (c, l, s) = task_step_lem capacity tokens task w.0 h in ((c, w.1), l, omega arith)
step_at_lem capacity (suc turn) tokens (task ∷ tasks) w h =
    let (c, l, s) = step_at_lem capacity turn tokens tasks w.1 h in ((w.0, c), l, omega arith)

run_schedule_lem :
    (capacity : ℕ) (turns : List ℕ) (tokens : ℕ) (tasks : List Task)
    → All Covered tasks
    → tokens ≤ capacity
    → (let (left, moved) = run_schedule capacity turns (tokens, tasks) in
        (left ≤ capacity)
        × (left + total_granted moved + total_added tasks
            ≤ tokens + total_granted tasks + total_added moved))
unfolding run_schedule
run_schedule_lem capacity [] tokens tasks w h = (h, omega arith)
run_schedule_lem capacity (turn ∷ turns) tokens tasks w h =
    let (c, l, s) = step_at_lem capacity turn tokens tasks w h in
    let (left, moved) = step_at capacity turn (tokens, tasks) in
    let (l', s') = run_schedule_lem capacity turns left moved c l in (l', omega arith)

-- A task that has not begun.
abbrev pub IsFresh : Task → Type 0
IsFresh (taking amount loaded) = loaded ≡ none
IsFresh (adding amount loaded) = loaded ≡ none
IsFresh (granted amount) = ⊥
IsFresh (refused deficit) = ⊥
IsFresh (added amount) = ⊥

fresh_lem :
    (tasks : List Task)
    → All IsFresh tasks
    → All Covered tasks × (total_granted tasks ≡ 0) × (total_added tasks ≡ 0)
unfolding total_granted total_added
fresh_lem [] f = (tt, refl, refl)
fresh_lem (taking amount none ∷ tasks) f =
    let (c, g, a) = fresh_lem tasks f.1 in ((tt, c), omega arith, omega arith)
fresh_lem (taking amount (some current) ∷ tasks) f = cc
fresh_lem (adding amount none ∷ tasks) f =
    let (c, g, a) = fresh_lem tasks f.1 in ((tt, c), omega arith, omega arith)
fresh_lem (adding amount (some current) ∷ tasks) f = cc
fresh_lem (granted amount ∷ tasks) f = absurd f.0
fresh_lem (refused deficit ∷ tasks) f = absurd f.0
fresh_lem (added amount ∷ tasks) f = absurd f.0

-- Whatever the order in which the tasks take their steps, a bucket that is within its capacity
-- stays so, and what is in it with what the tasks were granted is no more than what was in it and
-- what they added.
pub never_overdrawn :
    (capacity : ℕ) (turns : List ℕ) (tokens : ℕ) (tasks : List Task)
    → All IsFresh tasks
    → tokens ≤ capacity
    → (let (left, moved) = run_schedule capacity turns (tokens, tasks) in
        (left ≤ capacity) × (left + total_granted moved ≤ tokens + total_added moved))
never_overdrawn capacity turns tokens tasks f h =
    let (c, g, a) = fresh_lem tasks f in
    let (l, s) = run_schedule_lem capacity turns tokens tasks c h in (l, omega arith)
