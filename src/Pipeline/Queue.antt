-- ===== src/Pipeline/Queue.antt =====
-- backend/queue.py: the job queue, a Redis list that is pushed at its head and popped at its tail.
pub mod Order
use orca_validator.Prelude.{ℕ, List, [], ◌∷◌, ◌++◌, Option, none, some, Text}

-- The list under `_QUEUE_KEY`, its head first.
abbrev pub Queue : Type 0
Queue = List Text

-- `enqueue`: `lpush`
unfoldable pub enqueue : Text → Queue → Queue
enqueue run_id q = run_id ∷ q

-- `dequeue`: `brpop`, or `none` when the wait has ended with nothing queued
unfoldable pub dequeue : Queue → Option Text × Queue
dequeue [] = (none, [])
dequeue (x ∷ []) = (some x, [])
dequeue (x ∷ y ∷ q) = let (r, rest) = dequeue (y ∷ q) in (r, x ∷ rest)
