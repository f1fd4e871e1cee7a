-- ===== src/Pipeline/Worker.antt =====
-- backend/pipeline/worker.py: the loop that takes runs off the queue, and the tasks that it starts.
-- The semaphore counts the free slots. What other processes put into the queue, and when a task
-- ends, is not the worker's choice: the steps are a relation.
pub mod Bounded
pub mod Drains
use orca_validator.Prelude.{ℕ, zero, suc, ◌≡◌, List, [], ◌∷◌, ◌++◌, Option, none, some, Text}
use orca_validator.Pipeline.Queue.{Queue, enqueue, dequeue}

-- Where the loop stands: before `sem.acquire()`, before `dequeue`, before `create_task`.
pub data Phase : Type 0 where
  acquiring dequeuing : Phase
  starting : Text → Phase

pub record Worker : Type 0 where
  pub free : ℕ
  pub phase : Phase
  pub inflight : List Text
  pub queue : Queue
  -- the runs whose tasks have ended
  pub ended : List Text

abbrev pub init : ℕ → Queue → Worker
init concurrency queue = record {
  free = concurrency;
  phase = acquiring;
  inflight = [];
  queue = queue;
  ended = [];
}

pub data Step : Worker → Worker → Type 0 where
  -- the API puts a run into the queue
  submit : (w : Worker) (r : Text) → Step w (record w { queue = enqueue r w.queue })
  -- `await sem.acquire()` returns only when a slot is free
  acquire :
      (w : Worker) {n : ℕ}
      → w.phase ≡ acquiring
      → w.free ≡ suc n
      → Step w (record w { free = n; phase = dequeuing })
  -- `except RedisError`: the slot is released, and the loop continues
  redis_error :
      (w : Worker)
      → w.phase ≡ dequeuing
      → Step w (record w { free = suc w.free; phase = acquiring })
  -- nothing was queued: the slot is released
  idle :
      (w : Worker)
      → w.phase ≡ dequeuing
      → (dequeue w.queue).0 ≡ none
      → Step w (record w { free = suc w.free; phase = acquiring })
  -- a run was taken off the queue
  take :
      (w : Worker) (r : Text)
      → w.phase ≡ dequeuing
      → (dequeue w.queue).0 ≡ some r
      → Step w (record w { phase = starting r; queue = (dequeue w.queue).1 })
  -- `create_task`, `inflight.add`
  start :
      (w : Worker) (r : Text)
      → w.phase ≡ starting r
      → Step w (record w { phase = acquiring; inflight = r ∷ w.inflight })
  -- a task ends, with its run or with an exception: `finally: sem.release()`, `inflight.discard`
  finish :
      (w : Worker) (before after : List Text) (r : Text)
      → w.inflight ≡ before ++ r ∷ after
      → Step w (record w { free = suc w.free; inflight = before ++ after; ended = r ∷ w.ended })

pub data Reach (s : Worker) : Worker → Type 0 where
  here : Reach s s
  next : {t u : Worker} → Reach s t → Step t u → Reach s u
