-- ===== src/Pipeline/Worker/Drains.antt =====
-- The worker never gets stuck: from wherever it is, the queue can be worked off.
use orca_validator.Prelude.{
  ℕ, zero, suc, ◌≤◌, ◌<◌, ◌≡◌, refl, ap, List, [], ◌∷◌, some, arith, Text, length,
}
use orca_validator.Pipeline.Queue.{Queue, dequeue}
use orca_validator.Pipeline.Worker.{
  Phase, acquiring, dequeuing, starting, Worker, init, Step, acquire, redis_error, take, start,
  finish, Reach, here, next,
}
use orca_validator.Pipeline.Worker.Bounded.{slots, slots-Reach, count, tally, tally-Reach}

abbrev worker : ℕ → Phase → List Text → Queue → List Text → Worker
worker free phase inflight queue ended = record {
  free = free;
  phase = phase;
  inflight = inflight;
  queue = queue;
  ended = ended;
}

Reach-trans : {s t u : Worker} → Reach s t → Reach t u → Reach s u
Reach-trans r here = r
Reach-trans r (next q st) = next (Reach-trans r q) st

step_first : {s t u : Worker} → Step s t → Reach t u → Reach s u
step_first st r = Reach-trans (next here st) r

-- The loop is before `sem.acquire()`, nothing is in flight, and a slot is free.
record Calm (w : Worker) (queue : Queue) : Type 0 where
  spare : ℕ
  ended : List Text
  reached : Reach w (worker (suc spare) acquiring [] queue ended)

-- The tasks end one after the other.
record Landed (w : Worker) (phase : Phase) (queue : Queue) : Type 0 where
  free : ℕ
  ended : List Text
  reached : Reach w (worker free phase [] queue ended)

Landed_first :
    {s t : Worker} {phase : Phase} {queue : Queue}
    → Step s t
    → Landed t phase queue
    → Landed s phase queue
Landed_first st l = record { free = l.free; ended = l.ended; reached = step_first st l.reached }

land :
    (free : ℕ) (phase : Phase) (inflight : List Text) (queue : Queue) (ended : List Text)
    → Landed (worker free phase inflight queue ended) phase queue
land free phase [] queue ended = record { free = free; ended = ended; reached = here }
land free phase (r ∷ inflight) queue ended =
    Landed_first (finish (worker free phase (r ∷ inflight) queue ended) [] inflight r refl)
      (land (suc free) phase inflight queue (r ∷ ended))

-- The loop goes back to `sem.acquire()`, and what is in flight then ends.
settle :
    (free : ℕ) (phase : Phase) (inflight : List Text) (queue : Queue) (ended : List Text)
    → Landed (worker free phase inflight queue ended) acquiring queue
settle free acquiring inflight queue ended = land free acquiring inflight queue ended
settle free dequeuing inflight queue ended =
    Landed_first (redis_error (worker free dequeuing inflight queue ended) refl)
      (land (suc free) acquiring inflight queue ended)
settle free (starting r) inflight queue ended =
    Landed_first (start (worker free (starting r) inflight queue ended) r refl)
      (land free acquiring (r ∷ inflight) queue ended)

-- A slot is among those that `slots` counts.
calm :
    (free : ℕ) (queue : Queue) (ended : List Text) (w : Worker)
    → Reach w (worker free acquiring [] queue ended)
    → 0 < slots w
    → Calm w queue
calm zero queue ended w r h = ground (arith, h, slots-Reach r)
calm (suc n) queue ended w r h = record { spare = n; ended = ended; reached = r }

-- A queue that is not empty gives a run, and is one shorter.
pub dequeue-some :
    (x : Text) (q : Queue)
    → (r : Text) × ((dequeue (x ∷ q)).0 ≡ some r) × (length (dequeue (x ∷ q)).1 ≡ length q)
unfolding dequeue
dequeue-some x [] = (x, refl, refl)
dequeue-some x (y ∷ q) = let (r, e, l) = dequeue-some y q in (r, e, ap suc l)

-- One run is taken, started and ended.
serve :
    (n : ℕ) (queue : Queue) (ended : List Text) (r : Text)
    → (dequeue queue).0 ≡ some r
    → Reach
        (worker (suc n) acquiring [] queue ended)
        (worker (suc n) acquiring [] (dequeue queue).1 (r ∷ ended))
serve n queue ended r e = step_first (acquire (worker (suc n) acquiring [] queue ended) refl refl) (
    step_first (take (worker n dequeuing [] queue ended) r refl e) (
      step_first (start (worker n (starting r) [] (dequeue queue).1 ended) r refl) (
        step_first (finish (worker n acquiring (r ∷ []) (dequeue queue).1 ended) [] [] r refl)
          here)))

work_off :
    (k n : ℕ) (queue : Queue) (ended : List Text)
    → length queue ≡ k
    → Calm (worker (suc n) acquiring [] queue ended) []
work_off k n [] ended l = record { spare = n; ended = ended; reached = here }
work_off zero n (x ∷ queue) ended l = ground (arith, l)
work_off (suc k) n (x ∷ queue) ended l =
    let (r, e, shorter) = dequeue-some x queue in
    let rest = work_off k n (dequeue (x ∷ queue)).1 (r ∷ ended) (omega (arith, l, shorter)) in
    record {
      spare = rest.spare;
      ended = rest.ended;
      reached = Reach-trans (serve n (x ∷ queue) ended r e) rest.reached;
    }

-- From every state that a worker with a slot can reach, steps lead to a state in which the queue is
-- empty, nothing is in flight and the loop waits for nothing but new runs; and each run has ended at
-- least as often as it was queued, taken, in flight or ended before.
pub Reach-drained :
    (concurrency : ℕ) (queue : Queue) (w : Worker)
    → 0 < concurrency
    → Reach (init concurrency queue) w
    → (v : Worker) × Reach w v
      × (v.queue ≡ [])
      × (v.inflight ≡ [])
      × (v.phase ≡ acquiring)
      × ((k : Text) → tally k w ≤ count k v.ended)
Reach-drained concurrency queue w h r =
    let l = settle w.free w.phase w.inflight w.queue w.ended in
    let c = calm l.free w.queue l.ended w l.reached (omega (arith, h, slots-Reach r)) in
    let d = work_off (length w.queue) c.spare w.queue c.ended refl in
    let v = worker (suc d.spare) acquiring [] [] d.ended in
    let reached : Reach w v = Reach-trans c.reached d.reached in
    (v, reached, refl, refl, refl, λ k. omega (arith, tally-Reach k reached))
