-- ===== src/Pipeline/Worker/Bounded.antt =====
-- The worker never has more tasks than slots, and loses no slot and no run.
use orca_validator.Prelude.{
  ℕ, ◌+◌, ◌≤◌, ◌≡◌, refl, ap, ◌∙◌, List, [], ◌∷◌, ◌++◌, none, some, arith, Text, length,
  length-append, text_eq, if◌then◌else◌,
}
use orca_validator.Pipeline.Queue.{Queue, enqueue, dequeue}
use orca_validator.Pipeline.Worker.{
  Phase, acquiring, dequeuing, starting, Worker, init, Step, submit, acquire, redis_error, idle,
  take, start, finish, Reach, here, next,
}

-- The slot that the loop itself holds.
abbrev pub held : Phase → ℕ
held acquiring = 0
held dequeuing = 1
held (starting r) = 1

-- Every slot is free, held by the loop, or held by a task.
abbrev pub slots : Worker → ℕ
slots w = w.free + held w.phase + length w.inflight

slots-Step : {w v : Worker} → Step w v → slots v ≡ slots w
slots-Step (submit w r) = refl
slots-Step (acquire w p f) = ground arith
slots-Step (redis_error w p) = ground arith
slots-Step (idle w p e) = ground arith
slots-Step (take w r p e) = ground arith
slots-Step (start w r p) = ground arith
slots-Step (finish w before after r e) =
    omega (arith, ap length e, length-append before (r ∷ after), length-append before after)

pub slots-Reach : {s w : Worker} → Reach s w → slots w ≡ slots s
slots-Reach here = refl
slots-Reach (next r st) = slots-Step st ∙ slots-Reach r

-- In every state that the worker can reach, the free slots, the slot of the loop and the tasks in
-- flight add up to the configured concurrency, and so at most that many tasks are in flight.
pub inflight-le-concurrency :
    (concurrency : ℕ) (queue : Queue) (w : Worker)
    → Reach (init concurrency queue) w
    → (w.free + held w.phase + length w.inflight ≡ concurrency) × (length w.inflight ≤ concurrency)
inflight-le-concurrency concurrency queue w r = omega (arith, slots-Reach r)

-- How often a run stands in a list.
abbrev pub count : Text → List Text → ℕ
count r [] = 0
count r (x ∷ xs) = (if text_eq x r then 1 else 0) + count r xs

-- The run that was taken off the queue and has no task yet.
abbrev pub taken : Phase → List Text
taken acquiring = []
taken dequeuing = []
taken (starting r) = r ∷ []

-- How often a run is queued, taken, in flight or ended.
abbrev pub tally : Text → Worker → ℕ
tally r w = count r w.queue + count r (taken w.phase) + count r w.inflight + count r w.ended

pub count-append : (r : Text) (xs ys : List Text) → count r (xs ++ ys) ≡ count r xs + count r ys
count-append r [] ys = omega arith
count-append r (x ∷ xs) ys = omega (arith, count-append r xs ys)

pub count-dequeue :
    (k : Text) (q : Queue)
    → count k q
      ≡ count k (elim ((dequeue q).0) [ none ↦ [] | some r ↦ r ∷ [] ]) + count k (dequeue q).1
unfolding dequeue
count-dequeue k [] = omega arith
count-dequeue k (x ∷ []) = omega arith
count-dequeue k (x ∷ y ∷ q) = omega (arith, count-dequeue k (y ∷ q))

pub count_dequeued :
    (k : Text) (q : Queue) (r : Text)
    → (dequeue q).0 ≡ some r
    → count k q ≡ count k (r ∷ []) + count k (dequeue q).1
count_dequeued k q r e = rw e at (count-dequeue k q)

tally-Step : {w v : Worker} (k : Text) → Step w v → tally k w ≤ tally k v
tally-Step k (submit w r) = unfold enqueue in omega arith
tally-Step k (acquire w p f) = rw p (omega arith)
tally-Step k (redis_error w p) = rw p (omega arith)
tally-Step k (idle w p e) = rw p (omega arith)
tally-Step k (take w r p e) = rw p (omega (arith, count_dequeued k w.queue r e))
tally-Step k (start w r p) = rw p (omega arith)
tally-Step k (finish w before after r e) =
    omega (arith, ap (count k) e, count-append k before (r ∷ after), count-append k before after)

-- No run is lost: whatever the worker does, a run that was queued, taken, in flight or ended so
-- many times is so at least as many times afterwards.
pub tally-Reach : {s w : Worker} (k : Text) → Reach s w → tally k s ≤ tally k w
tally-Reach k here = omega arith
tally-Reach k (next {t} r st) = omega (arith, tally-Reach k r, tally-Step k st)
