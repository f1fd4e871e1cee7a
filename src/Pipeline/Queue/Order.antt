-- ===== src/Pipeline/Queue/Order.antt =====
-- Runs leave the queue in the order in which they came.
use orca_validator.Prelude.{◌≡◌, refl, ap, ◌∙◌, List, [], ◌∷◌, ◌++◌, Option, some, map, Text}
use orca_validator.Pipeline.Queue.{Queue, enqueue, dequeue}

-- The queue after some runs were put into it, the first of the list first.
abbrev pub enqueue_all : List Text → Queue → Queue
enqueue_all [] q = q
enqueue_all (r ∷ rs) q = enqueue_all rs (enqueue r q)

-- The runs that so many calls of `dequeue` return, in order.
abbrev pub dequeue_all : List Text → Queue → List (Option Text) × Queue
dequeue_all [] q = ([], q)
dequeue_all (_ ∷ rs) q =
    let (r, q') = dequeue q in let (out, q'') = dequeue_all rs q' in (r ∷ out, q'')

pub dequeue-concat : (q : Queue) (r : Text) → dequeue (q ++ r ∷ []) ≡ (some r, q)
unfolding dequeue
dequeue-concat [] r = refl
dequeue-concat (x ∷ []) r = refl
dequeue-concat (x ∷ y ∷ q) r = ap (λ p. (p.0, x ∷ p.1)) (dequeue-concat (y ∷ q) r)

enqueue_all-append :
    (rs : List Text) (q t : Queue) → enqueue_all rs (q ++ t) ≡ enqueue_all rs q ++ t
unfolding enqueue
enqueue_all-append [] q t = refl
enqueue_all-append (r ∷ rs) q t = enqueue_all-append rs (r ∷ q) t

dequeue_all-cons :
    (r : Text) (rs : List Text) (q : Queue)
    → dequeue_all (r ∷ rs) (q ++ r ∷ []) ≡ (some r ∷ (dequeue_all rs q).0, (dequeue_all rs q).1)
dequeue_all-cons r rs q = rw dequeue-concat

-- The runs of a list that are put into an empty queue one after another come out of it in the same
-- order, and leave it empty.
pub dequeue_all-enqueue_all :
    (rs : List Text) → dequeue_all rs (enqueue_all rs []) ≡ (map some rs, [])
unfolding enqueue
dequeue_all-enqueue_all [] = refl
dequeue_all-enqueue_all (r ∷ rs) = rw (enqueue_all-append rs [] (r ∷ [])) (
    dequeue_all-cons r rs (enqueue_all rs [])
    ∙ ap (λ p. (some r ∷ p.0, p.1)) (dequeue_all-enqueue_all rs))
