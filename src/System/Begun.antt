-- ===== src/System/Begun.antt =====
-- A run that waits can be given a task that has begun.
use orca_validator.Prelude.{
  ℕ, zero, suc, ◌<◌, ◌≡◌, refl, ap, ◌∙◌, Bool, List, [], ◌∷◌, ◌++◌, arith, ltb, length, Text,
  text_eq, text_eq_iff, text_eq_refl, inl, inr, Bool-cases,
}
use orca_validator.Pipeline.Environment.{Environment, Settings}
use orca_validator.Pipeline.Queue.{Queue, dequeue}
use orca_validator.Pipeline.Worker.Bounded.{count, count_dequeued}
use orca_validator.Pipeline.Worker.Drains.{dequeue-some}
use orca_validator.Api.Documents.{ApiSettings}
use orca_validator.System.{System}
use orca_validator.System.Work.{Work, taking, beginning, Works, stay, go, Works-trans}
use orca_validator.System.Steps.{waiting}

-- A run that is counted stands in the list.
pub count_split :
    (k : Text) (xs : List Text)
    → 0 < count k xs
    → (before after : List Text) × (xs ≡ before ++ k ∷ after)
count_split k [] h = absurd (omega (arith, h))
count_split k (x ∷ xs) h = elim (Bool-cases (text_eq x k)) [
  | inl e ↦ ([], xs, ap (λ y. y ∷ xs) ((text_eq_iff x k).0 e))
  | inr e ↦
      let (before, after, split) = count_split k xs (ground (arith, h, e)) in
      (x ∷ before, after, ap (λ ys. x ∷ ys) split)
]

module _ (env : Environment) (low high : env.Temperature)
    (lt : env.Temperature → env.Temperature → Bool) (settings : ApiSettings) where
  abbrev pub State : Type 0
  State = System env low high lt settings

  -- The rows, the bridge and what is outside are as they were.
  pub record HasRowsOf (s t : State) : Type 0 where
    pub runs : t.service.runs ≡ s.service.runs
    pub documents : t.service.documents ≡ s.service.documents
    pub bridge : t.bridge ≡ s.bridge
    pub outside : t.outside ≡ s.outside

  same_rows : (s : State) → HasRowsOf s s
  same_rows s = record { runs = refl; documents = refl; bridge = refl; outside = refl }

  HasRowsOf-trans : {s t u : State} → HasRowsOf s t → HasRowsOf t u → HasRowsOf s u
  HasRowsOf-trans a b = record {
    runs = b.runs ∙ a.runs;
    documents = b.documents ∙ a.documents;
    bridge = b.bridge ∙ a.bridge;
    outside = b.outside ∙ a.outside;
  }

module _ (env : Environment) (low high : env.Temperature)
    (lt : env.Temperature → env.Temperature → Bool) (settings : ApiSettings)
    (pipeline : Settings) where
  -- A task of the run has begun, and the rows are as they were.
  pub record Begun (k : Text) (s : State env low high lt settings) : Type 0 where
    pub after : State env low high lt settings
    pub reached : Works env low high lt settings pipeline s after
    pub service : HasRowsOf env low high lt settings s after
    pub started : 0 < count k after.started

  Begun-first :
      {s t : State env low high lt settings} {k : Text}
      → Work env low high lt settings pipeline s t
      → HasRowsOf env low high lt settings s t
      → Begun k t
      → Begun k s
  Begun-first st e b = record {
    after = b.after;
    reached = Works-trans env low high lt settings pipeline (go stay st) b.reached;
    service = HasRowsOf-trans env low high lt settings e b.service;
    started = b.started;
  }

  Begun-started :
      (k : Text) (s : State env low high lt settings) → 0 < count k s.started → Begun k s
  Begun-started k s h = record {
    after = s;
    reached = stay;
    service = same_rows env low high lt settings s;
    started = h;
  }

  -- The queue is worked off until the run is taken.
  Begun-queue :
      (n : ℕ) (k : Text) (s : State env low high lt settings) (q : Queue)
      → s.service.queue ≡ q
      → length q ≡ n
      → 0 < count k q
      → Begun k s
  Begun-queue n k s [] e l h = absurd (omega (arith, h))
  Begun-queue zero k s (x ∷ q) e l h = absurd (omega (arith, l))
  Begun-queue (suc n) k s (x ∷ q) e l h =
      let (r, taken, shorter) = dequeue-some x q in
      let rest = (dequeue (x ∷ q)).1 in
      let t : State env low high lt settings = record s {
        service = record s.service { queue = rest };
        started = r ∷ s.started;
      } in
      let counted = count_dequeued k (x ∷ q) r taken in
      Begun-first {t = t} (taking s r {queue' = rest} (ap dequeue e ∙ ap (λ o. (o, rest)) taken))
        (record { runs = refl; documents = refl; bridge = refl; outside = refl })
        (elim (Bool-cases (text_eq r k)) [
          | inl own ↦ Begun-started k t (ground (arith, own))
          | inr other ↦
              Begun-queue n k t rest refl (omega (arith, l, shorter))
                (ground (arith, other, counted, h))
        ])

  Begun-background :
      (k : Text) (s : State env low high lt settings) → 0 < count k s.service.background → Begun k s
  Begun-background k s h =
      let (before, after, split) = count_split k s.service.background h in
      Begun-first (beginning s before after k split)
        (record { runs = refl; documents = refl; bridge = refl; outside = refl })
        (Begun-started k _ (ground (arith, text_eq_refl k)))

  pub Begun-waiting :
      (k : Text) (s : State env low high lt settings)
      → 0 < waiting env low high lt settings k s
      → Begun k s
  Begun-waiting k s h = elim (Bool-cases (ltb 0 (count k s.service.queue))) [
    | inl queue ↦
        Begun-queue (length s.service.queue) k s s.service.queue refl refl (ground (arith, queue))
    | inr none_queued ↦ elim (Bool-cases (ltb 0 (count k s.service.background))) [
      | inl background ↦ Begun-background k s (ground (arith, background))
      | inr none_there ↦ Begun-started k s (ground (arith, h, none_queued, none_there))
    ]
  ]
