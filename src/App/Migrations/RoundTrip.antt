-- ===== src/App/Migrations/RoundTrip.antt =====
-- A downgrade takes back what its upgrade did.
use orca_validator.Prelude.{
  ℕ, zero, suc, ◌≡◌, refl, sym, ap, ◌∙◌, true, List, [], ◌∷◌, ◌++◌, append-nil, append_assoc, all,
  take, drop, arith, Exec, ok, Result-cases, inl, inr,
}
use orca_validator.App.Migrations.{
  Op, Revision, Postgres, IsPostgres, inverse, is_creation, execute_all, in_transaction,
  run_migrations,
}
use orca_validator.App.Migrations.Revisions.{history}

-- The operations of `alembic upgrade` and of `alembic downgrade` over these revisions.
abbrev pub upgrades : List Revision → List Op
upgrades [] = []
upgrades (r ∷ rs) = r.upgrade ++ upgrades rs

abbrev pub downgrades : List Revision → List Op
downgrades [] = []
downgrades (r ∷ rs) = downgrades rs ++ r.downgrade

-- What undoes operations, the last one first.
abbrev undo : List Op → List Op
undo [] = []
undo (op ∷ ops) = undo ops ++ inverse op ∷ []

abbrev IsReversible : Revision → Type 0
IsReversible r = (all is_creation r.upgrade ≡ true) × (r.downgrade ≡ undo r.upgrade)

abbrev AreReversible : List Revision → Type 0
AreReversible [] = Unit
AreReversible (r ∷ rs) = IsReversible r × AreReversible rs

AreReversible-take : (n : ℕ) (rs : List Revision) → AreReversible rs → AreReversible (take n rs)
AreReversible-take zero rs h = tt
AreReversible-take (suc n) [] h = tt
AreReversible-take (suc n) (r ∷ rs) h = (h.0, AreReversible-take n rs h.1)

AreReversible-drop : (n : ℕ) (rs : List Revision) → AreReversible rs → AreReversible (drop n rs)
AreReversible-drop zero rs h = h
AreReversible-drop (suc n) [] h = tt
AreReversible-drop (suc n) (r ∷ rs) h = AreReversible-drop n rs h.1

history-AreReversible : AreReversible history
history-AreReversible = ((refl, refl), ((refl, refl), ((refl, refl), ((refl, refl), tt))))

undo-append : (ops ops' : List Op) → undo (ops ++ ops') ≡ undo ops' ++ undo ops
undo-append [] ops' = sym (append-nil (undo ops'))
undo-append (op ∷ ops) ops' =
    ap (λ xs. xs ++ inverse op ∷ []) (undo-append ops ops')
    ∙ append_assoc (undo ops') (undo ops) (inverse op ∷ [])

all_append :
    (ops ops' : List Op)
    → all is_creation ops ≡ true
    → all is_creation ops' ≡ true
    → all is_creation (ops ++ ops') ≡ true
all_append [] ops' h h' = h'
all_append (op ∷ ops) ops' h h' = ground (arith, all_append ops ops', h, h')

-- The downgrades of reversible revisions undo their upgrades.
downgrades_lem : (rs : List Revision) → AreReversible rs → downgrades rs ≡ undo (upgrades rs)
downgrades_lem [] h = refl
downgrades_lem (r ∷ rs) (h, hs) =
    rw (downgrades_lem rs hs, h.1) (sym (undo-append r.upgrade (upgrades rs)))

upgrades_create : (rs : List Revision) → AreReversible rs → all is_creation (upgrades rs) ≡ true
upgrades_create [] h = refl
upgrades_create (r ∷ rs) (h, hs) = all_append r.upgrade (upgrades rs) h.0 (upgrades_create rs hs)

module _ (pg : Postgres) where
  -- A run of operations that returns has run the first one, and then the others.
  execute_all-first :
      (op : Op) (ops : List Op) (s s' : pg.Schema)
      → execute_all pg (op ∷ ops) s ≡ (ok tt, s')
      → (t : pg.Schema) × (pg.execute op s ≡ (ok tt, t)) × (execute_all pg ops t ≡ (ok tt, s'))
  unfolding execute_all
  execute_all-first op ops s s' e = elim (Result-cases (pg.execute op s).0) [
    | inl (_, returned) ↦
        ((pg.execute op s).1, ap (λ r. (r, (pg.execute op s).1)) returned, rw returned at e)
    | inr (f, raised) ↦ absurd (let e' = rw raised at e in cc)
  ]

  execute_all-append :
      (ops ops' : List Op) (s s' : pg.Schema)
      → execute_all pg ops s ≡ (ok tt, s')
      → execute_all pg (ops ++ ops') s ≡ execute_all pg ops' s'
  unfolding execute_all
  execute_all-append [] ops' s s' e = ap (λ x. execute_all pg ops' x.1) e
  execute_all-append (op ∷ ops) ops' s s' e =
      let (t, first, rest) = execute_all-first op ops s s' e in
      rw first (execute_all-append ops ops' t s' rest)

  -- A transaction that returns was not rolled back.
  pub in_transaction-returns :
      (m : Exec pg.Schema (Unit {0})) (s s' : pg.Schema)
      → in_transaction pg m s ≡ (ok tt, s')
      → m s ≡ (ok tt, s')
  unfolding in_transaction
  in_transaction-returns m s s' e = elim (Result-cases (m s).0) [
    | inl (_, returned) ↦ rw (returned, in_transaction) at e
    | inr (f, raised) ↦ absurd (let e' = rw (raised, in_transaction) at e in cc)
  ]

  run_migrations-returns :
      (ops : List Op) (s s' : pg.Schema)
      → run_migrations pg ops s ≡ (ok tt, s')
      → execute_all pg ops s ≡ (ok tt, s')
  unfolding run_migrations
  run_migrations-returns ops s s' e = in_transaction-returns (execute_all pg ops) s s' e

  returns-run_migrations :
      (ops : List Op) (s s' : pg.Schema)
      → execute_all pg ops s ≡ (ok tt, s')
      → run_migrations pg ops s ≡ (ok tt, s')
  unfolding run_migrations in_transaction
  returns-run_migrations ops s s' e = rw (e, run_migrations, in_transaction) e

module _ (pg : Postgres) (laws : IsPostgres pg) where
  execute_all-undo :
      (ops : List Op) (s s' : pg.Schema)
      → all is_creation ops ≡ true
      → execute_all pg ops s ≡ (ok tt, s')
      → execute_all pg (undo ops) s' ≡ (ok tt, s)
  unfolding execute_all
  execute_all-undo [] s s' h e = ap (λ x. (ok tt, x)) (sym (ap (λ x. x.1) e))
  execute_all-undo (op ∷ ops) s s' h e =
      let (t, first, rest) = execute_all-first pg op ops s s' e in
      execute_all-append pg (undo ops) (inverse op ∷ []) s' t
        (execute_all-undo ops t s' (ground (arith, h)) rest)
      ∙ rw (laws.undone op s t (ground (arith, h)) first) refl

  -- Where the database does what is documented: once an upgrade over some of the revisions, one after
  -- the other, has succeeded, the downgrade over them succeeds, and leaves the schema as it was.
  pub downgrades-upgrades :
      (skipped n : ℕ) (s s' : pg.Schema)
      → run_migrations pg (upgrades (take n (drop skipped history))) s ≡ (ok tt, s')
      → run_migrations pg (downgrades (take n (drop skipped history))) s' ≡ (ok tt, s)
  downgrades-upgrades skipped n s s' e =
      let steps = take n (drop skipped history) in
      let reversible : AreReversible steps =
        AreReversible-take n (drop skipped history)
          (AreReversible-drop skipped history history-AreReversible) in
      returns-run_migrations pg (downgrades steps) s' s (
        rw (downgrades_lem steps reversible) (
          execute_all-undo (upgrades steps) s s' (upgrades_create steps reversible)
            (run_migrations-returns pg (upgrades steps) s s' e)))
