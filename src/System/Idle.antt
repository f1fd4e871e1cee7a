-- ===== src/System/Idle.antt =====
-- A run that no task waits or works for.
use orca_validator.Prelude.{◌≡◌, ◌∙◌, List, some, arith, Text}
use orca_validator.Pipeline.Database.{Status}
use orca_validator.System.Life.{Life, Move, kept, scheduled, unscheduled, claimed, ended}

-- It has a row with this status, no task, and these verdicts.
abbrev pub IsIdle : Status → List Text → Life → Type 0
IsIdle st vs x = (x.status ≡ some st) × (x.waiting ≡ 0) × (x.working ≡ 0) × (x.verdicts ≡ vs)

pub IsIdle-Move :
    {st : Status} {vs : List Text} {x y : Life} → Move x y → IsIdle st vs x → IsIdle st vs y
IsIdle-Move (kept e w a v) (s, w', a', v') = (e ∙ s, omega arith, omega arith, v ∙ v')
IsIdle-Move (scheduled h e w a v) (s, w', a', v') = absurd cc
IsIdle-Move (unscheduled h e w a v) (s, w', a', v') = absurd cc
IsIdle-Move (claimed h k e w a v) (s, w', a', v') = absurd (omega (arith, w, w'))
IsIdle-Move (ended v h e w a vs) (s, w', a', v') = absurd (omega (arith, a, a'))
