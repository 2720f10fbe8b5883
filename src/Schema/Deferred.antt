-- ===== src/Schema/Deferred.antt =====
-- Statements under the modes that a transaction begins with: every check waits, so the end of a
-- statement fires nothing.
use pacioli.Prelude.{◌≡◌, refl, ap, sym, ◌∙◌, true, not, List, [], ◌∷◌, keep}
use pacioli.Schema.Tables.{Database, Modes, Event, Constraint, done, initially_deferred}
use pacioli.Schema.Triggers.{settle, fire_all, is_due}
use pacioli.Schema.Statements.{set_constraints, set_modes}

abbrev pub IsDeferred : Database → Type 0
IsDeferred d = d.modes ≡ initially_deferred

nothing_due : (q : List Event) → keep (is_due initially_deferred) q ≡ []
nothing_due [] = refl
nothing_due (Event.transaction_inserted t ∷ q) = nothing_due q
nothing_due (Event.check_inserted t ∷ q) = nothing_due q
nothing_due (Event.key_written k ∷ q) = nothing_due q

all_wait : (q : List Event) → keep (λ e. not (is_due initially_deferred e)) q ≡ q
all_wait [] = refl
all_wait (Event.transaction_inserted t ∷ q) =
    ap (λ r. Event.transaction_inserted t ∷ r) (all_wait q)
all_wait (Event.check_inserted t ∷ q) = ap (λ r. Event.check_inserted t ∷ r) (all_wait q)
all_wait (Event.key_written k ∷ q) = ap (λ r. Event.key_written k ∷ r) (all_wait q)

pub settle-IsDeferred : (d : Database) → IsDeferred d → settle d ≡ done d
unfolding settle fire_all
settle-IsDeferred d h =
    simp (h, nothing_due, all_wait) (ap (λ (m : Modes). done (record d { modes = m })) (sym h))

set_modes-deferred :
    (cs : List Constraint) → set_modes cs true initially_deferred ≡ initially_deferred
set_modes-deferred [] = refl
set_modes-deferred (Constraint.transactions_must_balance ∷ cs) = set_modes-deferred cs
set_modes-deferred (Constraint.balance_checks_must_balance ∷ cs) = set_modes-deferred cs
set_modes-deferred (Constraint.idempotency_keys_must_be_settled ∷ cs) = set_modes-deferred cs

-- SET CONSTRAINTS … DEFERRED changes nothing then.
pub set_constraints-IsDeferred :
    (cs : List Constraint) (d : Database) → IsDeferred d → set_constraints cs true d ≡ done d
unfolding set_constraints
set_constraints-IsDeferred cs d h =
    settle-IsDeferred (record d { modes = set_modes cs true d.modes })
      (ap (set_modes cs true) h ∙ set_modes-deferred cs)
    ∙ ap (λ (m : Modes). done (record d { modes = m }))
        (ap (set_modes cs true) h ∙ set_modes-deferred cs ∙ sym h)
