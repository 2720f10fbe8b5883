-- ===== src/Schema/Triggers.antt =====
-- The trigger functions of internal/schema/0001_ledger.sql, and when the deferrable ones fire.
use pacioli.Prelude.{
  Bool, not, Option, none, some, List, [], ◌∷◌, ◌++◌, String, ◌==◌, keep, if◌then◌else◌,
}
use pacioli.Prelude.Int.{is_zero}
use pacioli.Schema.Server.{Uuid}
use pacioli.Schema.Tables.{
  Database, Modes, Event, KeyRow, Answer, done, refused, ◌>>=◌, ◌>>◌, refuse_if, raised,
  constraint_of, is_deferred, all_immediate, initially_deferred, key_by_key, contains_check,
  count_legs, sum_legs,
}

-- assert_transaction_balances
unfoldable pub assert_transaction_balances : Uuid → Database → Answer (Unit {0})
assert_transaction_balances t d = do
  refuse_if (count_legs t d.postings == 0) (raised "LB001")
  refuse_if (not (is_zero (sum_legs t d.postings))) (raised "LB001")

-- queue_a_balance_check, with the event of the row that it inserts
unfoldable pub queue_a_balance_check : Uuid → Database → Database
queue_a_balance_check t d = if contains_check t d.balance_checks then d else record d {
  balance_checks = t ∷ d.balance_checks;
  queue = d.queue ++ Event.check_inserted t ∷ [];
}

abbrev pub settled : Option KeyRow → Answer (Unit {0})
settled none = done tt
settled (some r) = elim r.transaction_id [ none ↦ refused (raised "LB003") | some t ↦ done tt ]

-- idempotency_key_names_a_transaction: it reads the row back
unfoldable pub idempotency_key_names_a_transaction : String → Database → Answer (Unit {0})
idempotency_key_names_a_transaction k d = settled (key_by_key k d.idempotency_keys)

-- transactions_balance_check, queued_balance_check and the one above, on the event that fires them.
unfoldable pub fire : Event → Database → Answer Database
fire (Event.transaction_inserted t) d = do assert_transaction_balances t d; done d
fire (Event.check_inserted t) d = do
  assert_transaction_balances t d
  done (record d { balance_checks = keep (λ u. not (u == t)) d.balance_checks })
fire (Event.key_written k) d = do idempotency_key_names_a_transaction k d; done d

unfoldable pub fire_all : List Event → Database → Answer Database
fire_all [] d = done d
fire_all (e ∷ es) d = do d' ← fire e d; fire_all es d'

abbrev pub is_due : Modes → Event → Bool
is_due m e = not (is_deferred m (constraint_of e))

-- What happens at the end of every statement: the events of IMMEDIATE triggers fire, in order.
unfoldable pub settle : Database → Answer Database
settle d =
    fire_all (keep (is_due d.modes) d.queue)
      (record d { queue = keep (λ e. not (is_due d.modes e)) d.queue })

-- COMMIT fires everything that is still queued.
unfoldable pub commit : Database → Answer Database
commit d = do
  d' ← settle (record d { modes = all_immediate })
  done (record d' { modes = initially_deferred })
