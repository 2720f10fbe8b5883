-- ===== src/Ledger/Post.antt =====
-- Post of internal/ledger/ledger.go, statement by statement on one session.
pub mod Atomic
pub mod Ensured
pub mod Effect
pub mod Lookups
pub mod Stored
use pacioli.Prelude.{
  ℕ, ◌+◌, Bool, true, false, not, Option, none, some, List, [], ◌∷◌, String, if◌then◌else◌,
}
use pacioli.Prelude.Int.{pos}
use pacioli.Failure.{Failure, Sentinel, DriverError, LegFault, PgError, is, as_leg, as_server}
use pacioli.Schema.Server.{Server, Uuid}
use pacioli.Schema.Tables.{
  Database, AccountRow, Constraint, Answer, done, refused, raised, account_by_code,
}
use pacioli.Schema.Statements.{insert_transaction, insert_posting, set_constraints}
use pacioli.Session.{
  Tx, pure, raise, scan_row, ◌>>=◌, ◌>>◌, rescue, or_error, wrapped, exec, write, query, savepoint,
  rollback_to, release,
}
use pacioli.Ledger.Entry.{Leg, Entry, no_leg, no_index, classify, refusal_of}

abbrev pub balance_constraints : List Constraint
balance_constraints =
    Constraint.transactions_must_balance ∷ Constraint.balance_checks_must_balance ∷ []

-- const savepoint
abbrev pub post_savepoint : String
post_savepoint = "ledger_post"

abbrev pub set_balance_constraints : Bool → Tx (Unit {0})
set_balance_constraints deferred = write λ u. set_constraints balance_constraints deferred

-- coalesce($3::timestamptz, now())
abbrev pub coalesce : Option ℕ → ℕ → ℕ
coalesce none now = now
coalesce (some t) now = t

-- An instant that the client gives is kept as its column keeps it; now() is such an instant.
abbrev pub stored_time : Server → Option ℕ → ℕ → ℕ
stored_time pg none now = coalesce none now
stored_time pg (some t) now = coalesce (some (pg.timestamptz t)) now

module _ (pg : Server) where
  abbrev pub with_id : Uuid → Answer Database → Answer (String × Database)
  with_id u (done d) = done (pg.uuid_text u, d)
  with_id u (refused e) = refused e

  -- INSERT INTO transactions … RETURNING id
  unfoldable pub insert_entry : Entry → Tx String
  insert_entry e s =
      exec
        (λ u d.
          with_id u (
            insert_transaction pg u e.currency e.description (stored_time pg e.occurred_at s.now)
              d))
        s

  abbrev pub posted_to : Option AccountRow → Option Uuid
  posted_to none = none
  posted_to (some a) = some a.id

  abbrev pub posted_in : Option AccountRow → Option String
  posted_in none = none
  posted_in (some a) = some a.currency

  -- INSERT INTO postings … SELECT $1, a.id, a.currency, $3 FROM … LEFT JOIN accounts
  unfoldable pub insert_leg : String → Leg → Uuid → Database → Answer Database
  insert_leg id leg u d =
      let a = account_by_code leg.account d.accounts in
      elim (pg.uuid_of id) [
        | none ↦ refused (raised "22P02")
        | some t ↦ insert_posting t (posted_to a) (posted_in a) leg.amount_minor d
      ]

  -- The loop over the legs, from the one at `index`.
  unfoldable pub insert_legs : Entry → String → ℕ → List Leg → Tx (Unit {0})
  insert_legs e id index [] = pure tt
  insert_legs e id index (leg ∷ legs) = do
    or_error (write (insert_leg id leg)) (classify e (pos index) leg)
    insert_legs e id (index + 1) legs

  unfoldable pub post : Entry → Tx String
  post e = do
    wrapped "defer the balance check" (set_balance_constraints true)
    id ← or_error (insert_entry e) (classify e no_index no_leg)
    insert_legs e id 0 e.legs
    or_error (set_balance_constraints false) (classify e no_index no_leg)
    wrapped "re-defer the balance check" (set_balance_constraints true)
    pure id

-- SELECT currency FROM accounts WHERE code = $1
unfoldable pub currency_of : String → Tx String
currency_of code = do
  a ← query λ d. done (account_by_code code d.accounts)
  row ← scan_row a
  pure row.currency

-- What a second look at the ledger adds to a currency mismatch.
unfoldable pub second_look : Failure → LegFault → PgError → Tx Failure
unfolding currency_of
second_look e leg p =
    rescue
      (do
        held ← currency_of leg.account
        pure (Failure.leg (record leg { holds = held }) (refusal_of Sentinel.currency_mismatch p)))
      (λ _. pure e)

unfoldable pub explain_leg : Failure → Option LegFault → Tx Failure
unfolding second_look
explain_leg e none = pure e
explain_leg e (some leg) =
    if not (is Sentinel.currency_mismatch e)
    then pure e
    else elim (as_server e) [ none ↦ pure e | some p ↦ second_look e leg p ]

unfoldable pub explain : Failure → Tx Failure
unfolding explain_leg
explain e = explain_leg e (as_leg e)

-- errors.Join(err, fmt.Errorf("rollback to savepoint: %w", rbErr))
abbrev pub joined : {A : Type 0} → Failure → Tx A → Tx A
joined e m = or_error m λ rb. Failure.join e (Failure.wrap "rollback to savepoint" rb)

-- What Post does with an error of `post`.
unfoldable pub undo_post : Failure → Tx String
undo_post e = do joined e (rollback_to post_savepoint); e' ← explain e; raise e'

unfoldable pub post_entry : Server → Entry → Tx String
post_entry pg e = do
  wrapped "savepoint" (savepoint post_savepoint)
  id ← rescue (post pg e) undo_post
  wrapped "release savepoint" (release post_savepoint)
  pure id
