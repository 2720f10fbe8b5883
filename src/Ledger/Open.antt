-- ===== src/Ledger/Open.antt =====
-- internal/ledger/accounts.go: Open, and what a second look at the chart adds to a refusal.
use pacioli.Prelude.{Option, none, some, List, [], String, str_eq, if◌then◌else◌}
use pacioli.Failure.{Failure, Sentinel, PgError, Result, ok, err, as_server, sqlstate}
use pacioli.Schema.Server.{Server}
use pacioli.Schema.Tables.{AccountRow, done, account_by_code}
use pacioli.Schema.Statements.{insert_account}
use pacioli.Session.{
  Tx, pure, raise, ◌>>=◌, ◌>>◌, rescue, attempt, or_error, wrapped, write, query, savepoint,
  rollback_to, release,
}
use pacioli.Ledger.Read.{read_kinds}

pub record Account : Type 0 where
  pub code : String
  pub name : String
  pub kind : String
  pub currency : String

abbrev pub open_savepoint : String
open_savepoint = "ledger_open"

-- `holder` is set where an account holds the code.
pub record Refusal : Type 0 where
  pub holder : Option AccountRow
  pub kinds : List String

abbrev pub no_refusal : Refusal
no_refusal = record { holder = none; kinds = [] }

-- holderOf: no holder where the row cannot be read
unfoldable pub holder_of : String → Tx (Option AccountRow)
holder_of code = rescue (query λ d. done (account_by_code code d.accounts)) (λ e. pure none)

abbrev of_kinds : Result (List String) → Refusal
of_kinds (ok kinds) = record { holder = none; kinds = kinds }
of_kinds (err e) = no_refusal

unfoldable pub second_look : Failure → Account → Tx Refusal
unfolding holder_of
second_look e a =
    if str_eq (sqlstate e) "23505"
    then (do h ← holder_of a.code; pure (record { holder = h; kinds = [] }))
    else if str_eq (sqlstate e) "22P02"
    then (do r ← attempt read_kinds; pure (of_kinds r))
    else pure no_refusal

unfoldable pub classify_open_server : PgError → Account → Refusal → Failure
classify_open_server p a more =
    if str_eq p.code "23505"
    then Failure.join (Failure.sentinel Sentinel.account_exists) (Failure.server p)
    else if str_eq p.code "22P02"
    then Failure.bad_kind_of a.kind more.kinds (Failure.server p)
    else Failure.join (Failure.sentinel Sentinel.rejected) (Failure.server p)

unfoldable pub classify_open : Failure → Account → Refusal → Failure
unfolding classify_open_server
classify_open e a more = elim (as_server e) [
  | none ↦ Failure.wrap "open account" e
  | some p ↦ classify_open_server p a more
]

-- What Open does with a refused insert.
unfoldable pub undo_open : Account → Failure → Tx (Unit {0})
undo_open a e = do
  or_error (rollback_to open_savepoint)
      (λ rb. Failure.join (classify_open e a no_refusal) (Failure.wrap "rollback to savepoint" rb))
  more ← second_look e a
  raise (classify_open e a more)

unfoldable pub insert_chart : Server → Account → Tx (Unit {0})
insert_chart pg a = write λ u. insert_account pg u a.code a.name a.kind a.currency

abbrev pub opened : Account → Result (Unit {0}) → Tx (Unit {0})
opened a (ok u) = wrapped "release savepoint" (release open_savepoint)
opened a (err e) = undo_open a e

unfoldable pub open_account : Server → Account → Tx (Unit {0})
open_account pg a = do
  wrapped "savepoint" (savepoint open_savepoint)
  r ← attempt (insert_chart pg a)
  opened a r
