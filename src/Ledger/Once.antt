-- ===== src/Ledger/Once.antt =====
-- internal/ledger/idempotency.go: a write under a client's key, at most once.
pub mod Replay
pub mod Reserved
pub mod Working
pub mod Held
pub mod Lasting
pub mod Effect
pub mod Ended
use pacioli.Prelude.{
  ℕ, Bool, true, false, not, ◌&&◌, Option, none, some, List, [], ◌∷◌, String, str_eq, ◌==◌,
  if◌then◌else◌,
}
use pacioli.Failure.{Failure, Sentinel, DriverError, Result, ok, err, as_server, sqlstate}
use pacioli.Schema.Server.{Server, Uuid}
use pacioli.Schema.Tables.{Constraint, KeyRow, done, refused, raised, key_by_key}
use pacioli.Schema.Statements.{insert_key, settle_key, set_constraints}
use pacioli.Session.{
  Tx, pure, raise, ◌>>=◌, ◌>>◌, rescue, attempt, returned, or_error, wrapped, scan_row, write,
  query, savepoint, rollback_to, release,
}

pub record Claim : Type 0 where
  pub key : String
  pub request_hash : List ℕ

pub record Record : Type 0 where
  pub key : String
  pub transaction : String
  pub replayed : Bool

abbrev pub once_savepoint : String
once_savepoint = "ledger_once"

abbrev pub settled_constraint : List Constraint
settled_constraint = Constraint.idempotency_keys_must_be_settled ∷ []

abbrev pub set_settled_constraint : Bool → Tx (Unit {0})
set_settled_constraint deferred = write λ u. set_constraints settled_constraint deferred

unfoldable pub rollback_to_once : Tx (Unit {0})
rollback_to_once = wrapped "rollback to savepoint" (rollback_to once_savepoint)

unfoldable pub release_once : Tx (Unit {0})
release_once = wrapped "release savepoint" (release once_savepoint)

unfoldable pub bad_key : Failure → Failure
bad_key e = elim (as_server e) [
  | none ↦ Failure.wrap "reserve the idempotency key" e
  | some p ↦ Failure.join (Failure.sentinel Sentinel.bad_key) (Failure.server p)
]

-- bytes.Equal
unfoldable pub equal : List ℕ → List ℕ → Bool
equal [] [] = true
equal [] (y ∷ ys) = false
equal (x ∷ xs) [] = false
equal (x ∷ xs) (y ∷ ys) = x == y && equal xs ys

-- What replay makes of an error of its query.
abbrev no_key : Failure → Failure
no_key (Failure.driver DriverError.no_rows) = Failure.plain "the key was taken and is already gone"
no_key e = Failure.wrap "read the result stored under the key" e

module _ (pg : Server) where
  abbrev pub replayed_record : Claim → KeyRow → Option Uuid → Tx Record
  replayed_record c row none = raise (Failure.plain "the key is stored with no transaction")
  replayed_record c row (some t) =
      pure (record { key = c.key; transaction = pg.uuid_text t; replayed = true })

  unfoldable pub replay : Claim → Tx Record
  replay c = do
    row ←
        rescue (do found ← query λ d. done (key_by_key c.key d.idempotency_keys); scan_row found)
          (λ e. raise (no_key e))
    if not (equal row.request_hash c.request_hash)
        then raise (Failure.sentinel Sentinel.key_reused)
        else replayed_record c row row.transaction_id

  -- The reservation.
  unfoldable pub reserve : Claim → Tx (Unit {0})
  reserve c = write λ u. insert_key pg c.key c.request_hash

  -- UPDATE idempotency_keys SET transaction_id = $2::uuid …
  unfoldable pub record_result : Claim → String → Tx (Unit {0})
  record_result c id = write λ u d. elim (pg.uuid_of id) [
    | none ↦ refused (raised "22P02")
    | some t ↦ settle_key c.key t d
  ]

  -- `if rbErr := rollbackToOnce(…); rbErr != nil { return errors.Join(err, rbErr) }`
  unfoldable pub undone : {A : Type 0} → Failure → Tx A → Tx A
  undone e after = do or_error rollback_to_once (Failure.join e); after

  abbrev pub joined_to : {A : Type 0} → Result A → Failure → Failure
  joined_to (ok a) e = e
  joined_to (err e') e = Failure.join e' e

  -- The replay, and releaseOnce however it ended.
  unfoldable pub replay_and_release : Claim → Tx Record
  replay_and_release c = do r ← attempt (replay c); or_error release_once (joined_to r); returned r

  -- What Once does with a reservation that is refused.
  unfoldable pub not_reserved : Claim → Failure → Tx Record
  not_reserved c e =
      undone e (if str_eq (sqlstate e) "23505" then replay_and_release c else raise (bad_key e))

  -- What it does with one that is not.
  unfoldable pub reserved : Claim → Tx String → Tx Record
  reserved c work = do
    id ← rescue work (λ e. undone e (raise e))
    rescue (record_result c id)
        (λ e. undone e (raise (Failure.wrap "record transaction under key" e)))
    rescue (set_settled_constraint false) (λ e. undone e (raise (Failure.wrap "settle key" e)))
    wrapped "re-defer the settled check" (set_settled_constraint true)
    release_once
    pure (record { key = c.key; transaction = id; replayed = false })

  unfoldable pub once : Claim → Tx String → Tx Record
  once c work = do
    wrapped "savepoint" (savepoint once_savepoint)
    wrapped "defer the settled check" (set_settled_constraint true)
    r ← attempt (reserve c)
    elim r [ ok u ↦ reserved c work | err e ↦ not_reserved c e ]
