-- ===== src/Failure.antt =====
-- Go's error values as internal/ledger and internal/ledgerhttp build and read them: the sentinels,
-- the server's own *pgconn.PgError, the driver's errors, and the wrapping of fmt.Errorf("%w") and
-- errors.Join, with errors.Is and errors.As as walks over the tree. The words of a message are
-- kept only where no value is formatted into them.
use pacioli.Prelude.{ℕ, Bool, false, ◌||◌, Option, none, some, List, String, ◌==◌}
use pacioli.Prelude.Int.{ℤ}

pub data Sentinel : Type 0 where
  unbalanced unknown_account currency_mismatch rejected : Sentinel
  unknown_transaction bad_transaction_id : Sentinel
  key_reused bad_key : Sentinel
  account_exists unknown_kind : Sentinel

abbrev pub tag : Sentinel → ℕ
tag Sentinel.unbalanced = 0
tag Sentinel.unknown_account = 1
tag Sentinel.currency_mismatch = 2
tag Sentinel.rejected = 3
tag Sentinel.unknown_transaction = 4
tag Sentinel.bad_transaction_id = 5
tag Sentinel.key_reused = 6
tag Sentinel.bad_key = 7
tag Sentinel.account_exists = 8
tag Sentinel.unknown_kind = 9

abbrev pub same_sentinel : Sentinel → Sentinel → Bool
same_sentinel a b = tag a == tag b

-- context.Canceled, context.DeadlineExceeded, driver.ErrBadConn, sql.ErrTxDone, sql.ErrNoRows, and
-- every other error that is not the server's.
pub data DriverError : Type 0 where
  canceled deadline_exceeded bad_conn tx_done no_rows other : DriverError

-- *pgconn.PgError, by the fields that the program reads.
pub record PgError : Type 0 where
  pub code : String
  pub constraint_name : String
  pub table_name : String
  pub column_name : String

-- LegError without the error that it wraps.
pub record LegFault : Type 0 where
  pub index : ℤ
  pub account : String
  pub amount_minor : ℤ
  pub holds : String

pub data Failure : Type 0 where
  sentinel : Sentinel → Failure
  driver : DriverError → Failure
  server : PgError → Failure
  plain : String → Failure
  wrap : String → Failure → Failure
  join : Failure → Failure → Failure
  leg : LegFault → Failure → Failure
  -- UnknownKindError, whose Err may be nil
  bad_kind : String → List String → Failure
  bad_kind_of : String → List String → Failure → Failure
  -- OverloadError, its ceiling in nanoseconds
  overload : ℕ → Failure

-- errors.Is against one of the package's sentinels.
abbrev pub is : Sentinel → Failure → Bool
is s (Failure.sentinel t) = same_sentinel t s
is s (Failure.driver d) = false
is s (Failure.server e) = false
is s (Failure.plain m) = false
is s (Failure.wrap m e) = is s e
is s (Failure.join a b) = is s a || is s b
is s (Failure.leg l e) = is s e
is s (Failure.bad_kind k v) = same_sentinel Sentinel.unknown_kind s
is s (Failure.bad_kind_of k v e) = same_sentinel Sentinel.unknown_kind s || is s e
is s (Failure.overload c) = false

abbrev pub or_else {ℓ} : {A : Type ℓ} → Option A → Option A → Option A
or_else none b = b
or_else (some a) b = some a

-- errors.As into a *pgconn.PgError.
abbrev pub as_server : Failure → Option PgError
as_server (Failure.server e) = some e
as_server (Failure.wrap m e) = as_server e
as_server (Failure.join a b) = or_else (as_server a) (as_server b)
as_server (Failure.leg l e) = as_server e
as_server (Failure.bad_kind_of k v e) = as_server e
as_server _ = none

-- errors.As into a *LegError.
abbrev pub as_leg : Failure → Option LegFault
as_leg (Failure.leg l e) = some l
as_leg (Failure.wrap m e) = as_leg e
as_leg (Failure.join a b) = or_else (as_leg a) (as_leg b)
as_leg (Failure.bad_kind_of k v e) = as_leg e
as_leg _ = none

-- `code` of idempotency.go: the SQLSTATE the server answered with, or "".
abbrev pub sqlstate : Failure → String
sqlstate e = elim (as_server e) [ none ↦ "" | some p ↦ p.code ]

pub data Result {ℓ} (A : Type ℓ) : Type ℓ where
  ok : A → Result A
  err : Failure → Result A
