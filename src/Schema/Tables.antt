-- ===== src/Schema/Tables.antt =====
-- The tables of internal/schema/0001_ledger.sql, the queue of deferred trigger events, and the mode
-- of the three deferrable triggers, as one transaction sees them.
use pacioli.Prelude.{
  ℕ, ◌+◌, Bool, true, false, ◌||◌, Option, none, some, List, [], ◌∷◌, String, str_eq, ◌==◌,
  if◌then◌else◌,
}
use pacioli.Prelude.Int.{ℤ, pos, ◌+ℤ◌}
use pacioli.Failure.{PgError}
use pacioli.Schema.Server.{Uuid}

pub data AccountKind : Type 0 where
  asset liability equity revenue expense : AccountKind

pub record AccountRow : Type 0 where
  pub id : Uuid
  pub code : String
  pub name : String
  pub kind : AccountKind
  pub currency : String

pub record TransactionRow : Type 0 where
  pub id : Uuid
  pub currency : String
  pub description : String
  -- an instant
  pub occurred_at : ℕ

pub record PostingRow : Type 0 where
  pub transaction_id : Uuid
  pub account_id : Uuid
  pub currency : String
  pub amount_minor : ℤ

pub record KeyRow : Type 0 where
  pub key : String
  pub request_hash : List ℕ
  pub transaction_id : Option Uuid

-- The deferrable constraint triggers.
pub data Constraint : Type 0 where
  transactions_must_balance : Constraint
  balance_checks_must_balance : Constraint
  idempotency_keys_must_be_settled : Constraint

-- An event that a deferrable trigger has still to fire on.
pub data Event : Type 0 where
  transaction_inserted : Uuid → Event
  check_inserted : Uuid → Event
  key_written : String → Event

abbrev pub constraint_of : Event → Constraint
constraint_of (Event.transaction_inserted t) = Constraint.transactions_must_balance
constraint_of (Event.check_inserted t) = Constraint.balance_checks_must_balance
constraint_of (Event.key_written k) = Constraint.idempotency_keys_must_be_settled

-- Which of the triggers are DEFERRED; the others are IMMEDIATE.
pub record Modes : Type 0 where
  pub transactions : Bool
  pub checks : Bool
  pub keys : Bool

abbrev pub is_deferred : Modes → Constraint → Bool
is_deferred m Constraint.transactions_must_balance = m.transactions
is_deferred m Constraint.balance_checks_must_balance = m.checks
is_deferred m Constraint.idempotency_keys_must_be_settled = m.keys

abbrev pub initially_deferred : Modes
initially_deferred = record { transactions = true; checks = true; keys = true }

abbrev pub all_immediate : Modes
all_immediate = record { transactions = false; checks = false; keys = false }

-- Rows stand in the order in which they were written, which for postings is that of their ids.
pub record Database : Type 0 where
  pub accounts : List AccountRow
  pub transactions : List TransactionRow
  pub postings : List PostingRow
  pub balance_checks : List Uuid
  pub idempotency_keys : List KeyRow
  pub queue : List Event
  pub modes : Modes

-- What a statement answers: the server's refusal, or a value.
pub data Answer (A : Type 0) : Type 0 where
  done : A → Answer A
  refused : PgError → Answer A

infixl 5 ◌>>=◌ ◌>>◌
abbrev pub ◌>>=◌ : {A B : Type 0} → Answer A → (A → Answer B) → Answer B
done a >>= f = f a
refused e >>= f = refused e

abbrev pub ◌>>◌ : {A B : Type 0} → Answer A → Answer B → Answer B
m >> k = m >>= λ _. k

abbrev pub refuse_if : Bool → PgError → Answer (Unit {0})
refuse_if true e = refused e
refuse_if false e = done tt

-- An error that names no constraint, table or column.
abbrev pub raised : String → PgError
raised code = record { code = code; constraint_name = ""; table_name = ""; column_name = "" }

-- A CHECK, unique or foreign key violation.
abbrev pub violates : String → String → String → PgError
violates code constraint table = record {
  code = code;
  constraint_name = constraint;
  table_name = table;
  column_name = "";
}

abbrev pub null_in : String → String → PgError
null_in column table = record {
  code = "23502";
  constraint_name = "";
  table_name = table;
  column_name = column;
}

-- Lookups by primary key, unique column and foreign key.
unfoldable pub account_by_code : String → List AccountRow → Option AccountRow
account_by_code c [] = none
account_by_code c (a ∷ as') = if str_eq a.code c then some a else account_by_code c as'

unfoldable pub account_by_id : Uuid → List AccountRow → Option AccountRow
account_by_id u [] = none
account_by_id u (a ∷ as') = if a.id == u then some a else account_by_id u as'

unfoldable pub transaction_by_id : Uuid → List TransactionRow → Option TransactionRow
transaction_by_id u [] = none
transaction_by_id u (t ∷ ts) = if t.id == u then some t else transaction_by_id u ts

unfoldable pub key_by_key : String → List KeyRow → Option KeyRow
key_by_key k [] = none
key_by_key k (r ∷ rs) = if str_eq r.key k then some r else key_by_key k rs

unfoldable pub contains_check : Uuid → List Uuid → Bool
contains_check u [] = false
contains_check u (v ∷ vs) = v == u || contains_check u vs

-- The legs of one transaction: how many, and what they sum to.
unfoldable pub count_legs : Uuid → List PostingRow → ℕ
count_legs t [] = 0
count_legs t (p ∷ ps) = if p.transaction_id == t then count_legs t ps + 1 else count_legs t ps

unfoldable pub sum_legs : Uuid → List PostingRow → ℤ
sum_legs t [] = pos 0
sum_legs t (p ∷ ps) =
    if p.transaction_id == t then p.amount_minor +ℤ sum_legs t ps else sum_legs t ps

-- The primary keys of a table of transactions.
abbrev pub ids : List TransactionRow → List Uuid
ids [] = []
ids (t ∷ ts) = t.id ∷ ids ts
