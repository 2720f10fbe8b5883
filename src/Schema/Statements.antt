-- ===== src/Schema/Statements.antt =====
-- The writes that the schema takes, row by row: the NOT NULL and CHECK constraints, the keys, the
-- row triggers, and the end of the statement. Each answers the new tables or the server's refusal.
use pacioli.Prelude.{
  ℕ, Bool, true, false, not, ◌&&◌, Option, none, some, List, [], ◌∷◌, ◌++◌, String, str_eq, ◌==◌,
  keep, length, if◌then◌else◌,
}
use pacioli.Prelude.Int.{ℤ, is_zero}
use pacioli.Schema.Server.{
  Server, Uuid, codes, matches_code, matches_currency, is_words, matches_key,
}
use pacioli.Schema.Tables.{
  Database, Modes, Event, AccountRow, TransactionRow, PostingRow, KeyRow, AccountKind, Constraint,
  Answer, done, refused, ◌>>=◌, ◌>>◌, refuse_if, raised, violates, null_in, account_by_code,
  account_by_id, transaction_by_id, count_legs, key_by_key, contains_check,
}
use pacioli.Schema.Triggers.{queue_a_balance_check, settle}

-- The labels of account_kind, in the order of the enum.
abbrev pub account_kinds : List String
account_kinds = "asset" ∷ "liability" ∷ "equity" ∷ "revenue" ∷ "expense" ∷ []

abbrev pub kind_text : AccountKind → String
kind_text AccountKind.asset = "asset"
kind_text AccountKind.liability = "liability"
kind_text AccountKind.equity = "equity"
kind_text AccountKind.revenue = "revenue"
kind_text AccountKind.expense = "expense"

-- `$3::account_kind`
abbrev pub cast_kind : String → Answer AccountKind
cast_kind s =
    if str_eq s "asset"
    then done AccountKind.asset
    else if str_eq s "liability"
    then done AccountKind.liability
    else if str_eq s "equity"
    then done AccountKind.equity
    else if str_eq s "revenue"
    then done AccountKind.revenue
    else if str_eq s "expense"
    then done AccountKind.expense
    else refused (raised "22P02")

abbrev pub some_row : {A : Type 0} → Option A → Bool
some_row none = false
some_row (some a) = true

-- A foreign key (id, currency): the row that the id names holds the currency.
abbrev pub transaction_holds : String → Option TransactionRow → Bool
transaction_holds c none = false
transaction_holds c (some t) = str_eq t.currency c

abbrev pub account_holds : String → Option AccountRow → Bool
account_holds c none = false
account_holds c (some a) = str_eq a.currency c

module _ (pg : Server) where
  unfoldable pub insert_account :
      Uuid → String → String → String → String → Database → Answer Database
  insert_account id code name kind currency d = do
    k ← cast_kind kind
    refuse_if (not (matches_code (codes code))) (violates "23514" "accounts_code_check" "accounts")
    refuse_if (not (matches_currency (codes currency)))
        (violates "23514" "accounts_currency_check" "accounts")
    refuse_if (not (is_words pg 100 name)) (violates "23514" "accounts_name_check" "accounts")
    refuse_if (some_row (account_by_id id d.accounts)) (violates "23505" "accounts_pkey" "accounts")
    refuse_if (some_row (account_by_code code d.accounts))
        (violates "23505" "accounts_code_key" "accounts")
    let row : AccountRow = record {
      id = id;
      code = code;
      name = name;
      kind = k;
      currency = currency;
    }
    settle (record d { accounts = d.accounts ++ row ∷ [] })

  unfoldable pub insert_transaction : Uuid → String → String → ℕ → Database → Answer Database
  insert_transaction id currency description occurred_at d = do
    refuse_if (not (matches_currency (codes currency)))
        (violates "23514" "transactions_currency_check" "transactions")
    refuse_if (not (is_words pg 500 description))
        (violates "23514" "transactions_description_check" "transactions")
    refuse_if (some_row (transaction_by_id id d.transactions))
        (violates "23505" "transactions_pkey" "transactions")
    let row : TransactionRow = record {
      id = id;
      currency = currency;
      description = description;
      occurred_at = occurred_at;
    }
    settle (record d {
      transactions = d.transactions ++ row ∷ [];
      queue = d.queue ++ Event.transaction_inserted id ∷ [];
    })

  -- The insert of one key: a duplicate is refused by the primary key.
  unfoldable pub insert_key : String → List ℕ → Database → Answer Database
  insert_key key hash d = do
    refuse_if (not (matches_key pg (codes key)))
        (violates "23514" "idempotency_keys_key_shape" "idempotency_keys")
    refuse_if (not (length hash == 32))
        (violates "23514" "idempotency_keys_request_hash_check" "idempotency_keys")
    refuse_if (some_row (key_by_key key d.idempotency_keys))
        (violates "23505" "idempotency_keys_pkey" "idempotency_keys")
    let row : KeyRow = record { key = key; request_hash = hash; transaction_id = none }
    settle (record d {
      idempotency_keys = d.idempotency_keys ++ row ∷ [];
      queue = d.queue ++ Event.key_written key ∷ [];
    })

-- A posting names a transaction, and an account and a currency that may be NULL.
unfoldable pub insert_posting : Uuid → Option Uuid → Option String → ℤ → Database → Answer Database
insert_posting t none c amount d = refused (null_in "account_id" "postings")
insert_posting t (some a) none amount d = refused (null_in "currency" "postings")
insert_posting t (some a) (some c) amount d = do
  refuse_if (is_zero amount) (violates "23514" "postings_amount_minor_check" "postings")
  refuse_if (not (transaction_holds c (transaction_by_id t d.transactions)))
      (violates "23503" "postings_transaction_id_currency_fkey" "postings")
  refuse_if (not (account_holds c (account_by_id a d.accounts)))
      (violates "23503" "postings_account_id_currency_fkey" "postings")
  let row : PostingRow = record {
    transaction_id = t;
    account_id = a;
    currency = c;
    amount_minor = amount;
  }
  settle (queue_a_balance_check t (record d { postings = d.postings ++ row ∷ [] }))

-- reject_mutation: UPDATE, DELETE and TRUNCATE of transactions and postings.
-- An UPDATE or DELETE of an entry's row or of its legs, and a TRUNCATE of postings.
pub data Mutation : Type 0 where
  entry_row : Uuid → Mutation
  leg_rows : Uuid → Mutation
  truncate_legs : Mutation

-- The triggers of UPDATE and DELETE fire for each row, so a statement that finds none is taken.
unfoldable pub mutate_book : Mutation → Database → Answer Database
mutate_book (Mutation.entry_row u) d = do
  refuse_if (some_row (transaction_by_id u d.transactions)) (raised "LB002")
  settle d
mutate_book (Mutation.leg_rows u) d = do
  refuse_if (not (count_legs u d.postings == 0)) (raised "LB002")
  settle d
mutate_book Mutation.truncate_legs d = refused (raised "LB002")

-- The rows of the key that still await their result name the transaction.
abbrev pub settle_rows : String → Uuid → List KeyRow → List KeyRow
settle_rows k t [] = []
settle_rows k t (r ∷ rs) =
    if str_eq r.key k && not (some_row r.transaction_id)
    then record r { transaction_id = some t } ∷ settle_rows k t rs
    else r ∷ settle_rows k t rs

abbrev pub is_reserved : Option KeyRow → Bool
is_reserved none = false
is_reserved (some r) = not (some_row r.transaction_id)

-- UPDATE idempotency_keys SET transaction_id = $2 WHERE key = $1 AND transaction_id IS NULL. The
-- guard leaves idempotency_record_is_final nothing to refuse; no row is no write.
unfoldable pub settle_key : String → Uuid → Database → Answer Database
settle_key k t d =
    if is_reserved (key_by_key k d.idempotency_keys)
    then (do
      refuse_if (not (some_row (transaction_by_id t d.transactions)))
          (violates "23503" "idempotency_keys_transaction_id_fkey" "idempotency_keys")
      settle (record d {
        idempotency_keys = settle_rows k t d.idempotency_keys;
        queue = d.queue ++ Event.key_written k ∷ [];
      }))
    else settle d

-- The queue table takes direct writes too: nothing guards it.
unfoldable pub insert_check : Uuid → Database → Answer Database
insert_check t d =
    if contains_check t d.balance_checks
    then refused (violates "23505" "balance_checks_pkey" "balance_checks")
    else settle (record d {
      balance_checks = t ∷ d.balance_checks;
      queue = d.queue ++ Event.check_inserted t ∷ [];
    })

unfoldable pub delete_check : Uuid → Database → Answer Database
delete_check t d = settle (record d { balance_checks = keep (λ u. not (u == t)) d.balance_checks })

-- UPDATE balance_checks SET transaction_id = $2 WHERE transaction_id = $1
unfoldable pub update_check : Uuid → Uuid → Database → Answer Database
update_check t u d =
    if contains_check t d.balance_checks
    then (do
      let others = keep (λ v. not (v == t)) d.balance_checks
      refuse_if (contains_check u others) (violates "23505" "balance_checks_pkey" "balance_checks")
      settle (record d { balance_checks = u ∷ others }))
    else settle d

abbrev pub set_modes : List Constraint → Bool → Modes → Modes
set_modes [] b m = m
set_modes (Constraint.transactions_must_balance ∷ cs) b m =
    set_modes cs b (record m { transactions = b })
set_modes (Constraint.balance_checks_must_balance ∷ cs) b m =
    set_modes cs b (record m { checks = b })
set_modes (Constraint.idempotency_keys_must_be_settled ∷ cs) b m =
    set_modes cs b (record m { keys = b })

-- SET CONSTRAINTS … DEFERRED and … IMMEDIATE
unfoldable pub set_constraints : List Constraint → Bool → Database → Answer Database
set_constraints cs deferred d = settle (record d { modes = set_modes cs deferred d.modes })
