-- ===== src/Ledger/Read.antt =====
-- The reads of internal/ledger: EntryOf (ledger.go), BalanceOf, Balances and TrialBalance
-- (balance.go), over the view account_balances of internal/schema/0001_ledger.sql.
use pacioli.Prelude.{
  ℕ, ◌+◌, Bool, false, ◌&&◌, ◌||◌, Option, none, some, List, [], ◌∷◌, String, str_eq, ◌==◌, keep,
  take, map, if◌then◌else◌,
}
use pacioli.Prelude.Int.{ℤ, ◌+ℤ◌, pos_part}
use pacioli.Failure.{Failure, Sentinel, DriverError, sqlstate}
use pacioli.Schema.Server.{Server, Uuid, codes}
use pacioli.Schema.Tables.{
  Database, AccountRow, TransactionRow, PostingRow, Answer, done, refused, raised, account_by_code,
  account_by_id, transaction_by_id,
}
use pacioli.Schema.Statements.{account_kinds, kind_text}
use pacioli.Session.{Tx, pure, raise, scan_row, ◌>>=◌, ◌>>◌, rescue, wrapped, query}
use pacioli.Ledger.Minor.{Minor, no_units}
use pacioli.Ledger.Entry.{Leg, Entry}

-- SELECT a.code, p.amount_minor FROM postings p JOIN accounts a … WHERE p.transaction_id = $1
-- ORDER BY p.id
abbrev pub joined_leg : PostingRow → Option AccountRow → List Leg → List Leg
joined_leg p none legs = legs
joined_leg p (some a) legs = record { account = a.code; amount_minor = p.amount_minor } ∷ legs

unfoldable pub legs_of : Uuid → List AccountRow → List PostingRow → List Leg
legs_of t as' [] = []
legs_of t as' (p ∷ ps) =
    let rest = legs_of t as' ps in
    if p.transaction_id == t then joined_leg p (account_by_id p.account_id as') rest else rest

module _ (pg : Server) where
  -- SELECT … FROM transactions WHERE id = $1::uuid
  unfoldable pub find_transaction : String → Database → Answer (Option TransactionRow)
  find_transaction id d = elim (pg.uuid_of id) [
    | none ↦ refused (raised "22P02")
    | some t ↦ done (transaction_by_id t d.transactions)
  ]

  -- What EntryOf makes of an error of its first query.
  unfoldable pub no_entry : Failure → Failure
  no_entry (Failure.driver DriverError.no_rows) = Failure.sentinel Sentinel.unknown_transaction
  no_entry e =
      if str_eq (sqlstate e) "22P02"
      then Failure.join (Failure.sentinel Sentinel.bad_transaction_id) e
      else Failure.wrap "read transaction" e

  unfoldable pub entry_of : String → Tx (String × Entry)
  unfolding no_entry
  entry_of id = do
    t ← rescue (do row ← query (find_transaction id); scan_row row) (λ e. raise (no_entry e))
    legs ← wrapped "read the legs" (query λ d. done (legs_of t.id d.accounts d.postings))
    pure (
      pg.uuid_text t.id,
      record {
        currency = t.currency;
        description = t.description;
        legs = legs;
        occurred_at = some t.occurred_at;
      },
    )

pub record Balance : Type 0 where
  pub account : String
  pub name : String
  pub kind : String
  pub currency : String
  pub amount_minor : Minor
  pub postings : ℕ

-- coalesce(sum(p.amount_minor), 0) and count(p.id) over the postings of one account
unfoldable pub balance_minor : Uuid → List PostingRow → Minor
balance_minor a [] = no_units
balance_minor a (p ∷ ps) =
    let rest = balance_minor a ps in if p.account_id == a then p.amount_minor +ℤ rest else rest

unfoldable pub posting_count : Uuid → List PostingRow → ℕ
posting_count a [] = 0
posting_count a (p ∷ ps) =
    let rest = posting_count a ps in if p.account_id == a then rest + 1 else rest

-- A row of account_balances.
unfoldable pub balance_row : Database → AccountRow → Balance
balance_row d a = record {
  account = a.code;
  name = a.name;
  kind = kind_text a.kind;
  currency = a.currency;
  amount_minor = balance_minor a.id d.postings;
  postings = posting_count a.id d.postings;
}

abbrev pub balance_of_row : Database → Option AccountRow → Option Balance
balance_of_row d none = none
balance_of_row d (some a) = some (balance_row d a)

abbrev no_balance : Failure → Failure
no_balance (Failure.driver DriverError.no_rows) = Failure.sentinel Sentinel.unknown_account
no_balance e = Failure.wrap "read the balance" e

-- A text with a NUL in it, which Postgres takes for no text.
unfoldable pub has_nul : List ℕ → Bool
has_nul [] = false
has_nul (c ∷ cs) = c == 0 || has_nul cs

-- The query of BalanceOf.
unfoldable pub find_balance : String → Database → Answer (Option Balance)
find_balance code d =
    if has_nul (codes code)
    then refused (raised "22021")
    else done (balance_of_row d (account_by_code code d.accounts))

unfoldable pub balance_of : String → Tx Balance
balance_of code =
    rescue (do row ← query (find_balance code); scan_row row) (λ e. raise (no_balance e))

pub record AccountFilter : Type 0 where
  pub currency : String
  pub kind : String
  pub after : String
  pub limit : ℤ

-- slices.Contains
unfoldable pub contains : List String → String → Bool
contains [] s = false
contains (t ∷ ts) s = str_eq t s || contains ts s

-- SELECT unnest(enum_range(NULL::account_kind))::text
unfoldable pub read_kinds : Tx (List String)
read_kinds = query λ d. done account_kinds

unfoldable pub check_kind : String → Tx (Unit {0})
unfolding read_kinds
check_kind kind = if str_eq kind "" then pure tt else (do
  kinds ← wrapped "read the account kinds" read_kinds
  if contains kinds kind then pure tt else raise (Failure.bad_kind kind kinds))

module _ (pg : Server) where
  -- ORDER BY code
  unfoldable pub insert_sorted : Balance → List Balance → List Balance
  insert_sorted b [] = b ∷ []
  insert_sorted b (c ∷ cs) =
      let later = c ∷ insert_sorted b cs in
      if pg.before b.account c.account then b ∷ c ∷ cs else later

  unfoldable pub sorted : List Balance → List Balance
  sorted [] = []
  sorted (b ∷ bs) = insert_sorted b (sorted bs)

  -- (nullif($n, '') IS NULL OR …)
  unfoldable pub matches : AccountFilter → Balance → Bool
  matches f b =
      (str_eq f.currency "" || str_eq b.currency f.currency)
      && (str_eq f.kind "" || str_eq b.kind f.kind)
      && (str_eq f.after "" || pg.before f.after b.account)

  -- LIMIT nullif($4, 0), over max(f.Limit, 0)
  unfoldable pub limited : ℤ → List Balance → List Balance
  limited n rows = if pos_part n == 0 then rows else take (pos_part n) rows

  unfoldable pub list_balances : AccountFilter → Database → List Balance
  list_balances f d = limited f.limit (keep (matches f) (sorted (map (balance_row d) d.accounts)))

  unfoldable pub balances : AccountFilter → Tx (List Balance)
  balances f = do check_kind f.kind; wrapped "list balances" (query λ d. done (list_balances f d))
