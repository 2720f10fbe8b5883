-- ===== src/Ledger/Book.antt =====
-- What a ledger is for, with no rows: entries under ids, a balance for each account's code, and the
-- keys that are held. A post adds an entry and moves the balances of the accounts that it names.
pub mod Refines
pub mod Keyed
use pacioli.Prelude.{ℕ, ◌≡◌, Option, none, some, List, [], ◌∷◌, String, str_eq, ◌==◌, if◌then◌else◌}
use pacioli.Prelude.Int.{ℤ, pos, ◌+ℤ◌}
use pacioli.Schema.Server.{Uuid}
use pacioli.Schema.Tables.{
  Database, AccountRow, TransactionRow, PostingRow, KeyRow, account_by_code, transaction_by_id,
  key_by_key,
}
use pacioli.Ledger.Entry.{Leg, Entry}
use pacioli.Ledger.Minor.{Minor}
use pacioli.Ledger.Read.{legs_of, balance_minor}

pub record Book : Type 0 where
  pub entries : Uuid → Option Entry
  pub balances : String → Option Minor
  pub keys : String → Option KeyRow

-- What an entry moves on the account of a code.
unfoldable pub moved : String → List Leg → Minor
moved code [] = pos 0
moved code (l ∷ ls) =
    if str_eq l.account code then l.amount_minor +ℤ moved code ls else moved code ls

abbrev pub moved_by : Minor → Option Minor → Option Minor
moved_by m none = none
moved_by m (some b) = some (b +ℤ m)

unfoldable pub add_entry : Uuid → Entry → Book → Book
unfolding moved
add_entry t e b = record b {
  entries = λ u. if t == u then some e else b.entries u;
  balances = λ code. moved_by (moved code e.legs) (b.balances code);
}

unfoldable pub hold_key : String → KeyRow → Book → Book
hold_key k row b = record b { keys = λ j. if str_eq k j then some row else b.keys j }

-- The book that the tables stand for.
abbrev pub entry_of_row : Option TransactionRow → List Leg → Option Entry
entry_of_row none legs = none
entry_of_row (some r) legs = some (record {
  currency = r.currency;
  description = r.description;
  legs = legs;
  occurred_at = some r.occurred_at;
})

abbrev pub balance_of_account : List PostingRow → Option AccountRow → Option Minor
balance_of_account ps none = none
balance_of_account ps (some a) = some (balance_minor a.id ps)

unfoldable pub book_of : Database → Book
book_of d = record {
  entries =
      λ u. entry_of_row (transaction_by_id u d.transactions) (legs_of u d.accounts d.postings);
  balances = λ code. balance_of_account d.postings (account_by_code code d.accounts);
  keys = λ k. key_by_key k d.idempotency_keys;
}
