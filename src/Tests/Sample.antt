-- ===== src/Tests/Sample.antt =====
-- A server, a chart and entries to run the definitions on.
use Prim.Native.Char.{code}
use pacioli.Prelude.{
  ℕ, zero, suc, ◌≡◌, refl, ap, Bool, true, false, ◌&&◌, ◌||◌, none, some, List, [], ◌∷◌, String,
  ltb, leb, ◌==◌, ◌-◌, ◌%◌,
}
use pacioli.Prelude.Int.{ℤ, pos, negsuc}
use pacioli.Schema.Server.{Server, Uuid, codes, char_length}
use pacioli.Schema.Tables.{Database, AccountRow, AccountKind, initially_deferred}
use pacioli.Session.Script.{Command}
use pacioli.Failure.{DriverError}
use pacioli.Http.Pool.{Fate}
use pacioli.Http.Wire.{Library}
use pacioli.Ledger.Entry.{Entry, Leg}
use pacioli.Prelude.Int.{◌+ℤ◌, -ℤ◌}
use pacioli.Schema.Server.{
  matches_code, matches_currency, is_blank, has_control_character, is_words, matches_key,
}
use pacioli.Schema.Tables.{
  account_by_code, account_by_id, transaction_by_id, key_by_key, contains_check, count_legs,
  sum_legs,
}
use pacioli.Schema.Triggers.{
  assert_transaction_balances, queue_a_balance_check, idempotency_key_names_a_transaction, fire,
  fire_all, settle, commit,
}
use pacioli.Schema.Statements.{
  insert_account, insert_transaction, insert_key, insert_posting, mutate_book, Mutation, settle_key,
  insert_check, delete_check, update_check, set_constraints,
}
use pacioli.Session.{sent, exec, write, query, find_savepoint, savepoint, rollback_to, release}
use pacioli.Session.Script.{run_command, run_script, end_session}
use pacioli.Ledger.Minor.{add}
use pacioli.Ledger.Entry.{classify, classify_server, leg_err, unbalanced, net, sum_from}
use pacioli.Ledger.Post.{
  post_entry, post, insert_entry, insert_legs, insert_leg, undo_post, explain, explain_leg,
  second_look, currency_of,
}

-- A uuid's text is a stroke for each number below it.
strokes : Uuid → String
strokes zero = ""
strokes (suc n) = String.◌∷◌ "i" (strokes n)

char_length-strokes : (u : Uuid) → char_length (strokes u) ≡ u
unfolding strokes
char_length-strokes zero = refl
char_length-strokes (suc n) = ap suc (char_length-strokes n)

abbrev lexical : List ℕ → List ℕ → Bool
lexical [] [] = false
lexical [] (d ∷ t) = true
lexical (c ∷ s) [] = false
lexical (c ∷ s) (d ∷ t) = ltb c d || (c == d && lexical s t)

unfoldable pub sample : Server
unfolding strokes char_length-strokes
sample = record {
  space = λ c. c == 32 || leb 9 c && leb c 13;
  cntrl = λ c. ltb c 32 || c == 127;
  graph = λ c. ltb 32 c && ltb c 127;
  before = λ s t. lexical (codes s) (codes t);
  uuid_text = strokes;
  uuid_of = λ s. some (char_length s);
  timestamptz = λ t. t - t % 1000;
  uuid_of-uuid_text = λ u. ap some (char_length-strokes u);
}

abbrev pub empty : Database
empty = record {
  accounts = [];
  transactions = [];
  postings = [];
  balance_checks = [];
  idempotency_keys = [];
  queue = [];
  modes = initially_deferred;
}

abbrev pub cash : AccountRow
cash = record {
  id = 1;
  code = "assets.cash";
  name = "Cash at bank";
  kind = AccountKind.asset;
  currency = "GBP";
}

abbrev pub fees : AccountRow
fees = record {
  id = 2;
  code = "revenue.fees";
  name = "Fees";
  kind = AccountKind.revenue;
  currency = "GBP";
}

abbrev pub dollars : AccountRow
dollars = record {
  id = 3;
  code = "assets.usd";
  name = "Dollars";
  kind = AccountKind.asset;
  currency = "USD";
}

abbrev pub chart : Database
chart = record empty { accounts = cash ∷ fees ∷ dollars ∷ [] }

abbrev pub leg : String → ℤ → Leg
leg code amount = record { account = code; amount_minor = amount }

abbrev pub entry : List Leg → Entry
entry legs = record {
  currency = "GBP";
  description = "Customer deposit";
  legs = legs;
  occurred_at = some 7;
}

abbrev pub deposit : Entry
deposit = entry (leg "assets.cash" (pos 150) ∷ leg "revenue.fees" (negsuc 149) ∷ [])

abbrev pub short : Entry
short = entry (leg "assets.cash" (pos 150) ∷ leg "revenue.fees" (negsuc 14) ∷ [])

abbrev pub crossed : Entry
crossed = entry (leg "assets.cash" (pos 150) ∷ leg "assets.usd" (negsuc 149) ∷ [])

-- One posted entry.
abbrev pub posted : Database
posted = record chart {
  transactions =
      record { id = 9; currency = "GBP"; description = "Customer deposit"; occurred_at = 7 } ∷ [];
  postings =
      record { transaction_id = 9; account_id = 1; currency = "GBP"; amount_minor = pos 150 }
      ∷ record { transaction_id = 9; account_id = 2; currency = "GBP"; amount_minor = negsuc 149 }
      ∷ [];
}

abbrev hash_from : ℕ → ℕ → List ℕ
hash_from zero byte = []
hash_from (suc n) byte = byte ∷ hash_from n byte

abbrev pub hash_a : List ℕ
hash_a = hash_from 32 7

abbrev pub hash_b : List ℕ
hash_b = hash_from 32 8

abbrev pub key_a : String
key_a = "deposit-2024-0001"

-- One posted entry, under a key.
abbrev pub held : Database
held = record posted {
  idempotency_keys = record { key = key_a; request_hash = hash_a; transaction_id = some 9 } ∷ [];
}

abbrev pub script : List Command
script =
    Command.open_account "assets.cash" "Cash at bank" "asset" "GBP"
    ∷ Command.open_account "revenue.fees" "Fees" "revenue" "GBP"
    ∷ Command.open_entry "GBP" "Customer deposit" 7
    ∷ Command.save "legs"
    ∷ Command.add_leg 2 (some 0) (some "GBP") (pos 150)
    ∷ Command.mutate (Mutation.leg_rows 2)
    ∷ Command.back_to "legs"
    ∷ Command.add_leg 2 (some 0) (some "GBP") (pos 150)
    ∷ Command.add_leg 2 (some 1) (some "GBP") (negsuc 149)
    ∷ []

-- The connection is cut while COMMIT's answer is on its way.
abbrev pub lost : Fate
lost = record {
  refusal = none;
  request_over = false;
  wait_over = false;
  begin_fails = none;
  cut = none;
  fault = DriverError.other;
  now = 5;
  commit_lost = some DriverError.deadline_exceeded;
  committed = true;
}

abbrev pub no_library : Library
no_library = record {
  parse_query = λ s. none;
  encode = λ q. "";
  atoi = λ s. none;
  itoa = λ n. "";
  duration_text = λ n. "";
  sorts_before = λ s t. false;
}

-- A run that names this opens the schema, the session and the ledger.
unfoldable pub schema_open : Unit {0}
unfolding sample matches_code matches_currency is_blank has_control_character is_words matches_key
    account_by_code account_by_id transaction_by_id key_by_key contains_check count_legs sum_legs
    assert_transaction_balances queue_a_balance_check idempotency_key_names_a_transaction fire
    fire_all settle commit insert_account insert_transaction insert_key insert_posting mutate_book
    settle_key insert_check delete_check update_check set_constraints ◌+ℤ◌ -ℤ◌
schema_open = tt

unfoldable pub session_open : Unit {0}
unfolding schema_open sent exec write query find_savepoint savepoint rollback_to release run_command
    run_script end_session
session_open = tt

unfoldable pub ledger_open : Unit {0}
unfolding session_open post_entry post insert_entry insert_legs insert_leg undo_post explain
    explain_leg second_look currency_of classify classify_server leg_err unbalanced net sum_from add
ledger_open = tt
