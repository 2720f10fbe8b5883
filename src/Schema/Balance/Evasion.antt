-- ===== src/Schema/Balance/Evasion.antt =====
-- What an UPDATE of balance_checks lets a session commit.
use pacioli.Prelude.{
  ℕ, ◌≡◌, ◌≢◌, ◌<◌, refl, true, false, some, List, [], ◌∷◌, ◌++◌, String, ◌==◌, arith, Bool-cases,
  inl, inr,
}
use pacioli.Prelude.Int.{ℤ, is_zero, ◌+ℤ◌, +ℤ_zero, int_laws}
use pacioli.Schema.Server.{Uuid}
use pacioli.Schema.Tables.{
  Database, AccountRow, TransactionRow, PostingRow, KeyRow, Answer, done, ◌>>=◌, initially_deferred,
  account_by_id, transaction_by_id, contains_check, sum_legs,
}
use pacioli.Schema.Triggers.{
  settle, commit, fire, fire_all, assert_transaction_balances, queue_a_balance_check,
}
use pacioli.Schema.Statements.{
  insert_check, update_check, insert_posting, transaction_holds, account_holds,
}
use pacioli.Schema.Balance.Firing.{Balanced}
use pacioli.Schema.Balance.Writes.{legs_of_other}

-- INSERT INTO balance_checks, UPDATE it, INSERT INTO postings, COMMIT.
abbrev pub turn_check_away : Uuid → Uuid → Uuid → String → ℤ → Database → Answer Database
turn_check_away a b x c amount d = do
  d1 ← insert_check a d
  d2 ← update_check a b d1
  d3 ← insert_posting b (some x) (some c) amount d2
  commit d3

same_id : (n : ℕ) → (n == n) ≡ true
same_id n = ground arith

legs_not_zero : (n : ℕ) → 0 < n → (n == 0) ≡ false
legs_not_zero n h = ground arith

ids_differ : (n m : ℕ) → n ≢ m → (n == m) ≡ false
ids_differ n m h = ground arith

own_legs :
    (t : Uuid) (ps : List PostingRow) (row : PostingRow)
    → row.transaction_id ≡ t
    → sum_legs t (ps ++ row ∷ []) ≡ row.amount_minor +ℤ sum_legs t ps
unfolding sum_legs
own_legs t [] row h = rw (h, same_id t) refl
own_legs t (p ∷ ps) row h = elim (Bool-cases (p.transaction_id == t)) [
  | inl e ↦ rw (e, own_legs t ps row h) (omega int_laws)
  | inr e ↦ rw (e, own_legs t ps row h) refl
]

module _ (as' : List AccountRow) (ts : List TransactionRow) (ps : List PostingRow)
    (ks : List KeyRow) where
  abbrev pub book_of : Database
  book_of = record {
    accounts = as';
    transactions = ts;
    postings = ps;
    balance_checks = [];
    idempotency_keys = ks;
    queue = [];
    modes = initially_deferred;
  }

  -- An UPDATE of balance_checks writes around the rule: on any tables with no check queued, and
  -- between two entries that balance, COMMIT takes a leg on the second alone where a check that was
  -- queued for the first is moved to it beforehand. The second then sums to that leg's amount.
  pub update_evades :
      (a b x : Uuid) (c : String) (amount : ℤ)
      → Balanced a ps
      → Balanced b ps
      → b ≢ a
      → transaction_holds c (transaction_by_id b ts) ≡ true
      → account_holds c (account_by_id x as') ≡ true
      → is_zero amount ≡ false
      → (turn_check_away a b x c amount book_of
          ≡ done (record book_of {
            postings =
                ps
                ++ record {
                  transaction_id = b;
                  account_id = x;
                  currency = c;
                  amount_minor = amount;
                }
                  ∷ [];
            balance_checks = b ∷ [];
          }))
        × (sum_legs b (
              ps
              ++ record { transaction_id = b; account_id = x; currency = c; amount_minor = amount }
                ∷ [])
            ≡ amount)
  unfolding insert_check update_check insert_posting commit settle fire fire_all
      assert_transaction_balances queue_a_balance_check contains_check
  update_evades a b x c amount (legs, zero_sum) (legs', zero_sum') b≢a holds holds' nonzero =
      let row : PostingRow = record {
        transaction_id = b;
        account_id = x;
        currency = c;
        amount_minor = amount;
      } in
      let (counts, sums) = legs_of_other a ps row b≢a in
      (
        rw (same_id a, same_id b, nonzero, holds, holds')
            (rw (counts, sums, zero_sum, legs_not_zero _ legs, ids_differ b a b≢a) refl),
        rw (own_legs b ps row refl, zero_sum') (+ℤ_zero amount),
      )
