-- ===== src/Ledger/Trial.antt =====
-- TrialBalance of internal/ledger/balance.go: the side totals of each currency of the chart.
pub mod Grouping
pub mod Zero
pub mod Linked
use pacioli.Prelude.{
  ℕ, ◌+◌, Bool, true, false, not, ◌&&◌, ◌||◌, Option, none, some, List, [], ◌∷◌, ◌++◌, String,
  str_eq, ◌==◌, map, if◌then◌else◌,
}
use pacioli.Prelude.Int.{ℤ, pos, ◌+ℤ◌, -ℤ◌, is_positive, is_negative}
use pacioli.Schema.Server.{Server, Uuid}
use pacioli.Schema.Tables.{Database, AccountRow, PostingRow, Answer, done}
use pacioli.Session.{Tx, wrapped, query}
use pacioli.Ledger.Minor.{Minor, no_units, is_zero}

pub record Trial : Type 0 where
  pub currency : String
  pub debits_minor : Minor
  pub credits_minor : Minor
  pub net_minor : Minor
  pub accounts : ℕ
  pub postings : ℕ

unfoldable pub balanced : Trial → Bool
balanced t = is_zero t.net_minor

-- sum(p.amount_minor) FILTER (WHERE …) and count(p.id), over the postings of one account
unfoldable pub sum_of : (ℤ → Bool) → Uuid → List PostingRow → ℤ
sum_of test a [] = pos 0
sum_of test a (p ∷ ps) =
    let rest = sum_of test a ps in
    if p.account_id == a && test p.amount_minor then p.amount_minor +ℤ rest else rest

unfoldable pub count_of : Uuid → List PostingRow → ℕ
count_of a [] = 0
count_of a (p ∷ ps) = let rest = count_of a ps in if p.account_id == a then rest + 1 else rest

abbrev pub any_amount : ℤ → Bool
any_amount a = true

-- accounts a LEFT JOIN postings p ON p.account_id = a.id, the rows of one currency
unfoldable pub sum_in : (ℤ → Bool) → String → List AccountRow → List PostingRow → ℤ
sum_in test c [] ps = pos 0
sum_in test c (a ∷ as') ps =
    let rest = sum_in test c as' ps in
    if str_eq a.currency c then sum_of test a.id ps +ℤ rest else rest

unfoldable pub count_in : String → List AccountRow → List PostingRow → ℕ
count_in c [] ps = 0
count_in c (a ∷ as') ps =
    let rest = count_in c as' ps in if str_eq a.currency c then count_of a.id ps + rest else rest

-- count(DISTINCT a.id)
unfoldable pub accounts_in : String → List AccountRow → ℕ
accounts_in c [] = 0
accounts_in c (a ∷ as') =
    let rest = accounts_in c as' in if str_eq a.currency c then rest + 1 else rest

unfoldable pub trial_of : Database → String → Trial
trial_of d c = record {
  currency = c;
  debits_minor = sum_in is_positive c d.accounts d.postings;
  credits_minor = -ℤ◌ (sum_in is_negative c d.accounts d.postings);
  net_minor = sum_in any_amount c d.accounts d.postings;
  accounts = accounts_in c d.accounts;
  postings = count_in c d.accounts d.postings;
}

module _ (pg : Server) where
  -- GROUP BY a.currency ORDER BY a.currency: each currency once, in order
  unfoldable pub add_currency : String → List String → List String
  add_currency c [] = c ∷ []
  add_currency c (x ∷ xs) =
      let later = x ∷ add_currency c xs in
      if str_eq c x then x ∷ xs else if pg.before c x then c ∷ x ∷ xs else later

  unfoldable pub currencies : List AccountRow → List String
  currencies [] = []
  currencies (a ∷ as') = add_currency a.currency (currencies as')

  unfoldable pub list_trials : Database → List Trial
  list_trials d = map (trial_of d) (currencies d.accounts)

  unfoldable pub trial_balance : Tx (List Trial)
  trial_balance = wrapped "read the trial balance" (query λ d. done (list_trials d))
