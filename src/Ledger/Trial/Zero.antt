-- ===== src/Ledger/Trial/Zero.antt =====
-- A trial balance nets to zero, currency by currency.
use pacioli.Prelude.{
  zero, suc, ◌≡◌, refl, ap, sym, ◌∙◌, inl, inr, Bool, true, false, ◌&&◌, List, [], ◌∷◌, String,
  str_eq, arith, ◌==◌, Has, All, map, if◌then◌else◌, lt→ltb,
}
use pacioli.Prelude.Int.{
  ℤ, pos, ◌+ℤ◌, -ℤ◌, is_positive, is_negative, int_laws, +ℤ_zero, negsuc, pos_part, neg_part,
}
use pacioli.Schema.Server.{Server, Uuid}
use pacioli.Schema.Tables.{Database, AccountRow, TransactionRow, PostingRow, ids, sum_legs}
use pacioli.Schema.Balance.Firing.{Balanced}
use pacioli.Schema.Balance.Covered.{AllBalanced}
use pacioli.Ledger.Minor.{is_zero}
use pacioli.Ledger.Trial.{Trial, sum_of, any_amount, sum_in, trial_of, list_trials, balanced}
use pacioli.Ledger.Trial.Grouping.{
  Distinct, named_by, grouped, row_ids, Names, zero_sum, grouped-eq-shares,
}

abbrev pub account_id_of : AccountRow → Uuid
account_id_of a = a.id

abbrev pub account_currency : AccountRow → String
account_currency a = a.currency

abbrev pub transaction_id_of : TransactionRow → Uuid
transaction_id_of t = t.id

abbrev pub transaction_currency : TransactionRow → String
transaction_currency t = t.currency

abbrev pub account_key : PostingRow → Uuid
account_key p = p.account_id

abbrev pub transaction_key : PostingRow → Uuid
transaction_key p = p.transaction_id

-- The primary keys of accounts and transactions, and the foreign keys of postings to them.
pub record IsLinked (d : Database) : Type 0 where
  pub account_keys : Distinct (row_ids account_id_of d.accounts)
  pub transaction_keys : Distinct (row_ids transaction_id_of d.transactions)
  pub accounts : All (Names account_id_of account_currency account_key d.accounts) d.postings
  pub transactions :
      All (Names transaction_id_of transaction_currency transaction_key d.transactions) d.postings

sum_of-eq : (a : Uuid) (ps : List PostingRow) → sum_of any_amount a ps ≡ named_by account_key a ps
unfolding sum_of
sum_of-eq a [] = refl
sum_of-eq a (p ∷ ps) = ground (arith, sum_of-eq a ps)

sum_in-eq :
    (c : String) (as' : List AccountRow) (ps : List PostingRow)
    → sum_in any_amount c as' ps ≡ grouped account_id_of account_currency account_key c as' ps
unfolding sum_in
sum_in-eq c [] ps = refl
sum_in-eq c (a ∷ as') ps = rw (sum_of-eq a.id ps, sum_in-eq c as' ps)

legs-eq : (t : Uuid) (ps : List PostingRow) → sum_legs t ps ≡ named_by transaction_key t ps
unfolding sum_legs
legs-eq t [] = refl
legs-eq t (p ∷ ps) = rw (legs-eq t ps)

-- Entries that balance sum to nothing.
grouped-zero :
    (c : String) (ts : List TransactionRow) (ps : List PostingRow)
    → ((t : Uuid) → Has t (ids ts) → Balanced t ps)
    → grouped transaction_id_of transaction_currency transaction_key c ts ps ≡ pos 0
grouped-zero c [] ps h = refl
grouped-zero c (t ∷ ts) ps h =
    zero_sum (str_eq t.currency c) (named_by transaction_key t.id ps) _
      (sym (legs-eq t.id ps) ∙ (h t.id (inl refl)).1) (grouped-zero c ts ps (λ u m. h u (inr m)))

-- The net of a currency is zero.
pub net-zero :
    (c : String) (d : Database)
    → AllBalanced d
    → IsLinked d
    → sum_in any_amount c d.accounts d.postings ≡ pos 0
net-zero c d b l =
    sum_in-eq c d.accounts d.postings
    ∙ grouped-eq-shares account_id_of account_currency account_key c d.accounts d.postings
        l.account_keys l.accounts
    ∙ sym (
        grouped-eq-shares transaction_id_of transaction_currency transaction_key c d.transactions
          d.postings l.transaction_keys l.transactions)
    ∙ grouped-zero c d.transactions d.postings b

-- Debits and credits are the two halves of the net.
half_sum :
    (b : Bool) (a s p n : ℤ)
    → s ≡ p +ℤ n
    → (if b && true then a +ℤ s else s)
      ≡ (if b && is_positive a then a +ℤ p else p) +ℤ (if b && is_negative a then a +ℤ n else n)
half_sum false a s p n h = h
half_sum true (pos zero) s p n h = rw h (omega int_laws)
half_sum true (pos (suc k)) s p n h = rw (h, lt→ltb 0 (suc k) (omega arith)) (omega int_laws)
half_sum true (negsuc k) s p n h = rw (h, lt→ltb 0 (suc k) (omega arith)) (omega int_laws)

row_sum :
    (b : Bool) (a p n s q m : ℤ)
    → a ≡ p +ℤ n
    → s ≡ q +ℤ m
    → (if b then a +ℤ s else s) ≡ (if b then p +ℤ q else q) +ℤ (if b then n +ℤ m else m)
row_sum true a p n s q m h k = rw (h, k) (omega int_laws)
row_sum false a p n s q m h k = k

halves_of :
    (a : Uuid) (ps : List PostingRow)
    → sum_of any_amount a ps ≡ sum_of is_positive a ps +ℤ sum_of is_negative a ps
unfolding sum_of
halves_of a [] = sym (+ℤ_zero (pos 0))
halves_of a (p ∷ ps) = half_sum (p.account_id == a) p.amount_minor _ _ _ (halves_of a ps)

halves :
    (c : String) (as' : List AccountRow) (ps : List PostingRow)
    → sum_in any_amount c as' ps ≡ sum_in is_positive c as' ps +ℤ sum_in is_negative c as' ps
unfolding sum_in
halves c [] ps = sym (+ℤ_zero (pos 0))
halves c (a ∷ as') ps =
    row_sum (str_eq a.currency c) _ _ _ _ _ _ (halves_of a.id ps) (halves c as' ps)

opposite : (a b : ℤ) → a +ℤ b ≡ pos 0 → a ≡ -ℤ◌ b
opposite a b h = omega (int_laws, ap pos_part h, ap neg_part h)

-- Debits and credits cancel, and the row says so.
abbrev pub Cancels : Trial → Type 0
Cancels t = (balanced t ≡ true) × (t.debits_minor ≡ t.credits_minor)

trial_of-Cancels : (c : String) (d : Database) → AllBalanced d → IsLinked d → Cancels (trial_of d c)
unfolding trial_of balanced is_zero
trial_of-Cancels c d b l =
    let net = net-zero c d b l in
    let split = halves c d.accounts d.postings in (rw net, opposite _ _ (sym split ∙ net))

trials-Cancels :
    (cs : List String) (d : Database)
    → AllBalanced d
    → IsLinked d
    → All Cancels (map (trial_of d) cs)
trials-Cancels [] d b l = tt
trials-Cancels (c ∷ cs) d b l = (trial_of-Cancels c d b l, trials-Cancels cs d b l)

-- The books balance: where every entry balances and the keys of the schema hold, each row of the
-- trial balance, one to a currency of the chart, has debits equal to its credits and says that it
-- is balanced.
pub trial_balance-Cancels :
    (pg : Server) (d : Database) → AllBalanced d → IsLinked d → All Cancels (list_trials pg d)
unfolding list_trials
trial_balance-Cancels pg d = trials-Cancels _ d
