-- ===== src/Ledger/Trial/Linked.antt =====
-- The primary and foreign keys of accounts, transactions and postings hold after every write.
use pacioli.Prelude.{
  ℕ, ◌≡◌, refl, sym, ap, subst, inl, inr, Bool, true, false, not, Option, none, some, List, [], ◌∷◌,
  ◌++◌, String, eq_iff, ◌==◌, ==_iff, Has, Has-append_left, Has-append_cases, All, All-append,
  Bool-cases,
}
use pacioli.Prelude.Int.{ℤ}
use pacioli.Failure.{PgError}
use pacioli.Schema.Server.{Server, Uuid}
use pacioli.Schema.Tables.{
  Database, AccountRow, TransactionRow, PostingRow, KeyRow, Constraint, Event, Modes, Answer, ◌>>◌,
  refuse_if, account_by_id, transaction_by_id, contains_check, all_immediate,
}
use pacioli.Schema.Triggers.{settle, commit, queue_a_balance_check}
use pacioli.Schema.Statements.{
  insert_account, insert_transaction, insert_posting, insert_key, settle_key, set_constraints,
  some_row, account_holds, transaction_holds,
}
use pacioli.Schema.Balance.Firing.{
  Yields, Yields-refused, Yields-bind, Yields-if, done-injective, >>=-done,
}
use pacioli.Schema.Balance.Covered.{settle-Fired}
use pacioli.Ledger.Trial.Grouping.{Distinct, row_ids, Names}
use pacioli.Ledger.Trial.Zero.{
  IsLinked, account_id_of, account_currency, transaction_id_of, transaction_currency, account_key,
  transaction_key,
}

-- The four tables' keys do not read the others.
abbrev Linked : List AccountRow → List TransactionRow → List PostingRow → Type 0
Linked as' ts ps =
    Distinct (row_ids account_id_of as')
    × Distinct (row_ids transaction_id_of ts)
    × All (Names account_id_of account_currency account_key as') ps
    × All (Names transaction_id_of transaction_currency transaction_key ts) ps

of_Linked : (d : Database) → Linked d.accounts d.transactions d.postings → IsLinked d
of_Linked d (a, b, c, e) = record {
  account_keys = a;
  transaction_keys = b;
  accounts = c;
  transactions = e;
}

to_Linked : (d : Database) → IsLinked d → Linked d.accounts d.transactions d.postings
to_Linked d l = (l.account_keys, l.transaction_keys, l.accounts, l.transactions)

-- The end of a statement writes none of them.
settle-IsLinked : (d : Database) → IsLinked d → Yields IsLinked (settle d)
settle-IsLinked d l = record {
  at = λ d' h.
      let f = settle-Fired d d' h in
      of_Linked d' (rw (f.same.accounts, f.same.transactions, f.same.postings) (to_Linked d l));
}

module _ {R : Type 0} (id : R → Uuid) where
  row_ids-append : (rs : List R) (r : R) → row_ids id (rs ++ r ∷ []) ≡ row_ids id rs ++ id r ∷ []
  row_ids-append [] r = refl
  row_ids-append (x ∷ rs) r = ap (λ us. id x ∷ us) (row_ids-append rs r)

Distinct-append : (us : List Uuid) (u : Uuid) → Distinct us → ¬ Has u us → Distinct (us ++ u ∷ [])
Distinct-append [] u d n = (λ h. h, tt)
Distinct-append (v ∷ us) u (fresh, d) n = (
  λ h. elim (Has-append_cases v us (u ∷ []) h) [
    | inl m ↦ fresh m
    | inr (inl e) ↦ n (inl (sym e))
    | inr (inr m) ↦ m
  ],
  Distinct-append us u d (λ m. n (inr m)),
)

All-map :
    {A : Type 0} {P Q : A → Type 0} (f : (a : A) → P a → Q a) (xs : List A) → All P xs → All Q xs
All-map f [] h = tt
All-map f (x ∷ xs) (h, hs) = (f x h, All-map f xs hs)

-- The primary key refuses an id that a row of accounts has.
pub unnamed_account :
    (u : Uuid) (rs : List AccountRow)
    → some_row (account_by_id u rs) ≡ false
    → ¬ Has u (row_ids account_id_of rs)
unfolding account_by_id
unnamed_account u [] h m = m
unnamed_account u (r ∷ rs) h m = elim (Bool-cases (r.id == u)) [
  | inl e ↦ cc (rw e at h)
  | inr e ↦ elim m [
    | inl same ↦ let t : (r.id == u) ≡ true = (==_iff r.id u).1 same in cc
    | inr later ↦ unnamed_account u rs (rw e at h) later
  ]
]

-- The foreign key finds the row that a posting names, in the posting's currency.
named_account :
    (u : Uuid) (c : String) (rs : List AccountRow)
    → account_holds c (account_by_id u rs) ≡ true
    → (r : AccountRow) × Has r rs × (r.id ≡ u) × (r.currency ≡ c)
unfolding account_by_id
named_account u c [] h = cc
named_account u c (r ∷ rs) h = elim (Bool-cases (r.id == u)) [
  | inl e ↦ (r, inl refl, (==_iff r.id u).0 e, (eq_iff r.currency c).0 (rw e at h))
  | inr e ↦ let (x, m, i, k) = named_account u c rs (rw e at h) in (x, inr m, i, k)
]

-- The primary key refuses an id that a row of transactions has.
pub unnamed_transaction :
    (u : Uuid) (rs : List TransactionRow)
    → some_row (transaction_by_id u rs) ≡ false
    → ¬ Has u (row_ids transaction_id_of rs)
unfolding transaction_by_id
unnamed_transaction u [] h m = m
unnamed_transaction u (r ∷ rs) h m = elim (Bool-cases (r.id == u)) [
  | inl e ↦ cc (rw e at h)
  | inr e ↦ elim m [
    | inl same ↦ let t : (r.id == u) ≡ true = (==_iff r.id u).1 same in cc
    | inr later ↦ unnamed_transaction u rs (rw e at h) later
  ]
]

-- The foreign key finds the row that a posting names, in the posting's currency.
named_transaction :
    (u : Uuid) (c : String) (rs : List TransactionRow)
    → transaction_holds c (transaction_by_id u rs) ≡ true
    → (r : TransactionRow) × Has r rs × (r.id ≡ u) × (r.currency ≡ c)
unfolding transaction_by_id
named_transaction u c [] h = cc
named_transaction u c (r ∷ rs) h = elim (Bool-cases (r.id == u)) [
  | inl e ↦ (r, inl refl, (==_iff r.id u).0 e, (eq_iff r.currency c).0 (rw e at h))
  | inr e ↦ let (x, m, i, k) = named_transaction u c rs (rw e at h) in (x, inr m, i, k)
]

Yields-refuse_if :
    {A : Type 0} {P : A → Type 0} (b : Bool) (e : PgError) (k : Answer A)
    → (b ≡ false → Yields P k)
    → Yields P (refuse_if b e >> k)
Yields-refuse_if true e k h = Yields-refused e
Yields-refuse_if false e k h = h refl

true_of_not : (b : Bool) → not b ≡ false → b ≡ true
true_of_not true h = refl
true_of_not false h = cc

module _ (d : Database) (l : IsLinked d) where
  account-IsLinked :
      (row : AccountRow)
      → some_row (account_by_id row.id d.accounts) ≡ false
      → IsLinked (record d { accounts = d.accounts ++ row ∷ [] })
  account-IsLinked row fresh = record {
    account_keys =
        rw (row_ids-append account_id_of d.accounts row)
          (Distinct-append _ row.id l.account_keys (unnamed_account row.id d.accounts fresh));
    transaction_keys = l.transaction_keys;
    accounts =
        All-map (λ p (r, m, i, c). (r, Has-append_left r d.accounts _ m, i, c)) d.postings
          l.accounts;
    transactions = l.transactions;
  }

  transaction-IsLinked :
      (row : TransactionRow) (q : List Event)
      → some_row (transaction_by_id row.id d.transactions) ≡ false
      → IsLinked (record d { transactions = d.transactions ++ row ∷ []; queue = q })
  transaction-IsLinked row q fresh = record {
    account_keys = l.account_keys;
    transaction_keys = rw (row_ids-append transaction_id_of d.transactions row) (
        Distinct-append _ row.id l.transaction_keys
          (unnamed_transaction row.id d.transactions fresh));
    accounts = l.accounts;
    transactions =
        All-map (λ p (r, m, i, c). (r, Has-append_left r d.transactions _ m, i, c)) d.postings
          l.transactions;
  }

  posting-IsLinked :
      (row : PostingRow)
      → not (transaction_holds row.currency (transaction_by_id row.transaction_id d.transactions))
        ≡ false
      → not (account_holds row.currency (account_by_id row.account_id d.accounts)) ≡ false
      → IsLinked (
          queue_a_balance_check row.transaction_id (record d { postings = d.postings ++ row ∷ [] }))
  unfolding queue_a_balance_check
  posting-IsLinked row ht ha =
      let after : Database = record d { postings = d.postings ++ row ∷ [] } in
      let linked : Linked after.accounts after.transactions after.postings = (
        l.account_keys,
        l.transaction_keys,
        All-append _ d.postings _ l.accounts
            (named_account row.account_id row.currency d.accounts (true_of_not _ ha), tt),
        All-append _ d.postings _ l.transactions (
          named_transaction row.transaction_id row.currency d.transactions (true_of_not _ ht),
          tt,
        ),
      ) in
      elim (Bool-cases (contains_check row.transaction_id d.balance_checks)) [
        | inl e ↦ rw e (of_Linked after linked)
        | inr e ↦ rw e (of_Linked _ linked)
      ]

  -- Writes of the other tables.
  others-IsLinked :
      (ks : List KeyRow) (cs : List Uuid) (q : List Event) (m : Modes)
      → IsLinked (record d { idempotency_keys = ks; balance_checks = cs; queue = q; modes = m })
  others-IsLinked ks cs q m = of_Linked _ (to_Linked d l)

ruleset linked_rules = (
  Yields-refuse_if, Yields-bind, Yields-if, Yields-refused, settle-IsLinked, account-IsLinked,
  transaction-IsLinked, posting-IsLinked, others-IsLinked,
)

module _ (d : Database) (l : IsLinked d) where
  pub insert_account-IsLinked :
      (pg : Server) (id : Uuid) (code name kind currency : String)
      → Yields IsLinked (insert_account pg id code name kind currency d)
  unfolding insert_account
  insert_account-IsLinked pg id code name kind currency = search linked_rules depth 14

  pub insert_transaction-IsLinked :
      (pg : Server) (id : Uuid) (currency description : String) (at : ℕ)
      → Yields IsLinked (insert_transaction pg id currency description at d)
  unfolding insert_transaction
  insert_transaction-IsLinked pg id currency description at = search linked_rules depth 14

  pub insert_posting-IsLinked :
      (t : Uuid) (a : Option Uuid) (cur : Option String) (amount : ℤ)
      → Yields IsLinked (insert_posting t a cur amount d)
  unfolding insert_posting
  insert_posting-IsLinked t none cur amount = Yields-refused _
  insert_posting-IsLinked t (some a) none amount = Yields-refused _
  insert_posting-IsLinked t (some a) (some cur) amount = search linked_rules depth 14

  pub insert_key-IsLinked :
      (pg : Server) (key : String) (hash : List ℕ) → Yields IsLinked (insert_key pg key hash d)
  unfolding insert_key
  insert_key-IsLinked pg key hash = search linked_rules depth 14

  pub settle_key-IsLinked : (k : String) (t : Uuid) → Yields IsLinked (settle_key k t d)
  unfolding settle_key
  settle_key-IsLinked k t = search linked_rules depth 14

  pub set_constraints-IsLinked :
      (cs : List Constraint) (b : Bool) → Yields IsLinked (set_constraints cs b d)
  unfolding set_constraints
  set_constraints-IsLinked cs b = settle-IsLinked _ (others-IsLinked d l _ _ _ _)

-- COMMIT, where nothing refuses it.
pub commit-IsLinked : (d : Database) → IsLinked d → Yields IsLinked (commit d)
unfolding commit
commit-IsLinked d l = record {
  at = λ d' h.
      let now : Database = record d { modes = all_immediate } in
      let (d₁, p, q) = >>=-done (settle now) _ h in
      let l₁ = (settle-IsLinked now (of_Linked _ (to_Linked d l))).at d₁ p in
      subst IsLinked (done-injective q) (of_Linked _ (to_Linked d₁ l₁));
}
