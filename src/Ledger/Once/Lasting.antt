-- ===== src/Ledger/Once/Lasting.antt =====
-- A key that names a transaction keeps naming it, whatever statements internal/ledger sends after.
use pacioli.Prelude.{
  ℕ, ◌≡◌, refl, ap, subst, subst⁻¹, Bool, true, not, ◌&&◌, Option, none, some, List, [], ◌∷◌, ◌++◌,
  String, ◌==◌, str_eq, some-eq, Bool-cases, inl, inr,
}
use pacioli.Prelude.Int.{ℤ}
use pacioli.Schema.Server.{Server, Uuid}
use pacioli.Schema.Tables.{
  Database, KeyRow, TransactionRow, Constraint, key_by_key, transaction_by_id, contains_check,
  all_immediate,
}
use pacioli.Schema.Triggers.{settle, commit, queue_a_balance_check}
use pacioli.Schema.Statements.{
  insert_account, insert_key, settle_key, settle_rows, insert_transaction, insert_posting,
  set_constraints, some_row,
}
use pacioli.Schema.Balance.Firing.{Yields, yields_rules, Yields-refused, done-injective, >>=-done}
use pacioli.Schema.Balance.Covered.{settle-Fired}
use pacioli.Ledger.Stable.{IsKept}

key_by_key-append :
    (k : String) (rs : List KeyRow) (r row : KeyRow)
    → key_by_key k rs ≡ some row
    → key_by_key k (rs ++ r ∷ []) ≡ some row
unfolding key_by_key
key_by_key-append k [] r row h = cc
key_by_key-append k (x ∷ rs) r row h = elim (Bool-cases (str_eq x.key k)) [
  | inl e ↦ rw e (rw e at h)
  | inr e ↦ rw e (key_by_key-append k rs r row (rw e at h))
]

transaction_by_id-append :
    (t : Uuid) (ts : List TransactionRow) (x : TransactionRow)
    → some_row (transaction_by_id t ts) ≡ true
    → some_row (transaction_by_id t (ts ++ x ∷ [])) ≡ true
unfolding transaction_by_id
transaction_by_id-append t [] x h = cc
transaction_by_id-append t (y ∷ ts) x h = elim (Bool-cases (y.id == t)) [
  | inl e ↦ rw e refl
  | inr e ↦ rw e (transaction_by_id-append t ts x (rw e at h))
]

key_by_key-settle_rows :
    (k k' : String) (t : Uuid) (rs : List KeyRow) (row : KeyRow)
    → some_row row.transaction_id ≡ true
    → key_by_key k rs ≡ some row
    → key_by_key k (settle_rows k' t rs) ≡ some row
unfolding key_by_key
key_by_key-settle_rows k k' t [] row s h = cc
key_by_key-settle_rows k k' t (r ∷ rs) row s h = elim (Bool-cases (str_eq r.key k)) [
  | inl e ↦
      let own : r ≡ row = some-eq (rw e at h) in
      let final : some_row r.transaction_id ≡ true =
        subst⁻¹ (λ (x : KeyRow). some_row x.transaction_id ≡ true) own s in
      elim (Bool-cases (str_eq r.key k')) [
        | inl w ↦ rw (w, final, e) (ap some own)
        | inr w ↦ rw (w, e) (ap some own)
      ]
  | inr e ↦
      let rest = key_by_key-settle_rows k k' t rs row s (rw e at h) in
      elim (Bool-cases (str_eq r.key k' && not (some_row r.transaction_id))) [
        | inl w ↦ rw (w, e) rest
        | inr w ↦ rw (w, e) rest
      ]
]

module _ (pg : Server) (k : String) (row : KeyRow) (t : Uuid)
    (own : some_row row.transaction_id ≡ true) where
  -- The key has the row, and the transaction is there.
  pub record IsNamed (d : Database) : Type 0 where
    pub key : key_by_key k d.idempotency_keys ≡ some row
    pub posted : some_row (transaction_by_id t d.transactions) ≡ true

  settle-IsNamed : (d : Database) → IsNamed d → Yields IsNamed (settle d)
  settle-IsNamed d p = record {
    at = λ d' h.
        let s = (settle-Fired d d' h).same in
        record { key = rw s.idempotency_keys p.key; posted = rw s.transactions p.posted };
  }

  -- The other tables do not matter.
  of_fields :
      (d : Database)
      → key_by_key k d.idempotency_keys ≡ some row
      → some_row (transaction_by_id t d.transactions) ≡ true
      → IsNamed d
  of_fields d key posted = record { key = key; posted = posted }

  ruleset named_rules = (yields_rules, settle-IsNamed, of_fields)

  insert_account-IsNamed :
      (u : Uuid) (code name kind currency : String) (d : Database)
      → IsNamed d
      → Yields IsNamed (insert_account pg u code name kind currency d)
  unfolding insert_account
  insert_account-IsNamed u code name kind currency d p =
      let key = p.key in let posted = p.posted in search named_rules depth 20

  insert_transaction-IsNamed :
      (u : Uuid) (currency description : String) (at : ℕ) (d : Database)
      → IsNamed d
      → Yields IsNamed (insert_transaction pg u currency description at d)
  unfolding insert_transaction
  insert_transaction-IsNamed u currency description at d p =
      let posted : (x : TransactionRow)
          → some_row (transaction_by_id t (d.transactions ++ x ∷ [])) ≡ true =
        λ x. transaction_by_id-append t d.transactions x p.posted in
      let key = p.key in search named_rules depth 20

  insert_key-IsNamed :
      (k' : String) (hash : List ℕ) (d : Database)
      → IsNamed d
      → Yields IsNamed (insert_key pg k' hash d)
  unfolding insert_key
  insert_key-IsNamed k' hash d p =
      let key : (x : KeyRow) → key_by_key k (d.idempotency_keys ++ x ∷ []) ≡ some row =
        λ x. key_by_key-append k d.idempotency_keys x row p.key in
      let posted = p.posted in search named_rules depth 20

  insert_posting-IsNamed :
      (u : Uuid) (a : Option Uuid) (cur : Option String) (amount : ℤ) (d : Database)
      → IsNamed d
      → Yields IsNamed (insert_posting u a cur amount d)
  unfolding insert_posting queue_a_balance_check
  insert_posting-IsNamed u none cur amount d p = Yields-refused _
  insert_posting-IsNamed u (some a) none amount d p = Yields-refused _
  insert_posting-IsNamed u (some a) (some cur) amount d p =
      let key = p.key in
      let posted = p.posted in
      elim (Bool-cases (contains_check u d.balance_checks)) [
        | inl e ↦ rw e (search named_rules depth 20)
        | inr e ↦ rw e (search named_rules depth 20)
      ]

  settle_key-IsNamed :
      (k' : String) (u : Uuid) (d : Database) → IsNamed d → Yields IsNamed (settle_key k' u d)
  unfolding settle_key
  settle_key-IsNamed k' u d p =
      let key = key_by_key-settle_rows k k' u d.idempotency_keys row own p.key in
      let posted = p.posted in search named_rules depth 20

  set_constraints-IsNamed :
      (cs : List Constraint) (b : Bool) (d : Database)
      → IsNamed d
      → Yields IsNamed (set_constraints cs b d)
  unfolding set_constraints
  set_constraints-IsNamed cs b d p = settle-IsNamed _ (of_fields _ p.key p.posted)

  pub commit-IsNamed : (d : Database) → IsNamed d → Yields IsNamed (commit d)
  unfolding commit
  commit-IsNamed d p = record {
    at = λ d' h.
        let now : Database = record d { modes = all_immediate } in
        let (d₁, q, r) = >>=-done (settle now) _ h in
        let n = (settle-IsNamed now (of_fields now p.key p.posted)).at d₁ q in
        subst IsNamed (done-injective r) (of_fields _ n.key n.posted);
  }

  pub IsNamed-IsKept : IsKept pg IsNamed
  IsNamed-IsKept = record {
    accounts = insert_account-IsNamed;
    transactions = insert_transaction-IsNamed;
    postings = insert_posting-IsNamed;
    keys = insert_key-IsNamed;
    results = settle_key-IsNamed;
    modes = set_constraints-IsNamed;
  }
