-- ===== src/Ledger/Once/Reserved.antt =====
-- The tables while a write under a key is at work: the key is held for the request, and then names
-- the transaction that the work posted.
use pacioli.Prelude.{
  ℕ, ◌≡◌, refl, subst⁻¹, Bool, true, false, not, Option, none, some, List, [], ◌∷◌, ◌++◌, String,
  str_eq, eq_iff, some-eq, Bool-cases, inl, inr,
}
use pacioli.Prelude.Int.{ℤ}
use pacioli.Failure.{PgError}
use pacioli.Schema.Server.{Server, Uuid}
use pacioli.Schema.Tables.{
  Database, KeyRow, Constraint, done, refuse_if, key_by_key, transaction_by_id, contains_check,
}
use pacioli.Schema.Triggers.{settle, queue_a_balance_check}
use pacioli.Schema.Statements.{
  insert_key, settle_key, settle_rows, insert_transaction, insert_posting, set_constraints,
  some_row,
}
use pacioli.Schema.Balance.Firing.{Yields, yields_rules, Yields-refused, >>-done}
use pacioli.Schema.Balance.Covered.{settle-Fired}
use pacioli.Ledger.Entry.{Leg}
use pacioli.Ledger.Post.{insert_leg}
use pacioli.Ledger.Stable.{Yields-option}
use pacioli.Ledger.Once.{Claim}

pub allowed : (b : Bool) (e : PgError) → refuse_if b e ≡ done tt → b ≡ false
allowed true e h = cc
allowed false e h = refl

pub true_of_not : (b : Bool) → not b ≡ false → b ≡ true
true_of_not true h = refl
true_of_not false h = cc

pub key_by_key-new :
    (row : KeyRow) (rs : List KeyRow)
    → some_row (key_by_key row.key rs) ≡ false
    → key_by_key row.key (rs ++ row ∷ []) ≡ some row
unfolding key_by_key
key_by_key-new row [] h = rw ((eq_iff row.key row.key).1 refl) refl
key_by_key-new row (r ∷ rs) h = elim (Bool-cases (str_eq r.key row.key)) [
  | inl e ↦ cc (rw e at h)
  | inr e ↦ rw e (key_by_key-new row rs (rw e at h))
]

module _ (pg : Server) (c : Claim) where
  abbrev pub key_row : Option Uuid → KeyRow
  key_row t = record { key = c.key; request_hash = c.request_hash; transaction_id = t }

  -- The key is held for this request, and has no result yet.
  abbrev pub IsReserved : Database → Type 0
  IsReserved d = key_by_key c.key d.idempotency_keys ≡ some (key_row none)

  -- The key is held for this request, and names a transaction that the tables hold.
  abbrev pub NamesTransaction : String → Database → Type 0
  NamesTransaction id d =
      (t : Uuid) × (id ≡ pg.uuid_text t)
      × (key_by_key c.key d.idempotency_keys ≡ some (key_row (some t)))
      × (some_row (transaction_by_id t d.transactions) ≡ true)

  settle-IsReserved : (d : Database) → IsReserved d → Yields IsReserved (settle d)
  settle-IsReserved d p = record { at = λ d' h. rw (settle-Fired d d' h).same.idempotency_keys p }

  settle-NamesTransaction :
      (id : String) (d : Database) → NamesTransaction id d → Yields (NamesTransaction id) (settle d)
  settle-NamesTransaction id d (t, u, k, f) = record {
    at = λ d' h.
        let s = (settle-Fired d d' h).same in (t, u, rw s.idempotency_keys k, rw s.transactions f);
  }

  pub insert_key-IsReserved :
      (d d' : Database) → insert_key pg c.key c.request_hash d ≡ done d' → IsReserved d'
  unfolding insert_key
  insert_key-IsReserved d d' h =
      let h3 = (>>-done _ _ (>>-done _ _ (>>-done _ _ h).1).1) in
      let fresh = allowed _ _ h3.0 in
      let s = (settle-Fired _ d' h3.1).same in
      rw s.idempotency_keys (key_by_key-new (key_row none) d.idempotency_keys fresh)

  pub settle_rows-held :
      (t : Uuid) (rs : List KeyRow)
      → key_by_key c.key rs ≡ some (key_row none)
      → key_by_key c.key (settle_rows c.key t rs) ≡ some (key_row (some t))
  unfolding key_by_key
  settle_rows-held t [] h = cc
  settle_rows-held t (r ∷ rs) h = elim (Bool-cases (str_eq r.key c.key)) [
    | inl e ↦
        let own : r ≡ key_row none = some-eq (rw e at h) in
        let same = (eq_iff c.key c.key).1 refl in
        subst⁻¹ (λ x. key_by_key c.key (settle_rows c.key t (x ∷ rs)) ≡ some (key_row (some t))) own
          (rw (same, same) refl)
    | inr e ↦ rw (e, e) (settle_rows-held t rs (rw e at h))
  ]

  pub settle_key-NamesTransaction :
      (id : String) (t : Uuid) (d d' : Database)
      → id ≡ pg.uuid_text t
      → IsReserved d
      → settle_key c.key t d ≡ done d'
      → NamesTransaction id d'
  unfolding settle_key
  settle_key-NamesTransaction id t d d' u p h =
      let h' = >>-done _ _ (rw p at h) in
      let s = (settle-Fired _ d' h'.1).same in
      (
        t,
        u,
        rw s.idempotency_keys (settle_rows-held t d.idempotency_keys p),
        rw s.transactions (true_of_not _ (allowed _ _ h'.0)),
      )

  ruleset reserved_rules = (yields_rules, settle-IsReserved)

  pub insert_transaction-IsReserved :
      (u : Uuid) (currency description : String) (at : ℕ) (d : Database)
      → IsReserved d
      → Yields IsReserved (insert_transaction pg u currency description at d)
  unfolding insert_transaction
  insert_transaction-IsReserved u currency description at d p = search reserved_rules depth 12

  insert_posting-IsReserved :
      (t : Uuid) (a : Option Uuid) (cur : Option String) (amount : ℤ) (d : Database)
      → IsReserved d
      → Yields IsReserved (insert_posting t a cur amount d)
  unfolding insert_posting queue_a_balance_check
  insert_posting-IsReserved t none cur amount d p = Yields-refused _
  insert_posting-IsReserved t (some a) none amount d p = Yields-refused _
  insert_posting-IsReserved t (some a) (some cur) amount d p =
      elim (Bool-cases (contains_check t d.balance_checks)) [
        | inl e ↦ rw e (search reserved_rules depth 12)
        | inr e ↦ rw e (search reserved_rules depth 12)
      ]

  pub set_constraints-IsReserved :
      (cs : List Constraint) (b : Bool) (d : Database)
      → IsReserved d
      → Yields IsReserved (set_constraints cs b d)
  unfolding set_constraints
  set_constraints-IsReserved cs b d p = settle-IsReserved _ p

  pub set_constraints-NamesTransaction :
      (id : String) (cs : List Constraint) (b : Bool) (d : Database)
      → NamesTransaction id d
      → Yields (NamesTransaction id) (set_constraints cs b d)
  unfolding set_constraints
  set_constraints-NamesTransaction id cs b d p = settle-NamesTransaction id _ p

  pub insert_leg-IsReserved :
      (id : String) (leg : Leg) (u : Uuid) (d : Database)
      → IsReserved d
      → Yields IsReserved (insert_leg pg id leg u d)
  unfolding insert_leg
  insert_leg-IsReserved id leg u d p =
      Yields-option (pg.uuid_of id) _ _ (Yields-refused _)
        λ t. insert_posting-IsReserved t _ _ leg.amount_minor d p
