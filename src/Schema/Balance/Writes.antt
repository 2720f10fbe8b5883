-- ===== src/Schema/Balance/Writes.antt =====
-- Every write that the schema takes keeps the invariant of the balance rule; only an UPDATE of
-- balance_checks is left out.
use pacioli.Prelude.{
  ℕ, ◌≡◌, refl, ap, subst, ◌⊎◌, ◌≢◌, inl, inr, Bool, true, not, Option, none, some, List, [], ◌∷◌,
  ◌++◌, String, arith, ◌==◌, keep, Has, Bool-cases, Has-append_left, Has-append_right,
  Has-append_cases, ==_iff,
}
use pacioli.Prelude.Int.{ℤ}
use pacioli.Schema.Server.{Server, Uuid}
use pacioli.Schema.Tables.{
  Database, Modes, Event, AccountRow, KeyRow, TransactionRow, PostingRow, Constraint,
  contains_check, ids, count_legs, sum_legs,
}
use pacioli.Schema.Triggers.{queue_a_balance_check}
use pacioli.Schema.Statements.{
  Mutation, mutate_book, insert_account, insert_transaction, insert_key, insert_posting, settle_key,
  insert_check, delete_check, set_constraints,
}
use pacioli.Schema.Balance.Firing.{
  Balanced, Yields, Yields-refused, yields_rules, contains_check-keep,
}
use pacioli.Schema.Balance.Covered.{IsCovered, IsPending, settle-IsCovered}

-- A leg of one transaction does not change the legs of another.
pub legs_of_other :
    (t : Uuid) (ps : List PostingRow) (row : PostingRow)
    → row.transaction_id ≢ t
    → (count_legs t (ps ++ row ∷ []) ≡ count_legs t ps)
      × (sum_legs t (ps ++ row ∷ []) ≡ sum_legs t ps)
unfolding count_legs sum_legs
legs_of_other t [] row h = ground arith
legs_of_other t (p ∷ ps) row h = ground (arith, legs_of_other t ps row h)

pub ids-append : (ts us : List TransactionRow) → ids (ts ++ us) ≡ ids ts ++ ids us
ids-append [] us = refl
ids-append (t ∷ ts) us = ap (λ xs. t.id ∷ xs) (ids-append ts us)

module _ (d : Database) (c : IsCovered d) where
  IsPending-append :
      (t : Uuid) (es : List Event) → IsPending t d.queue → IsPending t (d.queue ++ es)
  IsPending-append t es (inl p) = inl (Has-append_left _ d.queue es p)
  IsPending-append t es (inr p) = inr (Has-append_left _ d.queue es p)

  -- More events queued, and tables written that the rule does not read.
  more-IsCovered :
      (es : List Event) (as' : List AccountRow) (ks : List KeyRow)
      → IsCovered (record d { accounts = as'; idempotency_keys = ks; queue = d.queue ++ es })
  more-IsCovered es as' ks = record {
    due = λ t m. elim (c.due t m) [ inl b ↦ inl b | inr p ↦ inr (IsPending-append t es p) ];
    queued = λ t m. Has-append_left _ d.queue es (c.queued t m);
  }

  accounts-IsCovered : (as' : List AccountRow) → IsCovered (record d { accounts = as' })
  accounts-IsCovered as' = record { due = c.due; queued = c.queued }

  transaction-IsCovered :
      (row : TransactionRow)
      → IsCovered (record d {
        transactions = d.transactions ++ row ∷ [];
        queue = d.queue ++ Event.transaction_inserted row.id ∷ [];
      })
  transaction-IsCovered row = record {
    due = λ t m.
        elim (Has-append_cases t (ids d.transactions) (row.id ∷ [])
          (subst (Has t) (ids-append d.transactions (row ∷ [])) m)) [
            | inl old ↦ elim (c.due t old) [ inl b ↦ inl b | inr p ↦ inr (IsPending-append t _ p) ]
            | inr (inl e) ↦
                inr (inl (Has-append_right _ d.queue _ (inl (ap Event.transaction_inserted e))))
            | inr (inr no_more) ↦ absurd no_more
          ];
    queued = λ t m. Has-append_left _ d.queue _ (c.queued t m);
  }

  -- A row of the queue table comes with its event.
  queued_row :
      (u t : Uuid)
      → contains_check t (u ∷ d.balance_checks) ≡ true
      → Has (Event.check_inserted t) (d.queue ++ Event.check_inserted u ∷ [])
  unfolding contains_check
  queued_row u t h = elim (Bool-cases (u == t)) [
    | inl e ↦ Has-append_right _ d.queue _ (inl (ap Event.check_inserted ((==_iff u t).0 e)))
    | inr e ↦ Has-append_left _ d.queue _ (c.queued t (rw e at h))
  ]

  still_due :
      (row : PostingRow) (t : Uuid) (q : List Event)
      → (row.transaction_id ≡ t → IsPending t q)
      → ((p : IsPending t d.queue) → IsPending t q)
      → Has t (ids d.transactions)
      → Balanced t (d.postings ++ row ∷ []) ⊎ IsPending t q
  still_due row t q own old m = elim (Bool-cases (row.transaction_id == t)) [
    | inl e ↦ inr (own ((==_iff _ t).0 e))
    | inr e ↦ elim (c.due t m) [
      | inl b ↦ inl (ground (arith, legs_of_other t d.postings row))
      | inr p ↦ inr (old p)
    ]
  ]

  -- A leg is written, and its transaction stands in the queue table.
  posting-IsCovered :
      (row : PostingRow)
      → IsCovered (
          queue_a_balance_check row.transaction_id (record d { postings = d.postings ++ row ∷ [] }))
  unfolding queue_a_balance_check
  posting-IsCovered row = elim (Bool-cases (contains_check row.transaction_id d.balance_checks)) [
    | inl there ↦ rw there (record {
      due = λ t.
          still_due row t d.queue
            (λ e. inr (c.queued t (subst (λ u. contains_check u d.balance_checks ≡ true) e there)))
            (λ p. p);
      queued = c.queued;
    })
    | inr new ↦ rw new (record {
      due = λ t.
          still_due row t (d.queue ++ Event.check_inserted row.transaction_id ∷ [])
            (λ e. inr (Has-append_right _ d.queue _ (inl (ap Event.check_inserted e))))
            (IsPending-append t _);
      queued = queued_row row.transaction_id;
    })
  ]

  check-IsCovered :
      (t : Uuid)
      → IsCovered (record d {
        balance_checks = t ∷ d.balance_checks;
        queue = d.queue ++ Event.check_inserted t ∷ [];
      })
  check-IsCovered t = record {
    due = λ u m. elim (c.due u m) [ inl b ↦ inl b | inr p ↦ inr (IsPending-append u _ p) ];
    queued = queued_row t;
  }

  unchecked-IsCovered :
      (t : Uuid)
      → IsCovered (record d { balance_checks = keep (λ u. not (u == t)) d.balance_checks })
  unchecked-IsCovered t = record {
    due = c.due;
    queued = λ u m. c.queued u (contains_check-keep u t d.balance_checks m).0;
  }

  modes-IsCovered : (m : Modes) → IsCovered (record d { modes = m })
  modes-IsCovered m = record { due = c.due; queued = c.queued }

ruleset covered_rules = (
  yields_rules, settle-IsCovered, more-IsCovered, accounts-IsCovered, transaction-IsCovered,
  posting-IsCovered, check-IsCovered, unchecked-IsCovered, modes-IsCovered,
)

module _ (d : Database) (c : IsCovered d) where
  pub insert_account-IsCovered :
      (pg : Server) (id : Uuid) (code name kind currency : String)
      → Yields IsCovered (insert_account pg id code name kind currency d)
  unfolding insert_account
  insert_account-IsCovered pg id code name kind currency = search covered_rules depth 12

  pub insert_transaction-IsCovered :
      (pg : Server) (id : Uuid) (currency description : String) (at : ℕ)
      → Yields IsCovered (insert_transaction pg id currency description at d)
  unfolding insert_transaction
  insert_transaction-IsCovered pg id currency description at = search covered_rules depth 12

  pub insert_key-IsCovered :
      (pg : Server) (key : String) (hash : List ℕ) → Yields IsCovered (insert_key pg key hash d)
  unfolding insert_key
  insert_key-IsCovered pg key hash = search covered_rules depth 12

  pub insert_posting-IsCovered :
      (t : Uuid) (a : Option Uuid) (cur : Option String) (amount : ℤ)
      → Yields IsCovered (insert_posting t a cur amount d)
  unfolding insert_posting
  insert_posting-IsCovered t none cur amount = search covered_rules depth 12
  insert_posting-IsCovered t (some a) none amount = search covered_rules depth 12
  insert_posting-IsCovered t (some a) (some cur) amount = search covered_rules depth 12

  pub settle_key-IsCovered : (k : String) (t : Uuid) → Yields IsCovered (settle_key k t d)
  unfolding settle_key
  settle_key-IsCovered k t = search covered_rules depth 12

  pub mutate_book-IsCovered : (m : Mutation) → Yields IsCovered (mutate_book m d)
  unfolding mutate_book
  mutate_book-IsCovered (Mutation.entry_row u) = search covered_rules depth 12
  mutate_book-IsCovered (Mutation.leg_rows u) = search covered_rules depth 12
  mutate_book-IsCovered Mutation.truncate_legs = Yields-refused _

  pub insert_check-IsCovered : (t : Uuid) → Yields IsCovered (insert_check t d)
  unfolding insert_check
  insert_check-IsCovered t = search covered_rules depth 12

  pub delete_check-IsCovered : (t : Uuid) → Yields IsCovered (delete_check t d)
  unfolding delete_check
  delete_check-IsCovered t = settle-IsCovered _ (unchecked-IsCovered d c t)

  pub set_constraints-IsCovered :
      (cs : List Constraint) (b : Bool) → Yields IsCovered (set_constraints cs b d)
  unfolding set_constraints
  set_constraints-IsCovered cs b = search covered_rules depth 12
