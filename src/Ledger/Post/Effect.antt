-- ===== src/Ledger/Post/Effect.antt =====
-- What a Post that succeeds writes, row by row: one transaction, and one posting for each leg.
use pacioli.Prelude.{
  ℕ, ◌≡◌, refl, sym, ◌∙◌, ap, subst, Bool, true, false, Option, none, some, List, [], ◌∷◌, ◌++◌,
  String, append-nil, append_assoc, All, All-append, Bool-cases, inl, inr,
}
use pacioli.Failure.{Result, ok}
use pacioli.Schema.Server.{Server, Uuid}
use pacioli.Schema.Tables.{
  Database, AccountRow, TransactionRow, PostingRow, Constraint, Answer, account_by_code,
  transaction_by_id, contains_check,
}
use pacioli.Schema.Triggers.{settle, queue_a_balance_check}
use pacioli.Schema.Statements.{insert_transaction, insert_posting, set_constraints, some_row}
use pacioli.Schema.Balance.Firing.{Yields, Yields-refused, yields_rules, >>-done}
use pacioli.Schema.Balance.Covered.{settle-Fired}
use pacioli.Session.{Session}
use pacioli.Session.Ensures.{IfOk}
use pacioli.Ledger.Entry.{Leg, Entry}
use pacioli.Ledger.Post.{post_entry, insert_leg, stored_time, posted_to, posted_in}
use pacioli.Ledger.Post.Ensured.{IsPosting, post_entry-Ensures}
use pacioli.Ledger.Once.Reserved.{allowed}

-- The rows of a transaction's legs.
abbrev pub posting_row : Uuid → Leg → AccountRow → PostingRow
posting_row t l a = record {
  transaction_id = t;
  account_id = a.id;
  currency = a.currency;
  amount_minor = l.amount_minor;
}

abbrev pub leg_rows : Uuid → Leg → Option AccountRow → List PostingRow
leg_rows t l none = []
leg_rows t l (some a) = posting_row t l a ∷ []

abbrev pub posting_rows : Uuid → List AccountRow → List Leg → List PostingRow
posting_rows t as' [] = []
posting_rows t as' (l ∷ ls) = leg_rows t l (account_by_code l.account as') ++ posting_rows t as' ls

posting_rows-append :
    (t : Uuid) (as' : List AccountRow) (ls ms : List Leg)
    → posting_rows t as' (ls ++ ms) ≡ posting_rows t as' ls ++ posting_rows t as' ms
posting_rows-append t as' [] ms = refl
posting_rows-append t as' (l ∷ ls) ms =
    ap (λ r. leg_rows t l (account_by_code l.account as') ++ r) (posting_rows-append t as' ls ms)
    ∙ sym (
        append_assoc (leg_rows t l (account_by_code l.account as')) (posting_rows t as' ls)
          (posting_rows t as' ms))

module _ (pg : Server) (e : Entry) (before : Database) where
  abbrev pub transaction_row : Uuid → ℕ → TransactionRow
  transaction_row t now = record {
    id = t;
    currency = e.currency;
    description = e.description;
    occurred_at = stored_time pg e.occurred_at now;
  }

  -- The tables with a new transaction and some of its legs.
  pub record IsEffect (t : Uuid) (now : ℕ) (ls : List Leg) (d : Database) : Type 0 where
    -- each leg names an account
    pub named : All (λ l. some_row (account_by_code l.account before.accounts) ≡ true) ls
    pub fresh : some_row (transaction_by_id t before.transactions) ≡ false
    pub transactions : d.transactions ≡ before.transactions ++ transaction_row t now ∷ []
    pub postings : d.postings ≡ before.postings ++ posting_rows t before.accounts ls
    pub accounts : d.accounts ≡ before.accounts
    pub keys : d.idempotency_keys ≡ before.idempotency_keys

  -- The tables as they were.
  pub record IsSame (d : Database) : Type 0 where
    pub transactions : d.transactions ≡ before.transactions
    pub postings : d.postings ≡ before.postings
    pub accounts : d.accounts ≡ before.accounts
    pub keys : d.idempotency_keys ≡ before.idempotency_keys

  abbrev pub Wrote : String → List Leg → Database → Type 0
  Wrote id ls d = (t : Uuid) × (now : ℕ) × (pg.uuid_text t ≡ id) × IsEffect t now ls d

  pub settle-IsSame : (d : Database) → IsSame d → Yields IsSame (settle d)
  settle-IsSame d p = record {
    at = λ d' h.
        let s = (settle-Fired d d' h).same in
        record {
          transactions = s.transactions ∙ p.transactions;
          postings = s.postings ∙ p.postings;
          accounts = s.accounts ∙ p.accounts;
          keys = s.idempotency_keys ∙ p.keys;
        };
  }

  pub set-IsSame :
      (cs : List Constraint) (b : Bool) (d : Database)
      → IsSame d
      → Yields IsSame (set_constraints cs b d)
  unfolding set_constraints
  set-IsSame cs b d p = settle-IsSame _ (record {
    transactions = p.transactions;
    postings = p.postings;
    accounts = p.accounts;
    keys = p.keys;
  })

  module _ (t : Uuid) (now : ℕ) where
    settle-IsEffect :
        (ls : List Leg) (d : Database) → IsEffect t now ls d → Yields (IsEffect t now ls) (settle d)
    settle-IsEffect ls d p = record {
      at = λ d' h.
          let s = (settle-Fired d d' h).same in
          record {
            named = p.named;
            fresh = p.fresh;
            transactions = s.transactions ∙ p.transactions;
            postings = s.postings ∙ p.postings;
            accounts = s.accounts ∙ p.accounts;
            keys = s.idempotency_keys ∙ p.keys;
          };
    }

    like-IsEffect :
        (ls : List Leg) (d d' : Database)
        → d'.transactions ≡ d.transactions
        → d'.postings ≡ d.postings
        → d'.accounts ≡ d.accounts
        → d'.idempotency_keys ≡ d.idempotency_keys
        → IsEffect t now ls d
        → IsEffect t now ls d'
    like-IsEffect ls d d' ts ps as' ks p = record {
      named = p.named;
      fresh = p.fresh;
      transactions = ts ∙ p.transactions;
      postings = ps ∙ p.postings;
      accounts = as' ∙ p.accounts;
      keys = ks ∙ p.keys;
    }

    opens :
        (d : Database)
        → IsSame d
        → Yields
            (IsEffect t now [])
            (insert_transaction pg t e.currency e.description (stored_time pg e.occurred_at now) d)
    unfolding insert_transaction
    opens d p = record {
      at = λ d' h.
          let r = >>-done _ _ (>>-done _ _ (>>-done _ _ h).1).1 in
          let start : IsEffect t now [] _ = record {
            named = tt;
            fresh =
                ap (λ x. some_row (transaction_by_id t x)) (sym p.transactions) ∙ allowed _ _ r.0;
            transactions = ap (λ x. x ++ transaction_row t now ∷ []) p.transactions;
            postings = p.postings ∙ sym (append-nil before.postings);
            accounts = p.accounts;
            keys = p.keys;
          } in
          (settle-IsEffect [] _ start).at d' r.1;
    }

    queued-IsEffect :
        (ls : List Leg) (d : Database)
        → IsEffect t now ls d
        → IsEffect t now ls (queue_a_balance_check t d)
    unfolding queue_a_balance_check
    queued-IsEffect ls d p = elim (Bool-cases (contains_check t d.balance_checks)) [
      | inl k ↦ rw k p
      | inr k ↦ rw k (like-IsEffect ls d _ refl refl refl refl p)
    ]

    leg-IsEffect :
        (ls : List Leg) (l : Leg) (d : Database)
        → IsEffect t now ls d
        → (o : Option AccountRow) → account_by_code l.account d.accounts ≡ o
        → Yields
            (IsEffect t now (ls ++ l ∷ []))
            (insert_posting t (posted_to pg o) (posted_in pg o) l.amount_minor d)
    unfolding insert_posting
    leg-IsEffect ls l d p none f = Yields-refused _
    leg-IsEffect ls l d p (some a) f =
        let after : Database = record d { postings = d.postings ++ posting_row t l a ∷ [] } in
        let found : account_by_code l.account before.accounts ≡ some a =
          ap (account_by_code l.account) (sym p.accounts) ∙ f in
        let more : IsEffect t now (ls ++ l ∷ []) after = record {
          named = All-append _ ls (l ∷ []) p.named (ap some_row found, tt);
          fresh = p.fresh;
          transactions = p.transactions;
          postings =
              ap (λ x. x ++ posting_row t l a ∷ []) p.postings
              ∙ append_assoc before.postings (posting_rows t before.accounts ls)
                  (posting_row t l a ∷ [])
              ∙ ap
                  (λ o.
                    before.postings
                    ++ (posting_rows t before.accounts ls ++ (leg_rows t l o ++ [])))
                  (sym found)
              ∙ ap (λ r. before.postings ++ r)
                  (sym (posting_rows-append t before.accounts ls (l ∷ [])));
          accounts = p.accounts;
          keys = p.keys;
        } in
        let queued = queued-IsEffect (ls ++ l ∷ []) after more in
        search (yields_rules, settle-IsEffect) depth 12

    set-IsEffect :
        (ls : List Leg) (cs : List Constraint) (b : Bool) (d : Database)
        → IsEffect t now ls d
        → Yields (IsEffect t now ls) (set_constraints cs b d)
    unfolding set_constraints
    set-IsEffect ls cs b d p = settle-IsEffect ls _ (like-IsEffect ls d _ refl refl refl refl p)

  Yields-Wrote :
      {t : Uuid} {now : ℕ} {id : String} {ls : List Leg} (m : Answer Database)
      → pg.uuid_text t ≡ id
      → Yields (IsEffect t now ls) m
      → Yields (Wrote id ls) m
  Yields-Wrote {t} {now} m text y = record { at = λ d h. (t, now, text, y.at d h) }

  leg-Wrote :
      (id : String) (ls : List Leg) (l : Leg) (u : Uuid) (d : Database)
      → Wrote id ls d
      → Yields (Wrote id (ls ++ l ∷ [])) (insert_leg pg id l u d)
  unfolding insert_leg
  leg-Wrote id ls l u d (t, now, text, p) =
      subst (λ x. Yields (Wrote x (ls ++ l ∷ [])) (insert_leg pg x l u d)) text
        (rw (pg.uuid_of-uuid_text t, insert_leg)
          (Yields-Wrote _ refl
            (leg-IsEffect t now ls l d p (account_by_code l.account d.accounts) refl)))

  pub Wrote-IsPosting : IsPosting pg e IsSame Wrote
  Wrote-IsPosting = record {
    before = set-IsSame;
    opens = λ t now d p. Yields-Wrote _ refl (opens t now d p);
    leg = leg-Wrote;
    after = λ id ls cs b d (t, now, text, p). Yields-Wrote _ text (set-IsEffect t now ls cs b d p);
  }

  wrote :
      (r : Result String) (d : Database) (id : String)
      → IfOk (λ x. Wrote x e.legs) r d
      → r ≡ ok id
      → Wrote id e.legs d
  wrote r d id h said = subst (λ x. IfOk (λ y. Wrote y e.legs) x d) said h

-- Post adds a transaction whose id was free, and the legs' postings in order, and writes no other
-- account, entry or key.
pub post_entry-Wrote :
    (pg : Server) (e : Entry) (s : Session) (id : String)
    → (post_entry pg e s).0 ≡ ok id
    → Wrote pg e s.live id e.legs (post_entry pg e s).1.live
post_entry-Wrote pg e s id said =
    let same : IsSame pg e s.live s.live = record {
      transactions = refl;
      postings = refl;
      accounts = refl;
      keys = refl;
    } in
    let held = (post_entry-Ensures pg e _ _ (Wrote-IsPosting pg e s.live)).at s same in
    wrote pg e s.live (post_entry pg e s).0 _ id held said
