-- ===== src/Ledger/Book/Keyed.antt =====
-- A write under a key on the tables, on the book that they stand for: the key is looked up, and where
-- it is free the entry is added and the key held for it.
use pacioli.Prelude.{
  ℕ, ◌≡◌, ◌⊎◌, refl, sym, ◌∙◌, ap, subst, inl, inr, true, false, Option, none, some, List, [], ◌∷◌,
  ◌++◌, String, str_eq, eq_iff, Bool-cases, if◌then◌else◌,
}
use pacioli.Schema.Server.{Server, Uuid}
use pacioli.Schema.Tables.{
  Database, KeyRow, done, key_by_key, account_by_code, transaction_by_id, all_immediate,
}
use pacioli.Schema.Triggers.{commit, settle}
use pacioli.Schema.Statements.{some_row, settle_rows}
use pacioli.Schema.Balance.Firing.{>>=-done, done-injective}
use pacioli.Schema.Balance.Covered.{settle-Fired}
use pacioli.Ledger.Entry.{Entry}
use pacioli.Ledger.Post.{stored_time}
use pacioli.Ledger.Trial.Zero.{IsLinked}
use pacioli.Ledger.Once.{Claim, Record, equal}
use pacioli.Ledger.Once.Reserved.{key_row, key_by_key-new, settle_rows-held}
use pacioli.Ledger.Once.Effect.{IsFree, with_key}
use pacioli.Ledger.Once.Ended.{Ended, Posted}
use pacioli.Ledger.Read.{legs_of}
use pacioli.Ledger.Book.{Book, add_entry, hold_key, book_of, entry_of_row, balance_of_account}
use pacioli.Ledger.Book.Refines.{book_of-add_entry, no_entry_of}

-- Other keys are found as before.
key_by_key-others :
    (k : String) (row : KeyRow) (rs : List KeyRow)
    → str_eq row.key k ≡ false
    → key_by_key k (rs ++ row ∷ []) ≡ key_by_key k rs
unfolding key_by_key
key_by_key-others k row [] h = rw h refl
key_by_key-others k row (r ∷ rs) h = elim (Bool-cases (str_eq r.key k)) [
  | inl e ↦ rw e refl
  | inr e ↦ rw e (key_by_key-others k row rs h)
]

settle_rows-others :
    (k j : String) (t : Uuid) (rs : List KeyRow)
    → str_eq k j ≡ false
    → key_by_key j (settle_rows k t rs) ≡ key_by_key j rs
unfolding key_by_key
settle_rows-others k j t [] h = refl
settle_rows-others k j t (r ∷ rs) h =
    let rest = settle_rows-others k j t rs h in
    elim (Bool-cases (str_eq r.key k)) [
      | inl e ↦
          let other : str_eq r.key j ≡ false = ap (λ x. str_eq x j) ((eq_iff r.key k).0 e) ∙ h in
          elim (Bool-cases (some_row r.transaction_id)) [
            | inl o ↦ rw (e, o, other) rest
            | inr o ↦ rw (e, o, other) rest
          ]
      | inr e ↦ rw (e, rest) refl
    ]

no_row : {A : Type 0} (o : Option A) → some_row o ≡ false → o ≡ none
no_row none h = refl
no_row (some a) h = cc

-- Tables with the same rows stand for the same book.
same_book :
    (d d' : Database)
    → d'.transactions ≡ d.transactions
    → d'.postings ≡ d.postings
    → d'.accounts ≡ d.accounts
    → d'.idempotency_keys ≡ d.idempotency_keys
    → book_of d' ≡ book_of d
unfolding book_of
same_book d d' ts ps as' ks = λ i. record {
  entries = λ u. entry_of_row (transaction_by_id u (ts i)) (legs_of u (as' i) (ps i));
  balances = λ code. balance_of_account (ps i) (account_by_code code (as' i));
  keys = λ k. key_by_key k (ks i);
}

-- What a write under a key answers with and does to the book: what the key already named and nothing,
-- or a new entry, and the key held for it.
pub record Repeats (pg : Server) (c : Claim) (b : Book) (rec : Record) (b' : Book) : Type 0 where
  pub replayed : rec.replayed ≡ true
  pub row : KeyRow
  pub t : Uuid
  pub held : b.keys c.key ≡ some row
  pub request : equal row.request_hash c.request_hash ≡ true
  pub names : row.transaction_id ≡ some t
  pub transaction : rec.transaction ≡ pg.uuid_text t
  pub book : b' ≡ b

pub record Enters (pg : Server) (c : Claim) (e : Entry) (b : Book) (rec : Record) (b' : Book)
    : Type 0 where
  pub replayed : rec.replayed ≡ false
  pub t : Uuid
  pub now : ℕ
  pub free : b.keys c.key ≡ none
  pub fresh : b.entries t ≡ none
  pub transaction : rec.transaction ≡ pg.uuid_text t
  pub book :
      b'
      ≡ hold_key c.key
          (key_row pg c (some t))
          (add_entry t (record e { occurred_at = some (stored_time pg e.occurred_at now) }) b)

abbrev pub Becomes : Server → Claim → Entry → Book → Record → Book → Type 0
Becomes pg c e b rec b' = Repeats pg c b rec b' ⊎ Enters pg c e b rec b'

pub commit_book : (d d' : Database) → commit d ≡ done d' → book_of d' ≡ book_of d
unfolding commit
commit_book d d' h =
    let now : Database = record d { modes = all_immediate } in
    let (d₁, q, r) = >>=-done (settle now) _ h in
    let s = (settle-Fired now d₁ q).same in
    let last = sym (done-injective r) in
    same_book d d' (ap (λ x. x.transactions) last ∙ s.transactions)
      (ap (λ x. x.postings) last ∙ s.postings) (ap (λ x. x.accounts) last ∙ s.accounts)
      (ap (λ x. x.idempotency_keys) last ∙ s.idempotency_keys)

module _ (pg : Server) (c : Claim) (e : Entry) (before : Database) (l : IsLinked before) where
  linked : IsLinked (with_key pg c e before)
  linked = record {
    account_keys = l.account_keys;
    transaction_keys = l.transaction_keys;
    accounts = l.accounts;
    transactions = l.transactions;
  }

  keys-hold_key :
      (t : Uuid)
      → IsFree pg c e before
      → (j : String)
      → key_by_key j (settle_rows c.key t (with_key pg c e before).idempotency_keys) ≡ (
          if str_eq c.key j
          then some (key_row pg c (some t))
          else key_by_key j before.idempotency_keys)
  keys-hold_key t free j = elim (Bool-cases (str_eq c.key j)) [
    | inl h ↦ rw h (
        subst
          (λ k.
            key_by_key k (settle_rows c.key t (with_key pg c e before).idempotency_keys)
            ≡ some (key_row pg c (some t)))
          ((eq_iff c.key j).0 h)
          (settle_rows-held pg c t _
            (key_by_key-new (key_row pg c none) before.idempotency_keys free)))
    | inr h ↦ rw h (
        settle_rows-others c.key j t _ h
        ∙ key_by_key-others j (key_row pg c none) before.idempotency_keys h)
  ]

  Claimed-Enters :
      (rec : Record) (d : Database)
      → Posted pg c e before rec d
      → Enters pg c e (book_of before) rec (book_of d)
  unfolding book_of add_entry hold_key
  Claimed-Enters rec d (first, (t, now, text, p)) =
      let added =
        book_of-add_entry pg e (with_key pg c e before) linked t now
          (record d { idempotency_keys = (with_key pg c e before).idempotency_keys }) p.entry in
      record {
        replayed = first;
        t = t;
        now = now;
        free = no_row _ p.free;
        fresh = no_entry_of _ _ p.entry.fresh;
        transaction = text;
        book = λ i. record {
          entries = (added i).entries;
          balances = (added i).balances;
          keys = λ j. (ap (key_by_key j) p.keys ∙ keys-hold_key t p.free j) i;
        };
      }

  pub Ended-Becomes :
      (rec : Record) (d : Database)
      → Ended pg c e before rec d
      → Becomes pg c e (book_of before) rec (book_of d)
  unfolding book_of
  Ended-Becomes rec d (inl (again, (row, t, held, same, names, text), s)) = inl (record {
    replayed = again;
    row = row;
    t = t;
    held = held;
    request = same;
    names = names;
    transaction = text;
    book = same_book before d s.transactions s.postings s.accounts s.keys;
  })
  Ended-Becomes rec d (inr p) = inr (Claimed-Enters rec d p)
