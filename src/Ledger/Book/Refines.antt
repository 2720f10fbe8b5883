-- ===== src/Ledger/Book/Refines.antt =====
-- Post on the tables is add_entry on the book that they stand for.
use pacioli.Prelude.{
  ℕ, ◌≡◌, refl, sym, ◌∙◌, ap, subst, inl, inr, true, false, Option, none, some, List, [], ◌∷◌, ◌++◌,
  String, str_eq, eq_iff, ◌==◌, ==_iff, All, Bool-cases, some-eq, append-nil, if◌then◌else◌,
}
use pacioli.Prelude.Int.{◌+ℤ◌, int_laws}
use pacioli.Failure.{ok}
use pacioli.Schema.Server.{Server, Uuid}
use pacioli.Schema.Tables.{
  Database, AccountRow, TransactionRow, PostingRow, account_by_code, account_by_id,
  transaction_by_id, key_by_key,
}
use pacioli.Schema.Statements.{some_row}
use pacioli.Session.{Session}
use pacioli.Ledger.Entry.{Leg, Entry}
use pacioli.Ledger.Post.{post_entry, stored_time}
use pacioli.Ledger.Post.Effect.{IsEffect, transaction_row, posting_rows, leg_rows, post_entry-Wrote}
use pacioli.Ledger.Post.Lookups.{
  legs_of-append, legs_of-others, transaction_by_id-others, account_by_id-code,
}
use pacioli.Ledger.Post.Stored.{stored_row, stored_legs}
use pacioli.Ledger.Read.{legs_of, balance_minor}
use pacioli.Ledger.Trial.Grouping.{Distinct, row_ids}
use pacioli.Ledger.Trial.Zero.{IsLinked, account_id_of}
use pacioli.Ledger.Book.{moved, moved_by, add_entry, entry_of_row, balance_of_account, book_of}

balance_minor-append :
    (a : Uuid) (ps qs : List PostingRow)
    → balance_minor a (ps ++ qs) ≡ balance_minor a ps +ℤ balance_minor a qs
unfolding balance_minor
balance_minor-append a [] qs = omega int_laws
balance_minor-append a (p ∷ ps) qs =
    let rest = balance_minor-append a ps qs in
    elim (Bool-cases (p.account_id == a)) [
      | inl e ↦ rw (e, rest) (omega int_laws)
      | inr e ↦ rw e rest
    ]

-- Two accounts that are found by their codes are the same where their ids or their codes are.
same_account :
    (as' : List AccountRow) (a b : AccountRow) (c e : String)
    → Distinct (row_ids account_id_of as')
    → account_by_code c as' ≡ some a
    → account_by_code e as' ≡ some b
    → (b.id == a.id) ≡ str_eq e c
same_account as' a b c e k f g = elim (Bool-cases (str_eq e c)) [
  | inl h ↦
      let one : a ≡ b =
        some-eq (sym f ∙ ap (λ x. account_by_code x as') (sym ((eq_iff e c).0 h)) ∙ g) in
      (==_iff b.id a.id).1 (ap (λ x. x.id) (sym one)) ∙ sym h
  | inr h ↦ elim (Bool-cases (b.id == a.id)) [
    | inl i ↦
        let (found_a, code_a) = account_by_id-code c as' a k f in
        let (found_b, code_b) = account_by_id-code e as' b k g in
        let one : a ≡ b =
          some-eq (
            sym found_a ∙ ap (λ u. account_by_id u as') (sym ((==_iff b.id a.id).0 i)) ∙ found_b) in
        let codes : str_eq e c ≡ true =
          (eq_iff e c).1 (sym code_b ∙ ap (λ x. x.code) (sym one) ∙ code_a) in
        cc
    | inr i ↦ i ∙ sym h
  ]
]

pub no_entry_of :
    (o : Option TransactionRow) (ls : List Leg) → some_row o ≡ false → entry_of_row o ls ≡ none
no_entry_of none ls h = refl
no_entry_of (some r) ls h = cc

balance_minor-posting_rows :
    (t : Uuid) (as' : List AccountRow) (ls : List Leg) (a : AccountRow) (c : String)
    → Distinct (row_ids account_id_of as')
    → account_by_code c as' ≡ some a
    → All (λ l. some_row (account_by_code l.account as') ≡ true) ls
    → balance_minor a.id (posting_rows t as' ls) ≡ moved c ls
unfolding balance_minor moved
balance_minor-posting_rows t as' [] a c k f h = refl
balance_minor-posting_rows t as' (l ∷ ls) a c k f (h, hs) =
    one (account_by_code l.account as') refl h (balance_minor-posting_rows t as' ls a c k f hs)
  where
    one :
        (o : Option AccountRow)
        → account_by_code l.account as' ≡ o
        → some_row o ≡ true
        → balance_minor a.id (posting_rows t as' ls) ≡ moved c ls
        → balance_minor a.id (leg_rows t l o ++ posting_rows t as' ls)
          ≡ (if str_eq l.account c then l.amount_minor +ℤ moved c ls else moved c ls)
    one none g h r = cc
    one (some b) g h r = rw (same_account as' a b c l.account k f g, r) refl

module _ (pg : Server) (e : Entry) (before : Database) (l : IsLinked before) (t : Uuid) (now : ℕ)
    (d : Database) (w : IsEffect pg e before t now e.legs d) where
  abbrev pub posted : Entry
  posted = record e { occurred_at = some (stored_time pg e.occurred_at now) }

  entries-add : (u : Uuid) → (book_of d).entries u ≡ (add_entry t posted (book_of before)).entries u
  unfolding book_of add_entry
  entries-add u = elim (Bool-cases (t == u)) [
    | inl same ↦ rw same (
        subst
          (λ x.
            entry_of_row (transaction_by_id x d.transactions) (legs_of x d.accounts d.postings)
            ≡ some posted)
          ((==_iff t u).0 same)
          (rw (stored_row pg e before l t now d w, stored_legs pg e before l t now d w) refl))
    | inr other ↦
        let row =
          ap (transaction_by_id u) w.transactions
          ∙ transaction_by_id-others u (transaction_row pg e before t now) before.transactions
              other in
        let legs =
          ap (λ as'. legs_of u as' d.postings) w.accounts
          ∙ ap (legs_of u before.accounts) w.postings
          ∙ legs_of-append u before.accounts before.postings (posting_rows t before.accounts e.legs)
          ∙ ap (λ ls. legs_of u before.accounts before.postings ++ ls)
              (legs_of-others u t before.accounts e.legs other)
          ∙ append-nil (legs_of u before.accounts before.postings) in
        rw (other, row, legs) refl
  ]

  balances-add :
      (c : String) → (book_of d).balances c ≡ (add_entry t posted (book_of before)).balances c
  unfolding book_of add_entry
  balances-add c =
      ap (λ as'. balance_of_account d.postings (account_by_code c as')) w.accounts
      ∙ one (account_by_code c before.accounts) refl
    where
      one :
          (o : Option AccountRow)
          → account_by_code c before.accounts ≡ o
          → balance_of_account d.postings o
            ≡ moved_by (moved c e.legs) (balance_of_account before.postings o)
      one none f = refl
      one (some a) f = ap some (
          ap (balance_minor a.id) w.postings
          ∙ balance_minor-append a.id before.postings (posting_rows t before.accounts e.legs)
          ∙ ap (λ m. balance_minor a.id before.postings +ℤ m)
              (balance_minor-posting_rows t before.accounts e.legs a c l.account_keys f w.named))

  pub book_of-add_entry : book_of d ≡ add_entry t posted (book_of before)
  unfolding book_of add_entry
  book_of-add_entry = λ i. record {
    entries = λ u. entries-add u i;
    balances = λ c. balances-add c i;
    keys = λ k. key_by_key k (w.keys i);
  }

-- Where the keys of the tables hold and Post succeeds, the id that it answers with is one that no
-- entry had, and the tables stand for the book before it with the entry added, its time as a
-- timestamptz column keeps it: under that id, on the balances of the accounts that its legs name, and
-- nowhere else.
pub post_entry-add_entry :
    (pg : Server) (e : Entry) (s : Session) (id : String)
    → IsLinked s.live
    → (post_entry pg e s).0 ≡ ok id
    → (t : Uuid) × (now : ℕ) × (pg.uuid_text t ≡ id)
      × ((book_of s.live).entries t ≡ none)
      × (book_of (post_entry pg e s).1.live
          ≡ add_entry t
              (record e { occurred_at = some (stored_time pg e.occurred_at now) })
              (book_of s.live))
unfolding book_of
post_entry-add_entry pg e s id l said =
    let d = (post_entry pg e s).1.live in
    let (t, now, text, w) = post_entry-Wrote pg e s id said in
    (t, now, text, no_entry_of _ _ w.fresh, book_of-add_entry pg e s.live l t now d w)
