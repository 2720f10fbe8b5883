-- ===== src/Ledger/Post/Lookups.antt =====
-- What the reads of a book find in rows that were appended, and among keys that are unique.
use pacioli.Prelude.{
  ◌≡◌, refl, sym, ◌∙◌, ap, subst, true, false, Option, none, some, List, [], ◌∷◌, ◌++◌, String,
  str_eq, eq_iff, ◌==◌, ==_iff, All, Has, inl, inr, Bool-cases, some-eq,
}
use pacioli.Schema.Server.{Uuid}
use pacioli.Schema.Tables.{
  AccountRow, TransactionRow, PostingRow, account_by_code, account_by_id, transaction_by_id,
}
use pacioli.Schema.Statements.{some_row}
use pacioli.Ledger.Entry.{Leg}
use pacioli.Ledger.Post.Effect.{posting_rows, leg_rows}
use pacioli.Ledger.Read.{legs_of, joined_leg}
use pacioli.Ledger.Trial.Grouping.{Has-row_ids, Distinct, row_ids, Names}
use pacioli.Ledger.Trial.Zero.{
  account_id_of, transaction_id_of, transaction_currency, transaction_key,
}

joined_leg-append :
    (p : PostingRow) (o : Option AccountRow) (ls ms : List Leg)
    → joined_leg p o (ls ++ ms) ≡ joined_leg p o ls ++ ms
joined_leg-append p none ls ms = refl
joined_leg-append p (some a) ls ms = refl

pub legs_of-append :
    (t : Uuid) (as' : List AccountRow) (ps qs : List PostingRow)
    → legs_of t as' (ps ++ qs) ≡ legs_of t as' ps ++ legs_of t as' qs
unfolding legs_of
legs_of-append t as' [] qs = refl
legs_of-append t as' (q ∷ ps) qs =
    let rest = legs_of-append t as' ps qs in
    let o = account_by_id q.account_id as' in
    elim (Bool-cases (q.transaction_id == t)) [
      | inl e ↦ rw (e, rest) (joined_leg-append q o _ _)
      | inr e ↦ rw e rest
    ]

-- A transaction that no posting names has no legs.
pub legs_of-none :
    (t : Uuid) (as' : List AccountRow) (ts : List TransactionRow) (ps : List PostingRow)
    → ¬ Has t (row_ids transaction_id_of ts)
    → All (Names transaction_id_of transaction_currency transaction_key ts) ps
    → legs_of t as' ps ≡ []
unfolding legs_of
legs_of-none t as' ts [] n h = refl
legs_of-none t as' ts (p ∷ ps) n ((x, m, i, c), hs) = elim (Bool-cases (p.transaction_id == t)) [
  | inl e ↦
      let named = Has-row_ids transaction_id_of transaction_currency transaction_key x ts m in
      absurd (
        n (
          subst (λ u. Has u (row_ids transaction_id_of ts)) (i ∙ (==_iff p.transaction_id t).0 e)
            named))
  | inr e ↦ rw e (legs_of-none t as' ts ps n hs)
]

pub found_id :
    (u : Uuid) (as' : List AccountRow) (a : AccountRow)
    → account_by_id u as' ≡ some a
    → Has u (row_ids account_id_of as')
unfolding account_by_id
found_id u [] a h = cc
found_id u (r ∷ rs) a h = elim (Bool-cases (r.id == u)) [
  | inl e ↦ inl ((==_iff r.id u).0 e)
  | inr e ↦ inr (found_id u rs a (rw e at h))
]

-- An account that is found by its code is found by its id.
pub account_by_id-code :
    (c : String) (as' : List AccountRow) (a : AccountRow)
    → Distinct (row_ids account_id_of as')
    → account_by_code c as' ≡ some a
    → (account_by_id a.id as' ≡ some a) × (a.code ≡ c)
unfolding account_by_code account_by_id
account_by_id-code c [] a d h = cc
account_by_id-code c (r ∷ rs) a (fresh, d) h = elim (Bool-cases (str_eq r.code c)) [
  | inl e ↦
      let own : r ≡ a = some-eq (rw e at h) in
      (
        subst (λ x. account_by_id x.id (r ∷ rs) ≡ some x) own (rw ((==_iff r.id r.id).1 refl) refl),
        ap (λ x. x.code) (sym own) ∙ (eq_iff r.code c).0 e,
      )
  | inr e ↦
      let (found, code) = account_by_id-code c rs a d (rw e at h) in
      elim (Bool-cases (r.id == a.id)) [
        | inl same ↦ absurd (
            fresh (
              subst (λ u. Has u (row_ids account_id_of rs)) (sym ((==_iff r.id a.id).0 same))
                (found_id a.id rs a found)))
        | inr other ↦ (rw other found, code)
      ]
]

pub transaction_by_id-new :
    (row : TransactionRow) (ts : List TransactionRow)
    → some_row (transaction_by_id row.id ts) ≡ false
    → transaction_by_id row.id (ts ++ row ∷ []) ≡ some row
unfolding transaction_by_id
transaction_by_id-new row [] h = rw ((==_iff row.id row.id).1 refl) refl
transaction_by_id-new row (r ∷ rs) h = elim (Bool-cases (r.id == row.id)) [
  | inl e ↦ cc (rw e at h)
  | inr e ↦ rw e (transaction_by_id-new row rs (rw e at h))
]

-- The legs' rows are read back as the legs.
pub legs_of-posting_rows :
    (t : Uuid) (as' : List AccountRow) (ls : List Leg)
    → Distinct (row_ids account_id_of as')
    → All (λ l. some_row (account_by_code l.account as') ≡ true) ls
    → legs_of t as' (posting_rows t as' ls) ≡ ls
unfolding legs_of
legs_of-posting_rows t as' [] k h = refl
legs_of-posting_rows t as' (l ∷ ls) k (h, hs) =
    one (account_by_code l.account as') refl h (legs_of-posting_rows t as' ls k hs)
  where
    one :
        (o : Option AccountRow)
        → account_by_code l.account as' ≡ o
        → some_row o ≡ true
        → legs_of t as' (posting_rows t as' ls) ≡ ls
        → legs_of t as' (leg_rows t l o ++ posting_rows t as' ls) ≡ l ∷ ls
    one none f h r = cc
    one (some a) f h r =
        let (found, code) = account_by_id-code l.account as' a k f in
        let own : record { account = a.code; amount_minor = l.amount_minor } ≡ l =
          λ i. record { account = code i; amount_minor = l.amount_minor } in
        rw ((==_iff t t).1 refl, found, r) (ap (λ x. x ∷ ls) own)

-- And they are no other transaction's.
pub legs_of-others :
    (u t : Uuid) (as' : List AccountRow) (ls : List Leg)
    → (t == u) ≡ false
    → legs_of u as' (posting_rows t as' ls) ≡ []
unfolding legs_of
legs_of-others u t as' [] h = refl
legs_of-others u t as' (l ∷ ls) h =
    one (account_by_code l.account as') (legs_of-others u t as' ls h)
  where
    one :
        (o : Option AccountRow)
        → legs_of u as' (posting_rows t as' ls) ≡ []
        → legs_of u as' (leg_rows t l o ++ posting_rows t as' ls) ≡ []
    one none r = r
    one (some a) r = rw h r

pub transaction_by_id-others :
    (u : Uuid) (row : TransactionRow) (ts : List TransactionRow)
    → (row.id == u) ≡ false
    → transaction_by_id u (ts ++ row ∷ []) ≡ transaction_by_id u ts
unfolding transaction_by_id
transaction_by_id-others u row [] h = rw h refl
transaction_by_id-others u row (t ∷ ts) h = elim (Bool-cases (t.id == u)) [
  | inl e ↦ rw e refl
  | inr e ↦ rw e (transaction_by_id-others u row ts h)
]
