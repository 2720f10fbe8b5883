-- ===== src/Http/Writes/Opens.antt =====
-- The write of POST /v1/accounts: the account that Open has opened, as BalanceOf reads it back.
use pacioli.Prelude.{
  ◌≡◌, refl, sym, ◌∙◌, ap, subst, inl, inr, true, false, not, Option, some, List, [], ◌∷◌, ◌++◌,
  String, str_eq, eq_iff, ◌==◌, ==_iff, All, Has, Bool-cases, some-eq,
}
use pacioli.Prelude.Int.{pos}
use pacioli.Failure.{Failure, Result, ok, err}
use pacioli.Schema.Server.{Server, Uuid, codes, matches_code, matches_currency, is_words}
use pacioli.Schema.Tables.{
  Database, AccountKind, AccountRow, PostingRow, done, account_by_code, account_by_id, refuse_if,
  violates,
}
use pacioli.Schema.Statements.{insert_account, cast_kind, kind_text, some_row}
use pacioli.Schema.Balance.Firing.{>>-done, >>=-done, done-injective}
use pacioli.Schema.Balance.Covered.{settle-Fired}
use pacioli.Session.{Session, or_error, rollback_to}
use pacioli.Session.Ensures.{
  Ensures, IfOk, Ensures-bind, Ensures-rescue, Ensures-query, Ensures-scan, Ensures-or_error,
  Ensures-attempt, Ensures-savepoint, Ensures-release, Ensures-write, Fails-raise, Fails-bind,
  Fails, failing,
}
use pacioli.Ledger.Trial.Grouping.{Has-row_ids, row_ids, Names}
use pacioli.Ledger.Trial.Linked.{unnamed_account}
use pacioli.Ledger.Trial.Zero.{IsLinked, account_id_of, account_currency, account_key}
use pacioli.Ledger.Read.{
  Balance, balance_of, balance_of_row, find_balance, has_nul, balance_row, balance_minor,
  posting_count,
}
use pacioli.Ledger.Once.Reserved.{allowed}
use pacioli.Ledger.Open.{
  Account, open_account, opened, undo_open, insert_chart, second_look, open_savepoint,
}
use pacioli.Http.Writes.{write_account}

kind_text-cast_kind : (s : String) (k : AccountKind) → cast_kind s ≡ done k → kind_text k ≡ s
kind_text-cast_kind s k h = elim (Bool-cases (str_eq s "asset")) [
  | inl e ↦ read "asset" AccountKind.asset refl e (rw e at h)
  | inr a ↦ elim (Bool-cases (str_eq s "liability")) [
    | inl e ↦ read "liability" AccountKind.liability refl e (rw (a, e) at h)
    | inr b ↦ elim (Bool-cases (str_eq s "equity")) [
      | inl e ↦ read "equity" AccountKind.equity refl e (rw (a, b, e) at h)
      | inr c ↦ elim (Bool-cases (str_eq s "revenue")) [
        | inl e ↦ read "revenue" AccountKind.revenue refl e (rw (a, b, c, e) at h)
        | inr d ↦ elim (Bool-cases (str_eq s "expense")) [
          | inl e ↦ read "expense" AccountKind.expense refl e (rw (a, b, c, d, e) at h)
          | inr e ↦ cc (rw (a, b, c, d, e) at h)
        ]
      ]
    ]
  ]
]
  where
    read :
        (t : String) (j : AccountKind)
        → kind_text j ≡ t
        → str_eq s t ≡ true
        → done j ≡ done k
        → kind_text k ≡ s
    read t j text e h = ap kind_text (sym (done-injective h)) ∙ text ∙ sym ((eq_iff s t).0 e)

account_by_code-new :
    (row : AccountRow) (rs : List AccountRow)
    → some_row (account_by_code row.code rs) ≡ false
    → account_by_code row.code (rs ++ row ∷ []) ≡ some row
unfolding account_by_code
account_by_code-new row [] h = rw ((eq_iff row.code row.code).1 refl) refl
account_by_code-new row (r ∷ rs) h = elim (Bool-cases (str_eq r.code row.code)) [
  | inl e ↦ cc (rw e at h)
  | inr e ↦ rw e (account_by_code-new row rs (rw e at h))
]

-- An account that no posting names has nothing on it.
nothing_on :
    (u : Uuid) (as' : List AccountRow) (ps : List PostingRow)
    → ¬ Has u (row_ids account_id_of as')
    → All (Names account_id_of account_currency account_key as') ps
    → (balance_minor u ps ≡ pos 0) × (posting_count u ps ≡ 0)
unfolding balance_minor posting_count
nothing_on u as' [] n h = (refl, refl)
nothing_on u as' (p ∷ ps) n ((x, m, i, c), hs) = elim (Bool-cases (p.account_id == u)) [
  | inl e ↦
      let named = Has-row_ids account_id_of account_currency account_key x as' m in
      absurd
        (n (subst (λ v. Has v (row_ids account_id_of as')) (i ∙ (==_iff p.account_id u).0 e) named))
  | inr e ↦ let (b, k) = nothing_on u as' ps n hs in (rw e b, rw e k)
]

abbrev pub new_balance : Account → Balance
new_balance a = record {
  account = a.code;
  name = a.name;
  kind = a.kind;
  currency = a.currency;
  amount_minor = pos 0;
  postings = 0;
}

-- The chart has the account and had no other with its code, and nothing is posted to it.
pub record IsOpened (a : Account) (before d : Database) : Type 0 where
  pub row : AccountRow
  pub free : some_row (account_by_code a.code before.accounts) ≡ false
  pub accounts : d.accounts ≡ before.accounts ++ row ∷ []
  pub code : row.code ≡ a.code
  pub name : row.name ≡ a.name
  pub kind : kind_text row.kind ≡ a.kind
  pub currency : row.currency ≡ a.currency
  pub amount : balance_minor row.id d.postings ≡ pos 0
  pub postings : posting_count row.id d.postings ≡ 0

module _ (pg : Server) (a : Account) (before : Database) (l : IsLinked before) where
  insert_account-IsOpened :
      (u : Uuid) (d' : Database)
      → insert_account pg u a.code a.name a.kind a.currency before ≡ done d'
      → IsOpened a before d'
  unfolding insert_account
  insert_account-IsOpened u d' h =
      let (k, cast, h0) = >>=-done (cast_kind a.kind) _ h in
      let h1 =
        (>>-done
          (refuse_if (not (matches_code (codes a.code)))
            (violates "23514" "accounts_code_check" "accounts"))
          _ h0).1 in
      let h2 =
        (>>-done
          (refuse_if (not (matches_currency (codes a.currency)))
            (violates "23514" "accounts_currency_check" "accounts"))
          _ h1).1 in
      let h3 =
        (>>-done
          (refuse_if (not (is_words pg 100 a.name))
            (violates "23514" "accounts_name_check" "accounts"))
          _ h2).1 in
      let (id, h4) =
        >>-done
          (refuse_if (some_row (account_by_id u before.accounts))
            (violates "23505" "accounts_pkey" "accounts"))
          _ h3 in
      let (code, last) =
        >>-done
          (refuse_if (some_row (account_by_code a.code before.accounts))
            (violates "23505" "accounts_code_key" "accounts"))
          _ h4 in
      let s =
        (settle-Fired
          (record before {
            accounts =
                before.accounts
                ++ record { id = u; code = a.code; name = a.name; kind = k; currency = a.currency }
                  ∷ [];
          })
          d' last).same in
      let row : AccountRow = record {
        id = u;
        code = a.code;
        name = a.name;
        kind = k;
        currency = a.currency;
      } in
      let (b, n) =
        nothing_on u before.accounts before.postings
          (unnamed_account u before.accounts (allowed _ _ id)) l.accounts in
      record {
        row = row;
        free = allowed _ _ code;
        accounts = s.accounts;
        code = refl;
        name = refl;
        kind = kind_text-cast_kind a.kind k cast;
        currency = refl;
        amount = ap (balance_minor u) s.postings ∙ b;
        postings = ap (posting_count u) s.postings ∙ n;
      }

  undo_open-Fails : (x : Failure) → Fails (undo_open a x)
  unfolding undo_open
  undo_open-Fails x =
      Fails-bind (or_error (rollback_to open_savepoint) _) _
        λ u. Fails-bind (second_look x a) _ λ y. Fails-raise _

  opened-IsOpened :
      (r : Result (Unit {0}))
      → Ensures (IfOk (λ u d. IsOpened a before d) r) (opened a r) (λ u d. IsOpened a before d)
  opened-IsOpened (ok u) = Ensures-or_error _ _ (Ensures-release _)
  opened-IsOpened (err x) = record {
    at = λ s p.
        failing (λ u d. IsOpened a before d) (undo_open a x s).0 (undo_open a x s).1
          ((undo_open-Fails x).at s);
  }

  open_account-IsOpened : Ensures (λ d. d ≡ before) (open_account pg a) (λ u d. IsOpened a before d)
  unfolding open_account insert_chart
  open_account-IsOpened =
      Ensures-bind (λ u d. d ≡ before) _ _ (Ensures-or_error _ _ (Ensures-savepoint _))
        λ u.
          Ensures-bind (IfOk (λ u d. IsOpened a before d)) _ _
            (Ensures-attempt _ (
              Ensures-write (IsOpened a before) _ λ u d d' same h. insert_account-IsOpened u d' (
                subst (λ x. insert_account pg u a.code a.name a.kind a.currency x ≡ done d') same
                  h)))
            opened-IsOpened

  balance_row-new :
      (d : Database)
      → IsOpened a before d
      → balance_of_row d (account_by_code a.code d.accounts) ≡ some (new_balance a)
  unfolding balance_row
  balance_row-new d p =
      rw
        (
          p.accounts,
          subst (λ c. account_by_code c (before.accounts ++ p.row ∷ []) ≡ some p.row) p.code
              (account_by_code-new p.row before.accounts
                (ap (λ c. some_row (account_by_code c before.accounts)) p.code ∙ p.free)),
        )
        (λ i. some (record {
          account = p.code i;
          name = p.name i;
          kind = p.kind i;
          currency = p.currency i;
          amount_minor = p.amount i;
          postings = p.postings i;
        }))

  find_balance-done :
      (d : Database) (o : Option Balance)
      → find_balance a.code d ≡ done o
      → balance_of_row d (account_by_code a.code d.accounts) ≡ o
  unfolding find_balance
  find_balance-done d o h = elim (Bool-cases (has_nul (codes a.code))) [
    | inl e ↦ cc (rw e at h)
    | inr e ↦ done-injective (rw e at h)
  ]

  balance_of-IsOpened :
      Ensures
        (IsOpened a before)
        (balance_of a.code)
        (λ b d. IsOpened a before d × (b ≡ new_balance a))
  unfolding balance_of
  balance_of-IsOpened =
      Ensures-rescue _ _
        (Ensures-bind (λ o d. IsOpened a before d × (o ≡ some (new_balance a))) _ _
          (Ensures-query _ λ d p o h. (p, sym (find_balance-done d o h) ∙ balance_row-new d p))
          λ o. Ensures-scan o λ d (p, k) b h. (p, some-eq (sym h ∙ k)))
        λ x. Fails-raise _

  write_account-Ensures :
      Ensures
        (λ d. d ≡ before)
        (write_account pg a)
        (λ b d. IsOpened a before d × (b ≡ new_balance a))
  unfolding write_account
  write_account-Ensures =
      Ensures-bind (λ u d. IsOpened a before d) _ _ open_account-IsOpened λ u. balance_of-IsOpened

-- Where the keys of the tables hold and the write of POST /v1/accounts succeeds, no account had the
-- code, the chart has one account more, with the request's columns and nothing posted to it, and the
-- answer is that account with a balance of nothing over no postings.
pub write_account-IsOpened :
    (pg : Server) (a : Account) (s : Session) (b : Balance)
    → IsLinked s.live
    → (write_account pg a s).0 ≡ ok b
    → IsOpened a s.live (write_account pg a s).1.live × (b ≡ new_balance a)
write_account-IsOpened pg a s b l said =
    subst
      (λ r. IfOk (λ x d. IsOpened a s.live d × (x ≡ new_balance a)) r (write_account pg a s).1.live)
      said ((write_account-Ensures pg a s.live l).at s refl)
