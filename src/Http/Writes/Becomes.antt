-- ===== src/Http/Writes/Becomes.antt =====
-- The write of POST /v1/transactions on the book that the tables stand for, whatever becomes of its
-- connection.
use pacioli.Prelude.{
  ◌≡◌, ◌⊎◌, refl, sym, ◌∙◌, ap, subst, inl, inr, Bool, true, false, Option, none, some, List, [],
  ◌∷◌, String, some-eq, Bool-cases, ◌==◌, ==_iff,
}
use pacioli.Prelude.Int.{ℤ}
use pacioli.Failure.{Failure, DriverError, Result, ok, err}
use pacioli.Schema.Server.{Server, Uuid}
use pacioli.Schema.Tables.{
  Database, TransactionRow, Answer, done, refused, raised, transaction_by_id,
}
use pacioli.Schema.Balance.Firing.{done-injective}
use pacioli.Session.Keeps.{Throughout}
use pacioli.Session.Splits.{EnsuresFrom, EnsuresFrom-then}
use pacioli.Session.Ensures.{
  Ensures, IfOk, Ensures-bind, Ensures-pure, Ensures-rescue, Ensures-query, Ensures-scan,
  Ensures-or_error, Fails-raise,
}
use pacioli.Session.Script.{begin}
use pacioli.Ledger.Entry.{Entry}
use pacioli.Ledger.Post.Effect.{IsSame}
use pacioli.Ledger.Read.{entry_of, find_transaction, legs_of}
use pacioli.Ledger.Once.{Claim, Record}
use pacioli.Ledger.Once.Ended.{Ended, once-Ended}
use pacioli.Ledger.Trial.Zero.{IsLinked}
use pacioli.Ledger.Book.{Book, book_of, entry_of_row}
use pacioli.Ledger.Book.Keyed.{Becomes, Ended-Becomes, commit_book}
use pacioli.Http.Pool.{Store, Fate, write}
use pacioli.Http.Pool.Outcome.{Unwritten, write_all_or_nothing}
use pacioli.Http.Writes.{Outcome, write_entry, read_back}

pub transaction_by_id-id :
    (t : Uuid) (ts : List TransactionRow) (row : TransactionRow)
    → transaction_by_id t ts ≡ some row
    → row.id ≡ t
unfolding transaction_by_id
transaction_by_id-id t [] row h = cc
transaction_by_id-id t (r ∷ rs) row h = elim (Bool-cases (r.id == t)) [
  | inl e ↦ ap (λ x. x.id) (sym (some-eq (rw e at h))) ∙ (==_iff r.id t).0 e
  | inr e ↦ transaction_by_id-id t rs row (rw e at h)
]

module _ (pg : Server) where
  -- The entry of an id.
  abbrev Stored : String → Book → Entry → Type 0
  Stored id b e = (t : Uuid) × (pg.uuid_of id ≡ some t) × (b.entries t ≡ some e)

  -- A replay reads back the entry that it names, and any other write nothing.
  abbrev pub ReadsBack : Book → Outcome → Type 0
  ReadsBack b (rec, none) = rec.replayed ≡ false
  ReadsBack b (rec, some e) = (rec.replayed ≡ true) × Stored rec.transaction b e

  Found : String → Database → Option TransactionRow → Type 0
  Found id d row =
      (t : Uuid) × (pg.uuid_of id ≡ some t) × (transaction_by_id t d.transactions ≡ row)

  find_transaction-Found :
      (id : String) (o : Option Uuid) (d : Database) (row : Option TransactionRow)
      → pg.uuid_of id ≡ o
      → elim o as (λ x. Answer (Option TransactionRow)) [
        | none ↦ refused (raised "22P02")
        | some t ↦ done (transaction_by_id t d.transactions)
      ]
        ≡ done row
      → Found id d row
  unfolding Found
  find_transaction-Found id none d row h k = cc
  find_transaction-Found id (some t) d row h k = (t, h, done-injective k)

  entry_of-Stored :
      (P : Database → Type 0) (id : String)
      → Ensures P (entry_of pg id) (λ p d. P d × Stored id (book_of d) p.1)
  unfolding entry_of book_of find_transaction Found
  entry_of-Stored P id =
      Ensures-bind (λ row d. P d × Found id d (some row)) _ _
        (Ensures-rescue _ _
          (Ensures-bind (λ o d. P d × Found id d o) _ _
            (Ensures-query _ λ d p o h. (p, find_transaction-Found id (pg.uuid_of id) d o refl h))
            λ o. Ensures-scan o λ d (p, (t, u, k)) row h. (p, (t, u, k ∙ h)))
          λ x. Fails-raise _)
        λ row.
          Ensures-bind
            (λ legs d.
              (P d × Found id d (some row)) × (legs_of row.id d.accounts d.postings ≡ legs))
            _ _ (Ensures-or_error _ _ (Ensures-query _ λ d p o h. (p, done-injective h)))
            λ legs. Ensures-pure _ λ d ((p, (t, u, k)), g). (
              p,
              (
                t,
                u,
                ap (λ r. entry_of_row r (legs_of t d.accounts d.postings)) k
                    ∙ ap (entry_of_row (some row)) (
                        ap (λ x. legs_of x d.accounts d.postings)
                          (sym (transaction_by_id-id t d.transactions row k))
                        ∙ g),
              ),
            )

  read_back-ReadsBack :
      (S : Record → Database → Type 0) (rec : Record) (b : Bool)
      → rec.replayed ≡ b
      → Ensures (S rec) (read_back pg rec b) (λ out d. S out.0 d × ReadsBack (book_of d) out)
  read_back-ReadsBack S rec false h = Ensures-pure _ λ d p. (p, h)
  read_back-ReadsBack S rec true h =
      Ensures-bind (λ found d. S rec d × Stored rec.transaction (book_of d) found.1) _ _
        (entry_of-Stored (S rec) rec.transaction) λ found. Ensures-pure _ λ d (p, k). (p, (h, k))

  module _ (c : Claim) (e : Entry) where
    written :
        (before : Database)
        → EnsuresFrom
            (Throughout (IsSame pg e before))
            (write_entry pg c e)
            (λ out d. Ended pg c e before out.0 d × ReadsBack (book_of d) out)
    unfolding write_entry
    written before =
        EnsuresFrom-then _ (Ended pg c e before) _ _ _ (once-Ended pg c e before)
          λ rec. read_back-ReadsBack (Ended pg c e before) rec rec.replayed refl

    -- The answer to a write that the server took: the body's, unless it was lost on the way back.
    abbrev pub Answered : Fate → Outcome → Result Outcome → Type 0
    Answered w out r =
        (r ≡ ok out)
        ⊎ ((x : DriverError) × (w.commit_lost ≡ some x)
            × (w.committed ≡ true)
            × (r ≡ err (Failure.wrap "commit the write" (Failure.driver x))))

ok_part :
    {A : Type 0} (R : A → Database → Type 0) {a : A} (r : Result A) (d : Database)
    → r ≡ ok a
    → IfOk R r d
    → R a d
ok_part R r d said h = subst (λ x. IfOk R x d) said h

-- Where the keys of the tables hold, POST /v1/transactions's write either is refused and leaves them,
-- or moves the book that they stand for as its key says, whatever becomes of the connection: where the
-- key was held for this request, the answer names the entry that the key names, with the entry as it is
-- stored, and the book is unchanged; otherwise the key was free, the answer names an id that no entry
-- had, and the book has the entry under that id, its time as a timestamptz column keeps it, its legs on
-- the balances, and the key held for it. The
-- caller has that answer, unless COMMIT was taken and its answer was lost.
pub write_entry-Becomes :
    (pg : Server) (acquire : ℤ) (w : Fate) (c : Claim) (e : Entry) (st : Store)
    → IsLinked st.book
    → let (r, st') = write acquire w (write_entry pg c e) st in
      Unwritten st r st'
      ⊎ ((out : Outcome) × Becomes pg c e (book_of st.book) out.0 (book_of st'.book)
          × ReadsBack pg (book_of st'.book) out
          × Answered pg c e w out r)
write_entry-Becomes pg acquire w c e st l =
    let start = begin st.book st.drawn w.cut w.fault w.now in
    let same : Throughout (IsSame pg e st.book) start = record {
      live = record { transactions = refl; postings = refl; accounts = refl; keys = refl };
      saved = tt;
    } in
    elim (write_all_or_nothing acquire w (write_entry pg c e) st) [
      | inl h ↦ inl h
      | inr (out, said, taken, committed, told) ↦
          let (ended, back) =
            ok_part (λ out d. Ended pg c e st.book out.0 d × ReadsBack pg (book_of d) out) _ _ said
              ((written pg c e st.book).at start same) in
          let kept = commit_book _ _ committed in
          inr (
            out,
            subst (λ b. Becomes pg c e (book_of st.book) out.0 b) (sym kept)
                (Ended-Becomes pg c e st.book l out.0 _ ended),
            subst (λ b. ReadsBack pg b out) (sym kept) back,
            told,
          )
    ]
