-- ===== src/Http/Serve/Retry.antt =====
-- A request that is sent again: the second call of Write under its key answers with the first
-- one's transaction, and posts nothing.
use pacioli.Prelude.{
  ℕ, ◌+◌, ◌≡◌, refl, sym, ◌∙◌, ap, subst, inl, inr, ◌⊎◌, Bool, true, false, Option, none, some,
  List, [], ◌∷◌, String, ==_iff,
}
use pacioli.Prelude.Int.{ℤ}
use pacioli.Failure.{DriverError, Result, ok}
use pacioli.Schema.Server.{Server, Uuid}
use pacioli.Schema.Tables.{
  Database, TransactionRow, Answer, done, all_immediate, transaction_by_id, key_by_key,
}
use pacioli.Schema.Triggers.{commit, settle, fire_all}
use pacioli.Schema.Deferred.{IsDeferred, set_constraints-IsDeferred}
use pacioli.Schema.Statements.{some_row}
use pacioli.Schema.Balance.Firing.{done-injective, >>=-done}
use pacioli.Schema.Balance.Covered.{IsQuiet, settle-Fired}
use pacioli.Session.{Session, usable, query, exec}
use pacioli.Session.Script.{begin}
use pacioli.Session.Ensures.{
  Ensures, IfOk, Ensures-bind, Ensures-pure, Ensures-rescue, Ensures-or_error, Ensures-query,
  Ensures-scan, Fails-raise,
}
use pacioli.Ledger.Entry.{Entry}
use pacioli.Ledger.Once.{Claim, Record, equal}
use pacioli.Ledger.Once.Replay.{IsClaim, once_replays}
use pacioli.Ledger.Once.Reserved.{key_row}
use pacioli.Ledger.Once.Held.{IsSettled, once-Ensures}
use pacioli.Ledger.Post.{post_entry}
use pacioli.Ledger.Book.{book_of, entry_of_row}
use pacioli.Http.Writes.Becomes.{transaction_by_id-id}
use pacioli.Ledger.Read.{entry_of, find_transaction, legs_of}
use pacioli.Http.Pool.{Store, Fate, write, conn, finish, commit_tx, server_commit}
use pacioli.Http.Pool.Outcome.{write_all_or_nothing}
use pacioli.Http.Serve.{Call, Wiring, serve_all}
use pacioli.Http.Serve.Carried.{Carries, serve_all-Carries}
use pacioli.Ledger.Once.Lasting.{IsNamed, IsNamed-IsKept, commit-IsNamed}
use pacioli.Schema.Tables.{KeyRow}
use pacioli.Http.Serve.Books.{IsBook, write_entry-IsBook, serve_all-IsBook}
use pacioli.Http.Writes.{Outcome, write_entry, read_back}

-- The connection is given, and holds to the end.
abbrev pub unbroken : Fate → Fate
unbroken w = record w { refusal = none; begin_fails = none; cut = none; commit_lost = none }

equal_refl : (xs : List ℕ) → equal xs xs ≡ true
unfolding equal
equal_refl [] = refl
equal_refl (x ∷ xs) = rw ((==_iff x x).1 refl) (equal_refl xs)

-- COMMIT of tables with nothing queued.
commit-quiet : (d : Database) → d.queue ≡ [] → IsDeferred d → commit d ≡ done d
unfolding commit settle fire_all
commit-quiet d q m = rw q (λ i. done (record d { queue = []; modes = sym m i }))

-- What a replay reads back.
abbrev stored_entry : Database → TransactionRow → Entry
stored_entry d row = record {
  currency = row.currency;
  description = row.description;
  legs = legs_of row.id d.accounts d.postings;
  occurred_at = some row.occurred_at;
}

stored_entry-entries :
    (t : Uuid) (row : TransactionRow) (d : Database)
    → transaction_by_id t d.transactions ≡ some row
    → (book_of d).entries t ≡ some (stored_entry d row)
unfolding book_of
stored_entry-entries t row d h =
    ap (λ r. entry_of_row r (legs_of t d.accounts d.postings)) h
    ∙ ap (λ u. entry_of_row (some row) (legs_of u d.accounts d.postings))
        (sym (transaction_by_id-id t d.transactions row h))

module _ (pg : Server) (c : Claim) where
  abbrev pub replay_of : String → Record
  replay_of id = record { key = c.key; transaction = id; replayed = true }

  write_entry-replays :
      (e : Entry) (t : Uuid) (row : TransactionRow) (d : Database) (n : ℕ) (fault : DriverError)
      (now : ℕ)
      → IsClaim pg c
      → IsDeferred d
      → key_by_key c.key d.idempotency_keys ≡ some (key_row pg c (some t))
      → transaction_by_id t d.transactions ≡ some row
      → write_entry pg c e (usable d [] n fault now) ≡ (
        ok (replay_of (pg.uuid_text t), some (stored_entry d row)),
        usable d [] (n + 1 + 1 + 1 + 1 + 1) fault now,
      )
  unfolding write_entry entry_of find_transaction query exec
  write_entry-replays e t row d n fault now k m h f =
      rw
        (once_replays pg c (post_entry pg e) t c.request_hash d d [] n fault now k
          (set_constraints-IsDeferred _ d m) h (equal_refl c.request_hash))
        (rw (pg.uuid_of-uuid_text t, f) refl)

  -- The answer's key names its transaction, which the tables hold where it was no replay.
  abbrev pub IsHeld : Outcome → Database → Type 0
  IsHeld out d = IsSettled pg c out.0 d

  keeps-query :
      {A : Type 0} (P : Database → Type 0) (body : Database → Answer A)
      → Ensures P (query body) (λ a d. P d)
  keeps-query P body = Ensures-query body λ d p a h. p

  entry_of-Ensures :
      (P : Database → Type 0) (id : String) → Ensures P (entry_of pg id) (λ found d. P d)
  unfolding entry_of
  entry_of-Ensures P id =
      Ensures-bind (λ t d. P d) _ _
        (Ensures-rescue _ _
          (Ensures-bind (λ o d. P d) _ _ (keeps-query P _) λ o. Ensures-scan o λ d p a h. p)
          λ e. Fails-raise _)
        λ t.
          Ensures-bind (λ legs d. P d) _ _ (Ensures-or_error _ _ (keeps-query P _))
            λ legs. Ensures-pure _ λ d p. p

  read_back-Ensures :
      (rec : Record) (b : Bool) → Ensures (IsSettled pg c rec) (read_back pg rec b) IsHeld
  read_back-Ensures rec false = Ensures-pure _ λ d p. p
  read_back-Ensures rec true =
      Ensures-bind (λ found d. IsSettled pg c rec d) _ _ (entry_of-Ensures _ rec.transaction)
        λ found. Ensures-pure _ λ d p. p

  write_entry-Ensures : (e : Entry) → Ensures (λ d. Unit {0}) (write_entry pg c e) IsHeld
  unfolding write_entry
  write_entry-Ensures e =
      Ensures-bind (IsSettled pg c) _ _ (once-Ensures pg c e)
        λ rec. read_back-Ensures rec rec.replayed

  commit-IsSettled :
      (rec : Record) (d d' : Database)
      → IsSettled pg c rec d
      → commit d ≡ done d'
      → IsSettled pg c rec d'
  unfolding commit
  commit-IsSettled rec d d' (t, text, key, row) h =
      let (d₁, p, q) = >>=-done (settle (record d { modes = all_immediate })) _ h in
      let s = (settle-Fired _ d₁ p).same in
      subst (IsSettled pg c rec) (done-injective q)
        (t, text, rw s.idempotency_keys key, rw s.transactions row)

  committed-IsHeld :
      (r : Result Outcome) (s : Session) (out : Outcome) (d : Database)
      → IfOk IsHeld r s.live
      → r ≡ ok out
      → commit s.live ≡ done d
      → IsHeld out d
  committed-IsHeld r s out d h e k =
      commit-IsSettled out.0 s.live d (subst (λ x. IfOk IsHeld x s.live) e h) k

  -- A call of Write under a claim that is answered, fresh or replayed, has left in the book the key,
  -- held for the claim's request and naming the transaction of the answer, which the transactions
  -- hold where it was no replay.
  pub write-IsHeld :
      (acquire : ℤ) (w : Fate) (e : Entry) (st : Store) (out : Outcome)
      → (write acquire w (write_entry pg c e) st).0 ≡ ok out
      → IsHeld out (write acquire w (write_entry pg c e) st).1.book
  write-IsHeld acquire w e st out h =
      let start = begin st.book st.drawn w.cut w.fault w.now in
      let (r, s) = write_entry pg c e start in
      let held = (write_entry-Ensures e).at start tt in
      elim (write_all_or_nothing acquire w (write_entry pg c e) st) [
        | inl ((x, failed), same) ↦ cc
        | inr (a, said, f, k, inl told) ↦ committed-IsHeld r s out _ held (said ∙ sym told ∙ h) k
        | inr (a, said, f, k, inr (x, lost, y, failed)) ↦ cc
      ]

  write-replays :
      (acquire : ℤ) (w : Fate) (e : Entry) (t : Uuid) (row : TransactionRow) (st : Store)
      → IsClaim pg c
      → IsQuiet st.book
      → key_by_key c.key st.book.idempotency_keys ≡ some (key_row pg c (some t))
      → transaction_by_id t st.book.transactions ≡ some row
      → let (r, st') = write acquire (unbroken w) (write_entry pg c e) st in
        (r ≡ ok (replay_of (pg.uuid_text t), some (stored_entry st.book row)))
        × (st'.book ≡ st.book)
  unfolding write conn finish commit_tx server_commit
  write-replays acquire w e t row st k q h f =
      rw (write_entry-replays e t row st.book st.drawn w.fault w.now k q.modes h f)
        (rw (commit-quiet st.book q.queue q.modes) (refl, refl))

is_there : {A : Type 0} (o : Option A) → some_row o ≡ true → (a : A) × (o ≡ some a)
is_there none h = cc
is_there (some a) h = (a, refl)

not_replay : {X : Type 0} (b : Bool) → b ≡ false → (b ≡ true) ⊎ X → X
not_replay true h x = cc
not_replay false h (inl e) = cc
not_replay false h (inr x) = x

IsNamed-Carries :
    (pg : Server) (key : String) (row : KeyRow) (t : Uuid)
    (own : some_row row.transaction_id ≡ true)
    → Carries pg (IsNamed pg key row t own) (IsNamed pg key row t own)
IsNamed-Carries pg key row t own = record {
  begins = λ d n. n;
  kept = IsNamed-IsKept pg key row t own;
  commits = commit-IsNamed pg key row t own;
}

-- On a sound book, a call of Write under a claim has posted an entry and was answered. Then, after
-- any run of other calls, a call under the same claim over a connection that holds, with whatever
-- entry, is answered with the first one's transaction, as a replay with the entry that the book has
-- under that transaction's id, and leaves the book as it was.
pub retry_posts_once :
    (wire : Wiring) (c : Claim) (e e' : Entry) (w w' : Fate) (st : Store) (out : Outcome)
    (calls : List (Call × Fate))
    → IsClaim wire.server c
    → IsBook st.book
    → (write wire.acquire w (write_entry wire.server c e) st).0 ≡ ok out
    → out.0.replayed ≡ false
    → let st' = serve_all wire calls (write wire.acquire w (write_entry wire.server c e) st).1 in
      let (r, st'') = write wire.acquire (unbroken w') (write_entry wire.server c e') st' in
      ((t : Uuid) × (stored : Entry) × (out.0.transaction ≡ wire.server.uuid_text t)
        × ((book_of st'.book).entries t ≡ some stored)
        × (r ≡ ok (replay_of wire.server c out.0.transaction, some stored)))
      × (st''.book ≡ st'.book)
retry_posts_once wire c e e' w w' st out calls k b h fresh =
    let pg = wire.server in
    let first = (write wire.acquire w (write_entry pg c e) st).1 in
    let (t, text, named, kept) = write-IsHeld pg c wire.acquire w e st out h in
    let row = key_row pg c (some t) in
    let held : IsNamed pg c.key row t refl first.book = record {
      key = named;
      posted = not_replay _ fresh kept;
    } in
    let later = serve_all-Carries wire _ _ (IsNamed-Carries pg c.key row t refl) calls first held in
    let sound = serve_all-IsBook wire calls first (write_entry-IsBook pg wire.acquire w c e st b) in
    let st' = serve_all wire calls first in
    let (found, there) = is_there _ later.posted in
    let (r, same) =
      write-replays pg c wire.acquire w' e' t found st' k sound.quiet later.key there in
    let answer : String → Result Outcome =
      λ id. ok (replay_of pg c id, some (stored_entry st'.book found)) in
    (
      (
        t,
        stored_entry st'.book found,
        text,
        stored_entry-entries t found st'.book there,
        r ∙ ap answer (sym text),
      ),
      same,
    )
