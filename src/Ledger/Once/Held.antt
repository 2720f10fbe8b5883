-- ===== src/Ledger/Once/Held.antt =====
-- What a write under a key leaves in the tables: the key, held for the request and naming the
-- transaction of the answer.
use pacioli.Prelude.{
  ℕ, ◌≡◌, refl, sym, ◌∙◌, ap, Bool, true, false, not, Option, none, some, List, [], ◌∷◌, String,
  str_eq, eq_iff, ==_iff, ◌==◌, some-eq, Bool-cases, ◌⊎◌, inl, inr, if◌then◌else◌,
}
use pacioli.Failure.{sqlstate, Failure, Sentinel, Result, ok, err}
use pacioli.Schema.Server.{Server, Uuid}
use pacioli.Schema.Tables.{Database, KeyRow, Constraint, key_by_key, transaction_by_id}
use pacioli.Schema.Statements.{set_constraints, some_row}
use pacioli.Session.{savepoint, or_error, wrapped, raise, write}
use pacioli.Session.Ensures.{
  Ensures, Ensures-query, Ensures-scan, Ensures-any, Ensures-returned, Fails, IfOk, Ensures-write,
  Ensures-bind, Ensures-pure, Ensures-raise, Ensures-rescue, Ensures-or_error, Ensures-attempt,
  Ensures-release, Fails-raise, Fails-bind,
}
use pacioli.Ledger.Entry.{Entry}
use pacioli.Ledger.Post.{post_entry}
use pacioli.Ledger.Once.{
  once_savepoint, set_settled_constraint, joined_to, bad_key, equal, rollback_to_once,
  replayed_record, Claim, Record, once, reserve, reserved, undone, release_once, not_reserved,
  replay, replay_and_release,
}
use pacioli.Ledger.Once.Reserved.{
  key_row, NamesTransaction, IsReserved, set_constraints-NamesTransaction, insert_key-IsReserved,
}
use pacioli.Ledger.Post.Ensured.{Ensures-Yields}
use pacioli.Ledger.Once.Working.{Posted, post_entry-Posted, record_result-Ensures}

key_by_key-key :
    (k : String) (rs : List KeyRow) (row : KeyRow) → key_by_key k rs ≡ some row → row.key ≡ k
unfolding key_by_key
key_by_key-key k [] row h = cc
key_by_key-key k (r ∷ rs) row h = elim (Bool-cases (str_eq r.key k)) [
  | inl e ↦ ap (λ x. x.key) (sym (some-eq (rw e at h))) ∙ (eq_iff r.key k).0 e
  | inr e ↦ key_by_key-key k rs row (rw e at h)
]

equal_eq : (xs ys : List ℕ) → equal xs ys ≡ true → xs ≡ ys
unfolding equal
equal_eq [] [] h = refl
equal_eq [] (y ∷ ys) h = cc
equal_eq (x ∷ xs) [] h = cc
equal_eq (x ∷ xs) (y ∷ ys) h = elim (Bool-cases (x == y)) [
  | inl e ↦ let head = (==_iff x y).0 e in let tail = equal_eq xs ys (rw e at h) in cc
  | inr e ↦ cc (rw e at h)
]

module _ (pg : Server) (c : Claim) where
  pub undone-Fails : {A : Type 0} (e e' : Failure) → Fails {A = A} (undone pg e (raise e'))
  unfolding undone
  undone-Fails e e' = Fails-bind (or_error rollback_to_once (Failure.join e)) _ λ u. Fails-raise e'

  -- How a write under a key can succeed: with the key held for this request and naming the
  -- transaction of the answer, one that the tables hold where the write was not a replay.
  abbrev pub IsSettled : Record → Database → Type 0
  IsSettled rec d =
      (t : Uuid) × (rec.transaction ≡ pg.uuid_text t)
      × (key_by_key c.key d.idempotency_keys ≡ some (key_row pg c (some t)))
      × ((rec.replayed ≡ true) ⊎ (some_row (transaction_by_id t d.transactions) ≡ true))

  module _ (e : Entry) where
    set-NamesTransaction :
        (id : String) (cs : List Constraint) (b : Bool)
        → Ensures
            (NamesTransaction pg c id)
            (write λ u. set_constraints cs b)
            (λ u d. NamesTransaction pg c id d)
    set-NamesTransaction id cs b =
        Ensures-Yields _ _ _ λ u d p. set_constraints-NamesTransaction pg c id cs b d p

    reserved-Ensures : Ensures (IsReserved pg c) (reserved pg c (post_entry pg e)) IsSettled
    unfolding reserved release_once
    reserved-Ensures =
        Ensures-bind (Posted pg c) _ _
          (Ensures-rescue _ _ (post_entry-Posted pg c e) λ x. undone-Fails x _)
          λ id.
            Ensures-bind (λ u d. NamesTransaction pg c id d) _ _
              (Ensures-rescue _ _ (record_result-Ensures pg c id) λ x. undone-Fails x _)
              λ u.
                Ensures-bind (λ v d. NamesTransaction pg c id d) _ _
                  (Ensures-rescue _ _ (set-NamesTransaction id _ _) λ x. undone-Fails x _)
                  λ v.
                    Ensures-bind (λ w d. NamesTransaction pg c id d) _ _
                      (Ensures-or_error _ _ (set-NamesTransaction id _ _))
                      λ w.
                        Ensures-bind (λ x d. NamesTransaction pg c id d) _ _
                          (Ensures-or_error _ _ (Ensures-release _))
                          λ x. Ensures-pure _ λ d (t, text, key, row). (t, text, key, inr row)

  IsHeld : KeyRow → Database → Type 0
  IsHeld row d = key_by_key c.key d.idempotency_keys ≡ some row

  key_row_eq :
      (row : KeyRow) (o : Option Uuid)
      → row.key ≡ c.key
      → row.request_hash ≡ c.request_hash
      → row.transaction_id ≡ o
      → row ≡ key_row pg c o
  key_row_eq row o k h t = λ i. record { key = k i; request_hash = h i; transaction_id = t i }

  named-Ensures :
      (row : KeyRow)
      → row.request_hash ≡ c.request_hash
      → (o : Option Uuid) → row.transaction_id ≡ o
      → Ensures (IsHeld row) (replayed_record pg c row o) IsSettled
  unfolding IsHeld
  named-Ensures row same none e = Ensures-raise _
  named-Ensures row same (some t) e = Ensures-pure _ λ d p.
      let own = key_by_key-key c.key d.idempotency_keys row p in
      (t, refl, p ∙ ap some (key_row_eq row (some t) own same e), inl refl)

  replayed-Ensures :
      (row : KeyRow) (b : Bool)
      → equal row.request_hash c.request_hash ≡ b
      → Ensures
          (IsHeld row)
          (if not b
            then raise (Failure.sentinel Sentinel.key_reused)
            else replayed_record pg c row row.transaction_id)
          IsSettled
  replayed-Ensures row false e = Ensures-raise _
  replayed-Ensures row true e = named-Ensures row (equal_eq _ _ e) row.transaction_id refl

  replay-Ensures : Ensures (λ d. Unit {0}) (replay pg c) IsSettled
  unfolding replay IsHeld
  replay-Ensures =
      Ensures-bind IsHeld _ _
        (Ensures-rescue _ _
          (Ensures-bind (λ o d. key_by_key c.key d.idempotency_keys ≡ o) _ _
            (Ensures-query _ λ d p a h. cc h) λ o. Ensures-scan o λ d p a h. p ∙ h)
          λ e. Fails-raise _)
        λ row. replayed-Ensures row _ refl

  not_reserved-Ensures : (e : Failure) → Ensures (λ d. Unit {0}) (not_reserved pg c e) IsSettled
  unfolding not_reserved undone replay_and_release release_once
  not_reserved-Ensures e =
      Ensures-bind (λ u d. Unit {0}) (or_error rollback_to_once (Failure.join e)) _ (Ensures-any _)
        λ u. refused_as (str_eq (sqlstate e) "23505")
    where
      refused_as :
          (b : Bool)
          → Ensures
              (λ d. Unit {0})
              (if b then replay_and_release pg c else raise (bad_key e))
              IsSettled
      refused_as false = Ensures-raise _
      refused_as true = Ensures-bind (IfOk IsSettled) _ _ (Ensures-attempt _ replay-Ensures) λ r.
          Ensures-bind (λ u. IfOk IsSettled r) _ _
            (Ensures-or_error _ (joined_to pg r) (
              Ensures-or_error _ (Failure.wrap "release savepoint")
                (Ensures-release once_savepoint)))
            λ u. Ensures-returned r

  reserve-Ensures : Ensures (λ d. Unit {0}) (reserve pg c) (λ u d. IsReserved pg c d)
  unfolding reserve
  reserve-Ensures = Ensures-write _ _ λ u d d' p h. insert_key-IsReserved pg c d d' h

  -- A write under a key that succeeds has left the key held for this request and naming the
  -- transaction of its answer.
  pub once-Ensures : (e : Entry) → Ensures (λ d. Unit {0}) (once pg c (post_entry pg e)) IsSettled
  unfolding once
  once-Ensures e =
      Ensures-bind (λ u d. Unit {0}) (wrapped "savepoint" (savepoint once_savepoint)) _
        (Ensures-any _)
        λ u.
          Ensures-bind (λ v d. Unit {0})
            (wrapped "defer the settled check" (set_settled_constraint true)) _ (Ensures-any _)
            λ v.
              Ensures-bind (IfOk λ w d. IsReserved pg c d) _ _ (Ensures-attempt _ reserve-Ensures)
                λ r. tried r
    where
      tried :
          (r : Result (Unit {0}))
          → Ensures
              (IfOk (λ w d. IsReserved pg c d) r)
              (elim r [ ok u ↦ reserved pg c (post_entry pg e) | err x ↦ not_reserved pg c x ])
              IsSettled
      tried (ok u) = reserved-Ensures e
      tried (err x) = not_reserved-Ensures x
