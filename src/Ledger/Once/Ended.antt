-- ===== src/Ledger/Once/Ended.antt =====
-- How a write under a key ends where it succeeds: as a replay, which answers with the transaction
-- that the key named and leaves the tables as they were, or with the post done and the key naming it.
use pacioli.Prelude.{
  ◌≡◌, ◌⊎◌, refl, sym, ◌∙◌, ap, inl, inr, Bool, true, false, not, Option, none, some, str_eq,
  Bool-cases, if◌then◌else◌,
}
use pacioli.Failure.{Failure, Sentinel, Result, ok, err, sqlstate}
use pacioli.Schema.Server.{Server, Uuid}
use pacioli.Schema.Tables.{Database, KeyRow, key_by_key}
use pacioli.Schema.Balance.Firing.{done-injective}
use pacioli.Session.{Session, Tx, raise, release}
use pacioli.Session.Keeps.{Throughout, Keeps-savepoint, Keeps-write, Keeps-rollback_to}
use pacioli.Session.Splits.{Split, write-Split, EnsuresFrom, EnsuresFrom-bind}
use pacioli.Session.Ensures.{
  Ensures, IfOk, Ensures-bind, Ensures-pure, Ensures-raise, Ensures-rescue, Ensures-query,
  Ensures-scan, Ensures-or_error, Ensures-attempt, Ensures-release, Ensures-returned, Fails-raise,
}
use pacioli.Ledger.Entry.{Entry}
use pacioli.Ledger.Post.{post_entry}
use pacioli.Ledger.Post.Effect.{IsSame, set-IsSame}
use pacioli.Ledger.Stable.{Keeps-or_error}
use pacioli.Ledger.Once.{
  Claim, Record, once, reserve, replay, replayed_record, reserved, not_reserved, replay_and_release,
  bad_key, release_once, once_savepoint, joined_to, equal, rollback_to_once, undone,
}
use pacioli.Ledger.Once.Effect.{Held, Claimed, insert_key-Held, reserved-Claimed}

module _ (pg : Server) (c : Claim) (e : Entry) (before : Database) where
  -- The key was held for this request, and named the transaction that the record names.
  abbrev pub WasHeld : Record → Type 0
  WasHeld rec =
      (row : KeyRow) × (t : Uuid) × (key_by_key c.key before.idempotency_keys ≡ some row)
      × (equal row.request_hash c.request_hash ≡ true)
      × (row.transaction_id ≡ some t)
      × (rec.transaction ≡ pg.uuid_text t)

  abbrev pub Replayed : Record → Database → Type 0
  Replayed rec d = (rec.replayed ≡ true) × WasHeld rec × IsSame pg e before d

  -- The key is looked up in the tables as they were.
  abbrev Looked : Option KeyRow → Database → Type 0
  Looked o d = IsSame pg e before d × (key_by_key c.key before.idempotency_keys ≡ o)

  named-Replayed :
      (row : KeyRow) (o : Option Uuid)
      → row.transaction_id ≡ o
      → equal row.request_hash c.request_hash ≡ true
      → Ensures (Looked (some row)) (replayed_record pg c row o) Replayed
  named-Replayed row none h same = Ensures-raise _
  named-Replayed row (some t) h same =
      Ensures-pure _ λ d (p, k). (refl, (row, t, k, same, h, refl), p)

  found-Replayed :
      (row : KeyRow) (b : Bool)
      → equal row.request_hash c.request_hash ≡ b
      → Ensures
          (Looked (some row))
          (if not b
            then raise (Failure.sentinel Sentinel.key_reused)
            else replayed_record pg c row row.transaction_id)
          Replayed
  found-Replayed row true h = named-Replayed row row.transaction_id refl h
  found-Replayed row false h = Ensures-raise _

  replay-Replayed : Ensures (IsSame pg e before) (replay pg c) Replayed
  unfolding replay
  replay-Replayed =
      Ensures-bind (λ row d. Looked (some row) d) _ _
        (Ensures-rescue _ _
          (Ensures-bind (λ o d. Looked o d) _ _
            (Ensures-query _ λ d p o h. (p, ap (key_by_key c.key) (sym p.keys) ∙ done-injective h))
            λ o. Ensures-scan o λ d (p, k) row h. (p, k ∙ h))
          λ x. Fails-raise _)
        λ row. found-Replayed row (equal row.request_hash c.request_hash) refl

  replay_and_release-Replayed : Ensures (IsSame pg e before) (replay_and_release pg c) Replayed
  unfolding replay_and_release release_once
  replay_and_release-Replayed =
      Ensures-bind (IfOk Replayed) _ _ (Ensures-attempt _ replay-Replayed) λ r.
        Ensures-bind (λ u d. IfOk Replayed r d) _ _
          (Ensures-or_error release_once (joined_to pg r)
            (Ensures-or_error (release once_savepoint) _ (Ensures-release once_savepoint)))
          λ u. Ensures-returned r

  again :
      (x : Failure)
      → Ensures
          (IsSame pg e before)
          (if str_eq (sqlstate x) "23505" then replay_and_release pg c else raise (bad_key x))
          Replayed
  again x = elim (Bool-cases (str_eq (sqlstate x) "23505")) [
    | inl h ↦ rw h replay_and_release-Replayed
    | inr h ↦ rw h (Ensures-raise _)
  ]

  abbrev AsBefore : Session → Type 0
  AsBefore = Throughout (IsSame pg e before)

  not_reserved-Replayed : (x : Failure) → EnsuresFrom AsBefore (not_reserved pg c x) Replayed
  unfolding not_reserved undone rollback_to_once
  not_reserved-Replayed x =
      EnsuresFrom-bind _ _ _ _ (Keeps-or_error _ _ (Keeps-or_error _ _ (Keeps-rollback_to _ _)))
        λ u. record { at = λ s t. (again x).at s t.live }

  -- The post is there, and the key names it.
  abbrev pub Posted : Record → Database → Type 0
  Posted rec d = (rec.replayed ≡ false) × Claimed pg c e before rec.transaction d

  abbrev pub Ended : Record → Database → Type 0
  Ended rec d = Replayed rec d ⊎ Posted rec d

  either :
      {A B : Record → Database → Type 0} (f : (x : Record) (d : Database) → A x d → B x d)
      (r : Result Record) (s : Session)
      → IfOk A r s.live
      → IfOk B r s.live
  either f (ok a) s h = f a s.live h
  either f (err x) s h = tt

  chosen :
      (r : Result (Unit {0})) (s : Session)
      → Split (IsSame pg e before) (Held pg c e before) r s
      → IfOk Ended
          ((elim r as (λ x. Tx Record) [
            | ok u ↦ reserved pg c (post_entry pg e)
            | err x ↦ not_reserved pg c x
          ])
            s).0
          ((elim r as (λ x. Tx Record) [
            | ok u ↦ reserved pg c (post_entry pg e)
            | err x ↦ not_reserved pg c x
          ])
            s).1.live
  chosen (ok u) s (free, p) =
      either {A = Posted} {B = Ended} (λ x d h. inr h) _ (reserved pg c (post_entry pg e) s).1
        ((reserved-Claimed pg c e before free).at s p)
  chosen (err x) s t =
      either {A = Replayed} {B = Ended} (λ x d h. inl h) _ (not_reserved pg c x s).1
        ((not_reserved-Replayed x).at s t)

  pub once-Ended : EnsuresFrom AsBefore (once pg c (post_entry pg e)) Ended
  unfolding once reserve
  once-Ended = EnsuresFrom-bind _ _ _ _ (Keeps-or_error _ _ (Keeps-savepoint _ _)) λ u.
      EnsuresFrom-bind _ _ _ _
        (Keeps-or_error _ _ (Keeps-write _ _ λ u d p. set-IsSame pg e before _ _ d p))
        λ v. record {
          at = λ s t. chosen _ _ (
              write-Split (IsSame pg e before) (Held pg c e before) _
                (λ u d d' p h. insert_key-Held pg c e before d d' p h) s t);
        }
