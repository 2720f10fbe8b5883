-- ===== src/Ledger/Once/Replay.antt =====
-- A key that is already held: what Once answers, and that the work is not done.
use pacioli.Prelude.{ℕ, ◌+◌, ◌≡◌, ◌∙◌, ap, true, false, some, List, ◌∷◌, String, length, ◌==◌}
use pacioli.Failure.{Failure, DriverError, Sentinel, ok, err}
use pacioli.Schema.Server.{Server, Uuid, codes, matches_key}
use pacioli.Schema.Tables.{Database, KeyRow, done, refused, violates, key_by_key}
use pacioli.Schema.Statements.{insert_key, set_constraints}
use pacioli.Schema.Balance.Covered.{settle-Fired}
use pacioli.Session.{Tx, usable, query, exec, savepoint, rollback_to, release}
use pacioli.Session.Usable.{write-done, write-refused}
use pacioli.Ledger.Once.{
  Claim, once, reserve, replay, not_reserved, replay_and_release, undone, rollback_to_once,
  release_once, equal, settled_constraint, once_savepoint,
}

-- A claim that the schema would hold.
pub record IsClaim (pg : Server) (c : Claim) : Type 0 where
  pub key : matches_key pg (codes c.key) ≡ true
  pub hash : (length c.request_hash == 32) ≡ true

duplicate_key :
    (pg : Server) (c : Claim) (row : KeyRow) (d : Database)
    → IsClaim pg c
    → key_by_key c.key d.idempotency_keys ≡ some row
    → insert_key pg c.key c.request_hash d
      ≡ refused (violates "23505" "idempotency_keys_pkey" "idempotency_keys")
unfolding insert_key
duplicate_key pg c row d h e = rw (h.key, h.hash, e)

-- SET CONSTRAINTS holds no key and frees none.
set-key :
    (k : String) (d d' : Database)
    → set_constraints settled_constraint true d ≡ done d'
    → key_by_key k d'.idempotency_keys ≡ key_by_key k d.idempotency_keys
unfolding set_constraints
set-key k d d' h = ap (key_by_key k) (settle-Fired _ d' h).same.idempotency_keys

-- On a session that takes statements, over a connection that is not cut, where SET CONSTRAINTS is
-- taken, under whatever modes, and the claim has a key and a hash of the shapes that the schema takes:
-- a key that is held for the same request answers with the transaction that it names, and the work is
-- never run; whatever it is, the tables are as they were, and so are the savepoints.
pub once_replays :
    (pg : Server) (c : Claim) (work : Tx String) (t : Uuid) (hash : List ℕ) (d d' : Database)
    (stack : List (String × Database)) (n : ℕ) (fault : DriverError) (now : ℕ)
    → IsClaim pg c
    → set_constraints settled_constraint true d ≡ done d'
    → key_by_key c.key d.idempotency_keys
      ≡ some (record { key = c.key; request_hash = hash; transaction_id = some t })
    → equal hash c.request_hash ≡ true
    → once pg c work (usable d stack n fault now) ≡ (
      ok (record { key = c.key; transaction = pg.uuid_text t; replayed = true }),
      usable d stack (n + 1 + 1 + 1) fault now,
    )
unfolding once savepoint reserve replay not_reserved replay_and_release undone rollback_to_once
    release_once rollback_to release query exec
once_replays pg c work t hash d d' stack n fault now h m e same =
    let inner = (once_savepoint, d) ∷ stack in
    rw (write-done inner n fault now (λ u. set_constraints settled_constraint true) d d' m) (
      rw
        (write-refused inner (n + 1) fault now (λ u. insert_key pg c.key c.request_hash) d' _
          (duplicate_key pg c _ d' h (set-key c.key d d' m ∙ e)))
        (rw (e, same)))

-- On a session that takes statements, over a connection that is not cut, where SET CONSTRAINTS is
-- taken, under whatever modes, and the claim has a key and a hash of the shapes that the schema takes:
-- a key that is held for a different request is refused as reused, the work is never run, and the
-- tables and the savepoints are as they were.
pub once_reused :
    (pg : Server) (c : Claim) (work : Tx String) (row : KeyRow) (d d' : Database)
    (stack : List (String × Database)) (n : ℕ) (fault : DriverError) (now : ℕ)
    → IsClaim pg c
    → set_constraints settled_constraint true d ≡ done d'
    → key_by_key c.key d.idempotency_keys ≡ some row
    → equal row.request_hash c.request_hash ≡ false
    → once pg c work (usable d stack n fault now)
      ≡ (err (Failure.sentinel Sentinel.key_reused), usable d stack (n + 1 + 1 + 1) fault now)
unfolding once savepoint reserve replay not_reserved replay_and_release undone rollback_to_once
    release_once rollback_to release query exec
once_reused pg c work row d d' stack n fault now h m e other =
    let inner = (once_savepoint, d) ∷ stack in
    rw (write-done inner n fault now (λ u. set_constraints settled_constraint true) d d' m) (
      rw
        (write-refused inner (n + 1) fault now (λ u. insert_key pg c.key c.request_hash) d' _
          (duplicate_key pg c _ d' h (set-key c.key d d' m ∙ e)))
        (rw (e, other)))
