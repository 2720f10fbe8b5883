-- ===== src/Ledger/Once/Effect.antt =====
-- What a write under a key that succeeds writes, row by row: nothing where it is a replay, and
-- otherwise the post and the key that names it.
use pacioli.Prelude.{
  ℕ, ◌≡◌, refl, sym, ◌∙◌, ap, subst, Bool, false, Option, none, some, List, [], ◌∷◌, ◌++◌, String,
  some-eq,
}
use pacioli.Schema.Server.{Server, Uuid}
use pacioli.Schema.Tables.{Database, Constraint, Answer, done, refused, raised, key_by_key}
use pacioli.Schema.Triggers.{settle}
use pacioli.Schema.Statements.{
  insert_key, settle_key, settle_rows, set_constraints, some_row, set_modes,
}
use pacioli.Schema.Balance.Firing.{Yields, Yields-refused, >>-done}
use pacioli.Schema.Balance.Covered.{settle-Fired}
use pacioli.Session.{write}
use pacioli.Session.Ensures.{
  Ensures, Ensures-beside, Ensures-bind, Ensures-pure, Ensures-rescue, Ensures-or_error,
  Ensures-release,
}
use pacioli.Ledger.Entry.{Entry}
use pacioli.Ledger.Post.{post_entry}
use pacioli.Ledger.Post.Ensured.{Ensures-Yields, post_entry-Ensures}
use pacioli.Ledger.Post.Effect.{IsSame, IsEffect, Wrote, Wrote-IsPosting, settle-IsSame}
use pacioli.Ledger.Once.{Claim, reserved, record_result, release_once}
use pacioli.Ledger.Once.Reserved.{allowed, key_row, key_by_key-new}
use pacioli.Ledger.Once.Held.{undone-Fails}

module _ (pg : Server) (c : Claim) (e : Entry) (before : Database) where
  -- The tables before, with the key held.
  abbrev pub with_key : Database
  with_key = record before { idempotency_keys = before.idempotency_keys ++ key_row pg c none ∷ [] }

  abbrev pub IsFree : Type 0
  IsFree = some_row (key_by_key c.key before.idempotency_keys) ≡ false

  abbrev pub Held : Database → Type 0
  Held d = IsFree × IsSame pg e with_key d

  pub insert_key-Held :
      (d d' : Database)
      → IsSame pg e before d
      → insert_key pg c.key c.request_hash d ≡ done d'
      → Held d'
  unfolding insert_key
  insert_key-Held d d' p h =
      let r = (>>-done _ _ (>>-done _ _ (>>-done _ _ h).1).1) in
      let free : IsFree =
        ap (λ ks. some_row (key_by_key c.key ks)) (sym p.keys) ∙ allowed _ _ r.0 in
      let start : IsSame pg e with_key _ = record {
        transactions = p.transactions;
        postings = p.postings;
        accounts = p.accounts;
        keys = ap (λ ks. ks ++ key_row pg c none ∷ []) p.keys;
      } in
      (free, (settle-IsSame pg e with_key _ start).at d' r.1)

  -- The post is there, and the key names it.
  pub record IsClaimed (t : Uuid) (now : ℕ) (d : Database) : Type 0 where
    pub free : IsFree
    pub entry :
        IsEffect pg e with_key t now e.legs
          (record d { idempotency_keys = with_key.idempotency_keys })
    pub keys : d.idempotency_keys ≡ settle_rows c.key t with_key.idempotency_keys

  abbrev pub Claimed : String → Database → Type 0
  Claimed id d = (t : Uuid) × (now : ℕ) × (id ≡ pg.uuid_text t) × IsClaimed t now d

  settle-IsClaimed :
      (t : Uuid) (now : ℕ) (d : Database) → IsClaimed t now d → Yields (IsClaimed t now) (settle d)
  settle-IsClaimed t now d p = record {
    at = λ d' h.
        let s = (settle-Fired d d' h).same in
        let q = p.entry in
        record {
          free = p.free;
          entry = record {
            named = q.named;
            fresh = q.fresh;
            transactions = s.transactions ∙ q.transactions;
            postings = s.postings ∙ q.postings;
            accounts = s.accounts ∙ q.accounts;
            keys = refl;
          };
          keys = s.idempotency_keys ∙ p.keys;
        };
  }

  set-Claimed :
      (id : String) (cs : List Constraint) (b : Bool)
      → Ensures (Claimed id) (write λ u. set_constraints cs b) (λ u d. Claimed id d)
  unfolding set_constraints
  set-Claimed id cs b = Ensures-Yields _ _ _ λ u d (t, now, text, p). record {
    at = λ d' h.
        let like : IsClaimed t now (record d { modes = set_modes cs b d.modes }) = record {
          free = p.free;
          entry = record {
            named = p.entry.named;
            fresh = p.entry.fresh;
            transactions = p.entry.transactions;
            postings = p.entry.postings;
            accounts = p.entry.accounts;
            keys = refl;
          };
          keys = p.keys;
        } in
        (t, now, text, (settle-IsClaimed t now _ like).at d' h);
  }

  abbrev WroteWithKey : String → Database → Type 0
  WroteWithKey id d = IsFree × Wrote pg e with_key id e.legs d

  settle_key-Claimed :
      (id : String) (t : Uuid) (now : ℕ) (d d' : Database)
      → id ≡ pg.uuid_text t
      → IsFree
      → IsEffect pg e with_key t now e.legs d
      → settle_key c.key t d ≡ done d'
      → Claimed id d'
  unfolding settle_key
  settle_key-Claimed id t now d d' text free p h =
      let found : key_by_key c.key d.idempotency_keys ≡ some (key_row pg c none) =
        ap (key_by_key c.key) p.keys
        ∙ key_by_key-new (key_row pg c none) before.idempotency_keys free in
      let r = >>-done _ _ (rw found at h) in
      let start : IsClaimed t now _ = record {
        free = free;
        entry = record {
          named = p.named;
          fresh = p.fresh;
          transactions = p.transactions;
          postings = p.postings;
          accounts = p.accounts;
          keys = refl;
        };
        keys = ap (settle_rows c.key t) p.keys;
      } in
      (t, now, text, (settle-IsClaimed t now _ start).at d' r.1)

  recorded :
      (id : String) (d : Database)
      → WroteWithKey id d
      → (o : Option Uuid) → pg.uuid_of id ≡ o
      → Yields (Claimed id) (elim o as (λ x. Answer Database) [
        | none ↦ refused (raised "22P02")
        | some t ↦ settle_key c.key t d
      ])
  recorded id d p none h = Yields-refused _
  recorded id d (free, (u, now, text, p)) (some t) h =
      let same : u ≡ t = some-eq (sym (pg.uuid_of-uuid_text u) ∙ ap pg.uuid_of text ∙ h) in
      record {
        at = λ d' k.
            settle_key-Claimed id t now d d' (sym text ∙ ap pg.uuid_text same) free
              (subst (λ x. IsEffect pg e with_key x now e.legs d) same p) k;
      }

  record_result-Claimed :
      (id : String) → Ensures (WroteWithKey id) (record_result pg c id) (λ u d. Claimed id d)
  unfolding record_result
  record_result-Claimed id = Ensures-Yields _ _ _ λ u d p. recorded id d p (pg.uuid_of id) refl

  post_entry-WroteWithKey : IsFree → Ensures (IsSame pg e with_key) (post_entry pg e) WroteWithKey
  post_entry-WroteWithKey free =
      Ensures-beside _ free (post_entry-Ensures pg e _ _ (Wrote-IsPosting pg e with_key))

  pub reserved-Claimed :
      IsFree
      → Ensures
          (IsSame pg e with_key)
          (reserved pg c (post_entry pg e))
          (λ rec d. (rec.replayed ≡ false) × Claimed rec.transaction d)
  unfolding reserved release_once
  reserved-Claimed free =
      Ensures-bind WroteWithKey _ _
        (Ensures-rescue _ _ (post_entry-WroteWithKey free) λ x. undone-Fails pg c x _)
        λ id.
          Ensures-bind (λ u d. Claimed id d) _ _
            (Ensures-rescue _ _ (record_result-Claimed id) λ x. undone-Fails pg c x _)
            λ u.
              Ensures-bind (λ v d. Claimed id d) _ _
                (Ensures-rescue _ _ (set-Claimed _ _ _) λ x. undone-Fails pg c x _)
                λ v.
                  Ensures-bind (λ w d. Claimed id d) _ _ (Ensures-or_error _ _ (set-Claimed _ _ _))
                    λ w.
                      Ensures-bind (λ x d. Claimed id d) _ _
                        (Ensures-or_error _ _ (Ensures-release _))
                        λ x. Ensures-pure _ λ d p. (refl, p)
