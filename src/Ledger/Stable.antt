-- ===== src/Ledger/Stable.antt =====
-- What the operations of internal/ledger keep: whatever property of the tables each of the
-- statements that they send keeps.
use pacioli.Prelude.{
  ℕ, ◌+◌, refl, Bool, true, false, Option, none, some, List, [], ◌∷◌, String, if◌then◌else◌, subst,
}
use pacioli.Prelude.Int.{ℤ}
use pacioli.Failure.{Failure, LegFault, PgError, Result, ok, err, as_leg, as_server}
use pacioli.Schema.Server.{Server, Uuid}
use pacioli.Schema.Tables.{Database, Constraint, Answer, done, refused, KeyRow}
use pacioli.Schema.Balance.Firing.{Yields, Yields-refused, done-injective}
use pacioli.Schema.Statements.{
  insert_account, insert_transaction, insert_posting, insert_key, settle_key, set_constraints,
}
use pacioli.Session.{Session, Tx, scan_row, query, write, attempt, returned, or_error}
use pacioli.Session.Keeps.{
  Throughout, Keeps, Keeps-pure, Keeps-raise, Keeps-rescue, Keeps-bind, Keeps-exec, Keeps-write,
  Keeps-savepoint, Keeps-rollback_to, Keeps-release,
}
use pacioli.Ledger.Entry.{Leg, Entry}
use pacioli.Ledger.Post.{
  post_entry, post, with_id, insert_entry, insert_legs, insert_leg, undo_post, explain, explain_leg,
  second_look, currency_of,
}
use pacioli.Ledger.Once.{
  Claim, once, replayed_record, reserve, replay, reserved, not_reserved, replay_and_release,
  record_result, undone, rollback_to_once, release_once,
}
use pacioli.Ledger.Open
use pacioli.Ledger.Open.{Account, open_account, opened, undo_open, insert_chart, holder_of}
use pacioli.Ledger.Read.{read_kinds, balance_of, entry_of}

-- The writes that the operations send keep the property.
pub record IsKept (pg : Server) (P : Database → Type 0) : Type 0 where
  pub accounts :
      (u : Uuid) (code name kind currency : String) (d : Database)
      → P d
      → Yields P (insert_account pg u code name kind currency d)
  pub transactions :
      (u : Uuid) (currency description : String) (at : ℕ) (d : Database)
      → P d
      → Yields P (insert_transaction pg u currency description at d)
  pub postings :
      (t : Uuid) (a : Option Uuid) (c : Option String) (amount : ℤ) (d : Database)
      → P d
      → Yields P (insert_posting t a c amount d)
  pub keys : (k : String) (hash : List ℕ) (d : Database) → P d → Yields P (insert_key pg k hash d)
  pub results : (k : String) (t : Uuid) (d : Database) → P d → Yields P (settle_key k t d)
  pub modes :
      (cs : List Constraint) (b : Bool) (d : Database) → P d → Yields P (set_constraints cs b d)

module _ {Q : Session → Type 0} where
  Keeps-attempt : {A : Type 0} (m : Tx A) → Keeps Q m → Keeps Q (attempt m)
  Keeps-attempt m k = record { at = λ s h. k.at s h }

  Keeps-returned : {A : Type 0} (r : Result A) → Keeps Q (returned r)
  Keeps-returned r = record { at = λ s h. h }

  pub Keeps-or_error :
      {A : Type 0} (m : Tx A) (f : Failure → Failure) → Keeps Q m → Keeps Q (or_error m f)
  Keeps-or_error m f k = Keeps-rescue m _ k λ e. Keeps-raise _

  Keeps-scan_row : {A : Type 0} (o : Option A) → Keeps Q (scan_row o)
  Keeps-scan_row none = Keeps-raise _
  Keeps-scan_row (some a) = Keeps-pure a

  Keeps-if :
      {A : Type 0} (b : Bool) (m n : Tx A) → Keeps Q m → Keeps Q n → Keeps Q (if b then m else n)
  Keeps-if true m n h k = h
  Keeps-if false m n h k = k

  Keeps-option :
      {A B : Type 0} (o : Option B) (m : Tx A) (f : B → Tx A)
      → Keeps Q m
      → ((b : B) → Keeps Q (f b))
      → Keeps Q (elim o [ none ↦ m | some b ↦ f b ])
  Keeps-option none m f h k = h
  Keeps-option (some b) m f h k = k b

  Keeps-result :
      {A B : Type 0} (r : Result B) (f : B → Tx A) (g : Failure → Tx A)
      → ((b : B) → Keeps Q (f b))
      → ((e : Failure) → Keeps Q (g e))
      → Keeps Q (elim r [ ok b ↦ f b | err e ↦ g e ])
  Keeps-result (ok b) f g h k = h b
  Keeps-result (err e) f g h k = k e

pub Yields-option :
    {A B : Type 0} {P : A → Type 0} (o : Option B) (m : Answer A) (f : B → Answer A)
    → Yields P m
    → ((b : B) → Yields P (f b))
    → Yields P (elim o [ none ↦ m | some b ↦ f b ])
Yields-option none m f h k = h
Yields-option (some b) m f h k = k b

module _ (P : Database → Type 0) where
  Keeps-query : {A : Type 0} (body : Database → Answer A) → Keeps (Throughout P) (query body)
  unfolding query
  Keeps-query body = Keeps-exec P _ λ u d p. read_only (body d) d p
    where
      read_only :
          {A : Type 0} (a : Answer A) (d : Database)
          → P d
          → Yields
              (λ (p : A × Database). P p.1)
              (elim a [ done x ↦ done (x, d) | refused e ↦ refused e ])
      read_only (done x) d p = record {
        at = λ q e. subst (λ (q : _ × Database). P q.1) (done-injective e) p;
      }
      read_only (refused e) d p = Yields-refused e

ruleset keeps_rules = (
  Keeps-pure, Keeps-raise, Keeps-rescue, Keeps-bind, Keeps-attempt, Keeps-returned, Keeps-scan_row,
  Keeps-if, Keeps-option, Keeps-result, Keeps-query, Keeps-write, Keeps-savepoint,
  Keeps-rollback_to, Keeps-release,
)

module _ (pg : Server) (P : Database → Type 0) where
  pub undone-Keeps :
      {A : Type 0} (e : Failure) (m : Tx A)
      → Keeps (Throughout P) m
      → Keeps (Throughout P) (undone pg e m)
  unfolding undone rollback_to_once
  undone-Keeps e m k =
      Keeps-bind _ _ (Keeps-or_error _ _ (Keeps-or_error _ _ (Keeps-rollback_to P _))) λ u. k

  replayed-Keeps :
      (c : Claim) (row : KeyRow) (o : Option Uuid)
      → Keeps (Throughout P) (replayed_record pg c row o)
  replayed-Keeps c row none = Keeps-raise _
  replayed-Keeps c row (some t) = Keeps-pure _

  replay-Keeps : (c : Claim) → Keeps (Throughout P) (replay pg c)
  unfolding replay
  replay-Keeps c = search (keeps_rules, replayed-Keeps) depth 12

  pub not_reserved-Keeps : (c : Claim) (e : Failure) → Keeps (Throughout P) (not_reserved pg c e)
  unfolding not_reserved replay_and_release release_once
  not_reserved-Keeps c e = search (keeps_rules, undone-Keeps, replay-Keeps) depth 16

module _ (pg : Server) (P : Database → Type 0) (kept : IsKept pg P) where
  with_id-Yields :
      (u : Uuid) (a : Answer Database)
      → Yields P a
      → Yields (λ (p : String × Database). P p.1) (with_id pg u a)
  with_id-Yields u (done d) y = record {
    at = λ q e. subst (λ (q : String × Database). P q.1) (done-injective e) (y.at d refl);
  }
  with_id-Yields u (refused e) y = Yields-refused e

  insert_entry-Keeps : (e : Entry) → Keeps (Throughout P) (insert_entry pg e)
  unfolding insert_entry
  insert_entry-Keeps e = record {
    at = λ s.
        (Keeps-exec P _
            λ u d p. with_id-Yields u _ (kept.transactions u e.currency e.description _ d p)).at
          s;
  }

  second_look-Keeps :
      (e : Failure) (leg : LegFault) (p : PgError) → Keeps (Throughout P) (second_look e leg p)
  unfolding second_look currency_of
  second_look-Keeps e leg p = search keeps_rules depth 12

  explain_leg-Keeps : (e : Failure) (o : Option LegFault) → Keeps (Throughout P) (explain_leg e o)
  unfolding explain_leg
  explain_leg-Keeps e none = Keeps-pure e
  explain_leg-Keeps e (some leg) =
      Keeps-if _ _ _ (Keeps-pure e)
        (Keeps-option (as_server e) _ _ (Keeps-pure e) (second_look-Keeps e leg))

  explain-Keeps : (e : Failure) → Keeps (Throughout P) (explain e)
  unfolding explain
  explain-Keeps e = explain_leg-Keeps e (as_leg e)

  insert_leg-Yields :
      (id : String) (leg : Leg) (u : Uuid) (d : Database)
      → P d
      → Yields P (insert_leg pg id leg u d)
  unfolding insert_leg
  insert_leg-Yields id leg u d p =
      Yields-option (pg.uuid_of id) _ _ (Yields-refused _)
        λ t. kept.postings t _ _ leg.amount_minor d p

  insert_legs-Keeps :
      (e : Entry) (id : String) (i : ℕ) (legs : List Leg)
      → Keeps (Throughout P) (insert_legs pg e id i legs)
  unfolding insert_legs
  insert_legs-Keeps e id i [] = Keeps-pure tt
  insert_legs-Keeps e id i (leg ∷ legs) =
      Keeps-bind _ _ (Keeps-or_error _ _ (Keeps-write P _ (insert_leg-Yields id leg)))
        λ u. insert_legs-Keeps e id (i + 1) legs

  undo_post-Keeps : (e : Failure) → Keeps (Throughout P) (undo_post e)
  unfolding undo_post
  undo_post-Keeps e = search (keeps_rules, explain-Keeps) depth 12

  pub post_entry-Keeps : (e : Entry) → Keeps (Throughout P) (post_entry pg e)
  unfolding post_entry post
  post_entry-Keeps e =
      search (keeps_rules, insert_entry-Keeps, insert_legs-Keeps, undo_post-Keeps, kept.modes) depth
        16

  set-Keeps :
      (cs : List Constraint) (b : Bool) → Keeps (Throughout P) (write λ u. set_constraints cs b)
  set-Keeps cs b = Keeps-write P _ λ u d p. kept.modes cs b d p

  record_result-Keeps : (c : Claim) (id : String) → Keeps (Throughout P) (record_result pg c id)
  unfolding record_result
  record_result-Keeps c id =
      Keeps-write P _
        λ u d p. Yields-option (pg.uuid_of id) _ _ (Yields-refused _) λ t. kept.results c.key t d p

  module _ (work : Tx String) (k : Keeps (Throughout P) work) where
    reserved-Keeps : (c : Claim) → Keeps (Throughout P) (reserved pg c work)
    unfolding reserved release_once
    reserved-Keeps c =
        Keeps-bind _ _ (Keeps-rescue _ _ k λ e. undone-Keeps pg P e _ (Keeps-raise e)) λ id.
          Keeps-bind _ _
            (Keeps-rescue _ _ (record_result-Keeps c id) λ e. undone-Keeps pg P e _ (Keeps-raise _))
            λ u.
              Keeps-bind _ _
                (Keeps-rescue _ _ (set-Keeps _ _) λ e. undone-Keeps pg P e _ (Keeps-raise _))
                λ v.
                  Keeps-bind _ _ (Keeps-or_error _ _ (set-Keeps _ _))
                    λ x. Keeps-bind _ _ (Keeps-or_error _ _ (Keeps-release P _)) λ y. Keeps-pure _

    pub once-Keeps : (c : Claim) → Keeps (Throughout P) (once pg c work)
    unfolding once reserve
    once-Keeps c = Keeps-bind _ _ (Keeps-or_error _ _ (Keeps-savepoint P _)) λ u.
        Keeps-bind _ _ (Keeps-or_error _ _ (set-Keeps _ _)) λ v.
          Keeps-bind _ _
            (Keeps-attempt _ (Keeps-write P _ λ u d p. kept.keys c.key c.request_hash d p))
            λ r. Keeps-result r _ _ (λ u. reserved-Keeps c) (not_reserved-Keeps pg P c)

  open_second_look-Keeps : (e : Failure) (a : Account) → Keeps (Throughout P) (Open.second_look e a)
  unfolding Open.second_look holder_of read_kinds
  open_second_look-Keeps e a = search keeps_rules depth 12

  undo_open-Keeps : (a : Account) (e : Failure) → Keeps (Throughout P) (undo_open a e)
  unfolding undo_open
  undo_open-Keeps a e = search (keeps_rules, open_second_look-Keeps) depth 12

  opened-Keeps : (a : Account) (r : Result (Unit {0})) → Keeps (Throughout P) (opened a r)
  opened-Keeps a (ok u) = search keeps_rules depth 12
  opened-Keeps a (err e) = undo_open-Keeps a e

  pub open_account-Keeps : (a : Account) → Keeps (Throughout P) (open_account pg a)
  unfolding open_account insert_chart
  open_account-Keeps a = search (keeps_rules, opened-Keeps, kept.accounts) depth 12

  pub balance_of-Keeps : (code : String) → Keeps (Throughout P) (balance_of code)
  unfolding balance_of
  balance_of-Keeps code = search keeps_rules depth 12

  pub entry_of-Keeps : (id : String) → Keeps (Throughout P) (entry_of pg id)
  unfolding entry_of
  entry_of-Keeps id = search keeps_rules depth 12
