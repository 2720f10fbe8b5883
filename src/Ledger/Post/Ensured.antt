-- ===== src/Ledger/Post/Ensured.antt =====
-- What a Post that succeeds has made so, from what each of its statements makes so: a condition on
-- the tables before it, and one on them once a transaction is there with some of the legs.
use pacioli.Prelude.{
  ℕ, ◌+◌, ◌≡◌, refl, sym, subst, ◌∙◌, Bool, append-nil, append_assoc, List, [], ◌∷◌, ◌++◌, String,
}
use pacioli.Failure.{Failure}
use pacioli.Schema.Server.{Server, Uuid}
use pacioli.Schema.Tables.{Database, Constraint, Answer, done, refused}
use pacioli.Schema.Statements.{insert_transaction, set_constraints}
use pacioli.Schema.Balance.Firing.{Yields}
use pacioli.Session.{rollback_to, write}
use pacioli.Session.Ensures.{
  Ensures, Fails, Ensures-write, Ensures-bind, Ensures-pure, Ensures-rescue, Ensures-or_error,
  Ensures-exec, Ensures-savepoint, Ensures-release, Fails-raise, Fails-bind,
}
use pacioli.Ledger.Entry.{Leg, Entry}
use pacioli.Ledger.Post.{
  post_entry, post, insert_entry, insert_leg, insert_legs, joined, explain, post_savepoint,
  undo_post, with_id, stored_time,
}

pub record IsPosting (pg : Server) (e : Entry) (P : Database → Type 0)
    (S : String → List Leg → Database → Type 0) : Type 0 where
  pub before :
      (cs : List Constraint) (b : Bool) (d : Database) → P d → Yields P (set_constraints cs b d)
  pub opens :
      (u : Uuid) (now : ℕ) (d : Database)
      → P d
      → Yields
          (S (pg.uuid_text u) [])
          (insert_transaction pg u e.currency e.description (stored_time pg e.occurred_at now) d)
  pub leg :
      (id : String) (legs : List Leg) (l : Leg) (u : Uuid) (d : Database)
      → S id legs d
      → Yields (S id (legs ++ l ∷ [])) (insert_leg pg id l u d)
  pub after :
      (id : String) (legs : List Leg) (cs : List Constraint) (b : Bool) (d : Database)
      → S id legs d
      → Yields (S id legs) (set_constraints cs b d)

pub Ensures-Yields :
    (P Q : Database → Type 0) (body : Uuid → Database → Answer Database)
    → ((u : Uuid) (d : Database) → P d → Yields Q (body u d))
    → Ensures P (write body) (λ u d. Q d)
Ensures-Yields P Q body k = Ensures-write Q body λ u d d' p h. (k u d p).at d' h

undo_post-Fails : (e : Failure) → Fails (undo_post e)
unfolding undo_post
undo_post-Fails e =
    Fails-bind (joined e (rollback_to post_savepoint)) _
      λ u. Fails-bind (explain e) _ λ e'. Fails-raise e'

with_id-done :
    (pg : Server) (u : Uuid) (a : Answer Database) (id : String) (d' : Database)
    → with_id pg u a ≡ done (id, d')
    → (a ≡ done d') × (pg.uuid_text u ≡ id)
with_id-done pg u (done d) id d' h = (cc, cc)
with_id-done pg u (refused e) id d' h = cc

module _ (pg : Server) (e : Entry) (P : Database → Type 0)
    (S : String → List Leg → Database → Type 0) (k : IsPosting pg e P S) where
  insert_entry-Ensures : Ensures P (insert_entry pg e) (λ id d. S id [] d)
  unfolding insert_entry
  insert_entry-Ensures = record {
    at = λ s.
        (Ensures-exec {P = P} {R = λ id d. S id [] d} _ λ u d p id d' h.
            let (taken, text) = with_id-done pg u _ id d' h in
            subst (λ x. S x [] d') text ((k.opens u s.now d p).at d' taken)).at
          s;
  }

  insert_legs-Ensures :
      (id : String) (i : ℕ) (before rest all : List Leg)
      → before ++ rest ≡ all
      → Ensures (S id before) (insert_legs pg e id i rest) (λ u d. S id all d)
  unfolding insert_legs
  insert_legs-Ensures id i before [] all h =
      Ensures-pure tt λ d p. subst (λ l. S id l d) (sym (append-nil before) ∙ h) p
  insert_legs-Ensures id i before (l ∷ rest) all h =
      Ensures-bind (λ u d. S id (before ++ l ∷ []) d) _ _
        (Ensures-or_error _ _ (Ensures-Yields _ _ _ λ u d p. k.leg id before l u d p))
        λ u.
          insert_legs-Ensures id (i + 1) (before ++ l ∷ []) rest all
            (append_assoc before (l ∷ []) rest ∙ h)

  set-Ensures :
      (id : String) (cs : List Constraint) (b : Bool)
      → Ensures (S id e.legs) (write λ u. set_constraints cs b) (λ u d. S id e.legs d)
  set-Ensures id cs b = Ensures-Yields _ _ _ λ u d p. k.after id e.legs cs b d p

  post-Ensures : Ensures P (post pg e) (λ id d. S id e.legs d)
  unfolding post
  post-Ensures =
      Ensures-bind (λ u d. P d) _ _
        (Ensures-or_error _ _ (Ensures-Yields _ _ _ λ u d p. k.before _ _ d p))
        λ u.
          Ensures-bind (λ id d. S id [] d) _ _ (Ensures-or_error _ _ insert_entry-Ensures)
            λ id.
              Ensures-bind (λ v d. S id e.legs d) _ _
                (insert_legs-Ensures id 0 [] e.legs e.legs refl)
                λ v.
                  Ensures-bind (λ w d. S id e.legs d) _ _
                    (Ensures-or_error _ _ (set-Ensures id _ _))
                    λ w.
                      Ensures-bind (λ x d. S id e.legs d) _ _
                        (Ensures-or_error _ _ (set-Ensures id _ _)) λ x. Ensures-pure id λ d p. p

  pub post_entry-Ensures : Ensures P (post_entry pg e) (λ id d. S id e.legs d)
  unfolding post_entry
  post_entry-Ensures =
      Ensures-bind (λ u d. P d) _ _ (Ensures-or_error _ _ (Ensures-savepoint _))
        λ u.
          Ensures-bind (λ id d. S id e.legs d) _ _ (Ensures-rescue _ _ post-Ensures undo_post-Fails)
            λ id.
              Ensures-bind (λ v d. S id e.legs d) _ _ (Ensures-or_error _ _ (Ensures-release _))
                λ v. Ensures-pure id λ d p. p
