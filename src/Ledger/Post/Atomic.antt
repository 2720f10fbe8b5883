-- ===== src/Ledger/Post/Atomic.antt =====
-- A refused Post leaves the session as it found it.
use pacioli.Prelude.{
  ℕ, ◌+◌, ◌≡◌, refl, false, Option, none, some, List, [], ◌∷◌, String, Bool-cases, inl, inr,
}
use pacioli.Failure.{
  Failure, Sentinel, PgError, LegFault, is, as_leg, as_server, DriverError, Result, ok, err,
}
use pacioli.Schema.Server.{Server}
use pacioli.Schema.Tables.{Database}
use pacioli.Session.{
  Session, Tx, pure, raise, ◌>>◌, wrapped, continue, handle, savepoint, rollback_to, release,
  usable,
}
use pacioli.Session.Honest.{
  Holds, exec-Holds, write-Holds, IsBack, query-IsBack, scan_row-IsBack, UsableIfOk, Honest,
  Honest-pure, Honest-bind, Honest-or_error, Honest-exec, write-Honest,
}
use pacioli.Session.Keeps.{Keeps, Keeps-pure, Keeps-raise, Keeps-rescue, Keeps-bind}
use pacioli.Ledger.Entry.{Leg, Entry}
use pacioli.Ledger.Post.{
  post, insert_leg, insert_legs, insert_entry, explain, explain_leg, second_look, currency_of,
  undo_post, post_entry, post_savepoint,
}

module _ (stack : List (String × Database)) where
  insert_entry-Holds : (pg : Server) (e : Entry) → Keeps (Holds stack) (insert_entry pg e)
  unfolding insert_entry
  insert_entry-Holds pg e = record { at = λ s h. (exec-Holds stack _).at s h }

  ruleset holds_rules =
      (Keeps-pure, Keeps-raise, Keeps-rescue, Keeps-bind, write-Holds, insert_entry-Holds)

  insert_legs-Holds :
      (pg : Server) (e : Entry) (id : String) (i : ℕ) (legs : List Leg)
      → Keeps (Holds stack) (insert_legs pg e id i legs)
  unfolding insert_legs
  insert_legs-Holds pg e id i [] = Keeps-pure tt
  insert_legs-Holds pg e id i (leg ∷ legs) =
      Keeps-bind _ _
        (Keeps-rescue _ _ (write-Holds stack (insert_leg pg id leg)) λ f. Keeps-raise _)
        λ _. insert_legs-Holds pg e id (i + 1) legs

  pub post-Holds : (pg : Server) (e : Entry) → Keeps (Holds stack) (post pg e)
  unfolding post
  post-Holds pg e = search (holds_rules, insert_legs-Holds) depth 12

module _ (d : Database) (stack : List (String × Database)) where
  explain-IsBack : (e : Failure) → Keeps (IsBack d stack) (explain e)
  unfolding explain currency_of
  explain-IsBack e = go (as_leg e)
    where
      looked :
          (l : LegFault) (o : Option PgError)
          → Keeps (IsBack d stack) (elim o [ none ↦ pure e | some p ↦ second_look e l p ])
      looked l none = Keeps-pure e
      looked l (some p) =
          Keeps-rescue _ _
            (Keeps-bind _ _
              (Keeps-bind _ _ (query-IsBack d stack _)
                λ o. Keeps-bind _ _ (scan_row-IsBack d stack o) λ a. Keeps-pure _)
              λ held. Keeps-pure _)
            λ _. Keeps-pure e

      go : (o : Option LegFault) → Keeps (IsBack d stack) (explain_leg e o)
      go none = Keeps-pure e
      go (some l) = elim (Bool-cases (is Sentinel.currency_mismatch e)) [
        | inl m ↦ rw m (looked l (as_server e))
        | inr m ↦ rw m (Keeps-pure e)
      ]

insert_entry-Honest : (pg : Server) (e : Entry) → Honest (insert_entry pg e)
unfolding insert_entry
insert_entry-Honest pg e = record { at = λ s h. (Honest-exec _).at s h }

insert_legs-Honest :
    (pg : Server) (e : Entry) (id : String) (i : ℕ) (legs : List Leg)
    → Honest (insert_legs pg e id i legs)
unfolding insert_legs
insert_legs-Honest pg e id i [] = Honest-pure tt
insert_legs-Honest pg e id i (leg ∷ legs) =
    Honest-bind _ _ (Honest-or_error _ _ (write-Honest _))
      λ _. insert_legs-Honest pg e id (i + 1) legs

pub post-Honest : (pg : Server) (e : Entry) → Honest (post pg e)
unfolding post
post-Honest pg e = Honest-bind _ _ (Honest-or_error _ _ (write-Honest _)) λ _.
    Honest-bind _ _ (Honest-or_error _ _ (insert_entry-Honest pg e)) λ id.
      Honest-bind _ _ (insert_legs-Honest pg e id 0 e.legs) λ _.
        Honest-bind _ _ (Honest-or_error _ _ (write-Honest _))
          λ _. Honest-bind _ _ (Honest-or_error _ _ (write-Honest _)) λ _. Honest-pure id

module _ (d : Database) (stack : List (String × Database)) where
  abbrev whole_stack : List (String × Database)
  whole_stack = (post_savepoint, d) ∷ stack

  -- An error, on a session that is back.
  abbrev Refused : {A : Type 0} → Result A → Session → Type 0
  Refused (ok a) s = ⊥
  Refused (err e) s = IsBack d whole_stack s

  explained-Refused :
      (r : Result Failure) (s : Session)
      → IsBack d whole_stack s
      → Refused
          (continue r (λ f. raise {A = String} f) s).0
          (continue r (λ f. raise {A = String} f) s).1
  explained-Refused (ok f) s h = h
  explained-Refused (err f) s h = h

  undo-Refused :
      (e : Failure) (s : Session)
      → Holds whole_stack s
      → Refused (undo_post e s).0 (undo_post e s).1
  unfolding undo_post rollback_to
  undo-Refused e s h =
      simp (h.cut, h.saved)
        (explained-Refused _ _ (
          (explain-IsBack d whole_stack e).at _
            (record { live = refl; saved = refl; failed = refl; cut = refl })))

  abbrev let_savepoint_go : String → Tx String
  let_savepoint_go id = wrapped "release savepoint" (release post_savepoint) >> pure id

  released_ok :
      (id : String) (s : Session)
      → Holds whole_stack s
      → s.failed ≡ false
      → (let_savepoint_go id s).0 ≡ ok id
  unfolding release
  released_ok id s h u = simp (h.cut, u, h.saved)

  Refused-IsBack :
      (r : Result String) (s : Session)
      → Refused r s
      → IsBack d whole_stack (continue r let_savepoint_go s).1
  Refused-IsBack (ok id) s h = absurd h
  Refused-IsBack (err e) s h = h

  posted-IsBack :
      (r : Result String) (s : Session) {f : Failure}
      → Holds whole_stack s
      → UsableIfOk r s
      → (continue (handle r undo_post s).0 let_savepoint_go (handle r undo_post s).1).0 ≡ err f
      → IsBack d whole_stack
          (continue (handle r undo_post s).0 let_savepoint_go (handle r undo_post s).1).1
  posted-IsBack (ok id) s h u e = cc (released_ok id s h u)
  posted-IsBack (err g) s h u e = Refused-IsBack _ _ (undo-Refused g s h)

-- A refused entry leaves the transaction as it was and usable: whatever the entry and the tables, a
-- Post that returns an error on a session that takes statements, over a connection that is not cut,
-- leaves the tables that it found and a session that takes statements; its savepoint stays set.
pub post_entry_atomic :
    (pg : Server) (e : Entry) (d : Database) (stack : List (String × Database)) (n : ℕ)
    (fault : DriverError) (now : ℕ) {f : Failure}
    → (post_entry pg e (usable d stack n fault now)).0 ≡ err f
    → IsBack d ((post_savepoint, d) ∷ stack) (post_entry pg e (usable d stack n fault now)).1
unfolding post_entry savepoint
post_entry_atomic pg e d stack n fault now h =
    let start = usable d ((post_savepoint, d) ∷ stack) n fault now in
    posted-IsBack d stack (post pg e start).0 (post pg e start).1
      ((post-Holds _ pg e).at start (record { saved = refl; cut = refl }))
      ((post-Honest pg e).at start refl) h
