-- ===== src/Session/Honest.antt =====
-- What a statement leaves alone on a session: the savepoints, the connection, and, where it
-- succeeds, that the session takes statements.
use pacioli.Prelude.{
  ℕ, zero, suc, ◌≡◌, refl, false, Option, none, some, List, String, Bool-cases, inl, inr,
}
use pacioli.Failure.{Failure, Result, ok, err}
use pacioli.Schema.Server.{Uuid}
use pacioli.Schema.Tables.{Database, Answer, done, refused}
use pacioli.Session.{
  Session, Tx, pure, raise, ◌>>=◌, or_error, continue, handle, reach, effect, exec, write, query,
  scan_row, answer,
}
use pacioli.Session.Keeps.{Keeps, Keeps-pure, Keeps-raise}

-- The savepoints stay, and the connection is not cut.
pub record Holds (stack : List (String × Database)) (s : Session) : Type 0 where
  pub saved : s.saved ≡ stack
  pub cut : s.cut ≡ none

module _ (stack : List (String × Database)) where
  answer-Holds :
      {A : Type 0} (a : Answer (A × Database)) (s : Session)
      → Holds stack s
      → Holds stack (answer s a).1
  answer-Holds (done (x, d)) s h = record { saved = h.saved; cut = h.cut }
  answer-Holds (refused e) s h = record { saved = h.saved; cut = h.cut }

  pub exec-Holds :
      {A : Type 0} (body : Uuid → Database → Answer (A × Database))
      → Keeps (Holds stack) (exec body)
  unfolding exec
  exec-Holds {A} body = record {
    at = λ s h. simp h.cut (elim (Bool-cases s.failed) [
      | inl f ↦ simp f h
      | inr f ↦ simp f (answer-Holds {A = A} (body s.drawn s.live) s h)
    ]);
  }

  pub write-Holds : (body : Uuid → Database → Answer Database) → Keeps (Holds stack) (write body)
  unfolding write
  write-Holds body = exec-Holds _

-- What is so after ROLLBACK TO and stays so while the ledger is read.
pub record IsBack (d : Database) (stack : List (String × Database)) (s : Session) : Type 0 where
  pub live : s.live ≡ d
  pub saved : s.saved ≡ stack
  pub failed : s.failed ≡ false
  pub cut : s.cut ≡ none

module _ (d : Database) (stack : List (String × Database)) where
  pub query-IsBack :
      {A : Type 0} (f : Database → A) → Keeps (IsBack d stack) (query (λ x. done (f x)))
  unfolding query exec
  query-IsBack f = record {
    at = λ s h.
        simp (h.cut, h.failed)
          (record { live = h.live; saved = h.saved; failed = refl; cut = refl });
  }

  pub scan_row-IsBack : {A : Type 0} (o : Option A) → Keeps (IsBack d stack) (scan_row o)
  scan_row-IsBack none = Keeps-raise _
  scan_row-IsBack (some a) = Keeps-pure a

-- The session of an action that succeeds takes statements.
abbrev pub UsableIfOk : {A : Type 0} → Result A → Session → Type 0
UsableIfOk (ok a) s = s.failed ≡ false
UsableIfOk (err e) s = Unit

pub record Honest {A : Type 0} (m : Tx A) : Type 0 where
  pub at : (s : Session) → s.failed ≡ false → UsableIfOk (m s).0 (m s).1

module _ {A : Type 0} where
  pub Honest-pure : (a : A) → Honest (pure a)
  Honest-pure a = record { at = λ s h. h }

  continue-Honest :
      {B : Type 0} (f : B → Tx A)
      → ((b : B) → Honest (f b))
      → (r : Result B) (s : Session) → UsableIfOk r s
      → UsableIfOk (continue r f s).0 (continue r f s).1
  continue-Honest f k (ok b) s h = (k b).at s h
  continue-Honest f k (err e) s h = tt

  pub Honest-bind :
      {B : Type 0} (m : Tx B) (f : B → Tx A)
      → Honest m
      → ((b : B) → Honest (f b))
      → Honest (m >>= f)
  Honest-bind m f h k = record { at = λ s u. continue-Honest f k (m s).0 (m s).1 (h.at s u) }

  handle-Honest :
      (g : Failure → Failure) (r : Result A) (s : Session)
      → UsableIfOk r s
      → UsableIfOk (handle r (λ e. raise (g e)) s).0 (handle r (λ e. raise (g e)) s).1
  handle-Honest g (ok a) s h = h
  handle-Honest g (err e) s h = tt

  pub Honest-or_error : (m : Tx A) (g : Failure → Failure) → Honest m → Honest (or_error m g)
  Honest-or_error m g h = record { at = λ s u. handle-Honest g (m s).0 (m s).1 (h.at s u) }

  answer-Honest :
      (a : Answer (A × Database)) (s : Session)
      → s.failed ≡ false
      → UsableIfOk (answer s a).0 (answer s a).1
  answer-Honest (done (x, d)) s h = h
  answer-Honest (refused e) s h = tt

  reach-Honest :
      (run : Tx A)
      → Honest run
      → (o : Option ℕ) (s : Session) → s.failed ≡ false
      → UsableIfOk (reach o s run).0 (reach o s run).1
  reach-Honest run k none s h = k.at s h
  reach-Honest run k (some zero) s h = tt
  reach-Honest run k (some (suc n)) s h = k.at (record s { cut = some n }) h

  pub Honest-exec : (body : Uuid → Database → Answer (A × Database)) → Honest (exec body)
  unfolding exec
  Honest-exec body = record {
    at = λ s.
        reach-Honest _ (record { at = λ r h. simp h (answer-Honest (body r.drawn r.live) r h) })
          s.cut s;
  }

pub write-Honest : (body : Uuid → Database → Answer Database) → Honest (write body)
unfolding write
write-Honest body = Honest-exec (effect body)
