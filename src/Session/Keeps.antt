-- ===== src/Session/Keeps.antt =====
-- What the primitive actions on a session keep: a property of the tables that every savepoint has
-- too, given that each write keeps it.
use pacioli.Prelude.{
  ℕ, zero, suc, ◌≡◌, refl, Option, none, some, List, [], ◌∷◌, String, str_eq, All, if◌then◌else◌,
  Bool-cases, inl, inr, subst, some-eq,
}
use pacioli.Failure.{Failure, Result, ok, err}
use pacioli.Schema.Server.{Uuid}
use pacioli.Schema.Tables.{Database, Answer, done, refused}
use pacioli.Schema.Balance.Firing.{Yields, done-injective}
use pacioli.Session.{
  Session, Tx, ◌>>=◌, rescue, continue, handle, reach, answer, go_back, let_go, pure, raise, exec,
  write, effect, savepoint, rollback_to, release, find_savepoint,
}

-- The tables and the savepoints' tables.
pub record Throughout (P : Database → Type 0) (s : Session) : Type 0 where
  pub live : P s.live
  pub saved : All (λ (p : String × Database). P p.1) s.saved

-- However the action ends, the property holds after it.
pub record Keeps {A : Type 0} (Q : Session → Type 0) (m : Tx A) : Type 0 where
  pub at : (s : Session) → Q s → Q (m s).1

module _ {A : Type 0} {Q : Session → Type 0} where
  pub Keeps-pure : (a : A) → Keeps Q (pure a)
  Keeps-pure a = record { at = λ s h. h }

  pub Keeps-raise : (e : Failure) → Keeps {A = A} Q (raise e)
  Keeps-raise e = record { at = λ s h. h }

  handle-Keeps :
      (k : Failure → Tx A)
      → ((e : Failure) → Keeps Q (k e))
      → (r : Result A) (s : Session) → Q s
      → Q (handle r k s).1
  handle-Keeps k q (ok a) s h = h
  handle-Keeps k q (err e) s h = (q e).at s h

  pub Keeps-rescue :
      (m : Tx A) (k : Failure → Tx A)
      → Keeps Q m
      → ((e : Failure) → Keeps Q (k e))
      → Keeps Q (rescue m k)
  Keeps-rescue m k p q = record { at = λ s h. handle-Keeps k q (m s).0 (m s).1 (p.at s h) }

  continue-Keeps :
      {B : Type 0} (f : B → Tx A)
      → ((b : B) → Keeps Q (f b))
      → (r : Result B) (s : Session) → Q s
      → Q (continue r f s).1
  continue-Keeps f q (ok b) s h = (q b).at s h
  continue-Keeps f q (err e) s h = h

  pub Keeps-bind :
      {B : Type 0} (m : Tx B) (f : B → Tx A)
      → Keeps Q m
      → ((b : B) → Keeps Q (f b))
      → Keeps Q (m >>= f)
  Keeps-bind m f p q = record { at = λ s h. continue-Keeps f q (m s).0 (m s).1 (p.at s h) }

pub found :
    (P : Database → Type 0) (n : String) (saved : List (String × Database)) {d : Database}
    {older : List (String × Database)}
    → All (λ (p : String × Database). P p.1) saved
    → find_savepoint n saved ≡ some (d, older)
    → P d × All (λ (p : String × Database). P p.1) older
unfolding find_savepoint
found P n [] h e = cc
found P n ((m, d) ∷ older) h e = elim (Bool-cases (str_eq m n)) [
  | inl same ↦
      subst
        (λ (p : Database × List (String × Database)).
          P p.0 × All (λ (q : String × Database). P q.1) p.1)
        (some-eq (rw same at e)) h
  | inr other ↦ found P n older h.1 (rw other at e)
]

module _ (P : Database → Type 0) where
  reach-Keeps :
      {A : Type 0} (run : Tx A)
      → ((s : Session) → Throughout P s → Throughout P (run s).1)
      → (o : Option ℕ) (s : Session) → Throughout P s
      → Throughout P (reach o s run).1
  reach-Keeps run k none s t = k s t
  reach-Keeps run k (some zero) s t = t
  reach-Keeps run k (some (suc n)) s t =
      k (record s { cut = some n }) (record { live = t.live; saved = t.saved })

  -- A statement that the server takes unless the transaction has failed.
  unless_failed :
      {A : Type 0} (run : Tx A)
      → ((s : Session) → Throughout P s → Throughout P (run s).1)
      → (e : Result A) (s : Session) → Throughout P s
      → Throughout P (if s.failed then (e, s) else run s).1
  unless_failed run k e s t = elim (Bool-cases s.failed) [
    | inl f ↦ simp f t
    | inr f ↦ simp f (k s t)
  ]

  answer-Keeps :
      {A : Type 0} (s : Session) (a : Answer (A × Database))
      → Yields (λ (p : A × Database). P p.1) a
      → Throughout P s
      → Throughout P (answer s a).1
  answer-Keeps s (done (x, d)) y t = record { live = y.at (x, d) refl; saved = t.saved }
  answer-Keeps s (refused e) y t = record { live = t.live; saved = t.saved }

  pub Keeps-exec :
      {A : Type 0} (body : Uuid → Database → Answer (A × Database))
      → ((u : Uuid) (d : Database) → P d → Yields (λ (p : A × Database). P p.1) (body u d))
      → Keeps (Throughout P) (exec body)
  unfolding exec
  Keeps-exec body h = record {
    at = λ s.
        reach-Keeps _
          (unless_failed (λ r. answer r (body r.drawn r.live))
            (λ r t. answer-Keeps r _ (h r.drawn r.live t.live) t) _)
          s.cut s;
  }

  effect-Yields :
      (a : Answer Database)
      → Yields P a
      → Yields
          (λ (p : Unit {0} × Database). P p.1)
          (elim a [ done d ↦ done (tt, d) | refused e ↦ refused e ])
  effect-Yields (done d) y = record {
    at = λ p e. subst (λ (p : Unit {0} × Database). P p.1) (done-injective e) (y.at d refl);
  }
  effect-Yields (refused e) y = record { at = λ p e. cc }

  pub Keeps-write :
      (body : Uuid → Database → Answer Database)
      → ((u : Uuid) (d : Database) → P d → Yields P (body u d))
      → Keeps (Throughout P) (write body)
  unfolding write
  Keeps-write body h = Keeps-exec (effect body) λ u d p. effect-Yields (body u d) (h u d p)

  pub Keeps-savepoint : (n : String) → Keeps (Throughout P) (savepoint n)
  unfolding savepoint
  Keeps-savepoint n = record {
    at = λ s.
        reach-Keeps _
          (unless_failed _ (λ r t. record { live = t.live; saved = (t.live, t.saved) }) _) s.cut s;
  }

  go_back-Keeps :
      (n : String) (s : Session) (o : Option (Database × List (String × Database)))
      → find_savepoint n s.saved ≡ o
      → Throughout P s
      → Throughout P (go_back n s o).1
  go_back-Keeps n s none e t = record { live = t.live; saved = t.saved }
  go_back-Keeps n s (some (d, older)) e t =
      let (p, q) = found P n s.saved t.saved e in record { live = p; saved = (p, q) }

  pub Keeps-rollback_to : (n : String) → Keeps (Throughout P) (rollback_to n)
  unfolding rollback_to
  Keeps-rollback_to n = record {
    at = λ s. reach-Keeps _ (λ r t. go_back-Keeps n r _ refl t) s.cut s;
  }

  let_go-Keeps :
      (n : String) (s : Session) (o : Option (Database × List (String × Database)))
      → find_savepoint n s.saved ≡ o
      → Throughout P s
      → Throughout P (let_go s o).1
  let_go-Keeps n s none e t = record { live = t.live; saved = t.saved }
  let_go-Keeps n s (some (d, older)) e t = record {
    live = t.live;
    saved = (found P n s.saved t.saved e).1;
  }

  pub Keeps-release : (n : String) → Keeps (Throughout P) (release n)
  unfolding release
  Keeps-release n = record {
    at = λ s. reach-Keeps _ (unless_failed _ (λ r t. let_go-Keeps n r _ refl t) _) s.cut s;
  }
