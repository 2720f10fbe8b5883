-- ===== src/Session/Splits.antt =====
-- A write that succeeds has made its tables so, and one that fails has left them, and those of the
-- savepoints, as they were.
use pacioli.Prelude.{
  ℕ, zero, suc, ◌≡◌, refl, Option, none, some, Bool-cases, inl, inr, if◌then◌else◌,
}
use pacioli.Failure.{Failure, Result, ok, err}
use pacioli.Schema.Server.{Uuid}
use pacioli.Schema.Tables.{Database, Answer, done, refused}
use pacioli.Session.{Session, Tx, reach, answer, continue, write, effect, exec, ◌>>=◌}
use pacioli.Session.Keeps.{Throughout, Keeps}
use pacioli.Session.Ensures.{Ensures, IfOk, continue-Ensures}

abbrev pub Split : (P R : Database → Type 0) → Result (Unit {0}) → Session → Type 0
Split P R (ok u) s = R s.live
Split P R (err e) s = Throughout P s

module _ (P R : Database → Type 0) where
  reach-Split :
      (run : Tx (Unit {0}))
      → ((s : Session) → Throughout P s → Split P R (run s).0 (run s).1)
      → (o : Option ℕ) (s : Session) → Throughout P s
      → Split P R (reach o s run).0 (reach o s run).1
  reach-Split run k none s t = k s t
  reach-Split run k (some zero) s t = t
  reach-Split run k (some (suc n)) s t =
      k (record s { cut = some n }) (record { live = t.live; saved = t.saved })

  unless_failed :
      (run : Tx (Unit {0})) (e : Failure) (s : Session)
      → Throughout P s
      → Split P R (run s).0 (run s).1
      → Split P R
          (if s.failed then (err e, s) else run s).0
          (if s.failed then (err e, s) else run s).1
  unless_failed run e s t h = elim (Bool-cases s.failed) [ inl f ↦ simp f t | inr f ↦ simp f h ]

  answer-Split :
      (s : Session) (a : Answer Database)
      → Throughout P s
      → ((d : Database) → a ≡ done d → R d)
      → Split P R
          (answer s (elim a [ done d ↦ done (tt, d) | refused e ↦ refused e ])).0
          (answer s (elim a [ done d ↦ done (tt, d) | refused e ↦ refused e ])).1
  answer-Split s (done d) t k = k d refl
  answer-Split s (refused e) t k = record { live = t.live; saved = t.saved }

  pub write-Split :
      (body : Uuid → Database → Answer Database)
      → ((u : Uuid) (d d' : Database) → P d → body u d ≡ done d' → R d')
      → (s : Session) → Throughout P s
      → Split P R (write body s).0 (write body s).1
  unfolding write exec
  write-Split body k s t =
      reach-Split _
        (λ r t.
          unless_failed (λ x. answer x (effect body x.drawn x.live)) _ r t
            (answer-Split r (body r.drawn r.live) t λ d h. k r.drawn r.live d t.live h))
        s.cut s t

-- What an action that succeeds has made so, from a condition on the whole session.
pub record EnsuresFrom {A : Type 0} (Q : Session → Type 0) (m : Tx A) (R : A → Database → Type 0)
    : Type 0 where
  pub at : (s : Session) → Q s → IfOk R (m s).0 (m s).1.live

module _ {A B : Type 0} (Q : Session → Type 0) (R : A → Database → Type 0) (f : B → Tx A) where
  continue-EnsuresFrom :
      ((b : B) → EnsuresFrom Q (f b) R)
      → (r : Result B) (s : Session) → Q s
      → IfOk R (continue r f s).0 (continue r f s).1.live
  continue-EnsuresFrom k (ok b) s q = (k b).at s q
  continue-EnsuresFrom k (err e) s q = tt

  -- After a step that keeps the condition.
  pub EnsuresFrom-bind :
      (m : Tx B) → Keeps Q m → ((b : B) → EnsuresFrom Q (f b) R) → EnsuresFrom Q (m >>= f) R
  EnsuresFrom-bind m h k = record { at = λ s q. continue-EnsuresFrom k (m s).0 (m s).1 (h.at s q) }

-- Before an action whose condition is on the tables alone.
pub EnsuresFrom-then :
    {A B : Type 0} (Q : Session → Type 0) (S : B → Database → Type 0) (R : A → Database → Type 0)
    (m : Tx B) (f : B → Tx A)
    → EnsuresFrom Q m S
    → ((b : B) → Ensures (S b) (f b) R)
    → EnsuresFrom Q (m >>= f) R
EnsuresFrom-then Q S R m f h k = record {
  at = λ s q. continue-Ensures R S f k (m s).0 (m s).1 (h.at s q);
}
