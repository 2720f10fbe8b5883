-- ===== src/Session/Ensures.antt =====
-- What an action that succeeds has made so: from a condition on the tables before it, one on its
-- value and the tables after it.
use pacioli.Prelude.{
  ℕ, zero, suc, ◌≡◌, refl, subst, Option, none, some, List, ◌∷◌, String, Bool-cases, inl, inr,
  if◌then◌else◌,
}
use pacioli.Failure.{Failure, Result, ok, err}
use pacioli.Schema.Server.{Uuid}
use pacioli.Schema.Tables.{Database, Answer, done, refused}
use pacioli.Session.{
  Session, Tx, pure, raise, ◌>>=◌, continue, handle, rescue, or_error, attempt, returned, scan_row,
  reach, answer, exec, write, query, savepoint, release, let_go, find_savepoint,
}

-- A condition on the value of an action that succeeds, and on the tables after it.
abbrev pub IfOk : {A : Type 0} → (A → Database → Type 0) → Result A → Database → Type 0
IfOk R (ok a) d = R a d
IfOk R (err e) d = Unit

pub record Ensures {A : Type 0} (P : Database → Type 0) (m : Tx A) (R : A → Database → Type 0)
    : Type 0 where
  pub at : (s : Session) → P s.live → IfOk R (m s).0 (m s).1.live

abbrev pub IsErr : {A : Type 0} → Result A → Type 0
IsErr (ok a) = ⊥
IsErr (err e) = Unit

-- The action never succeeds.
pub record Fails {A : Type 0} (m : Tx A) : Type 0 where
  pub at : (s : Session) → IsErr (m s).0

module _ {A : Type 0} where
  pub Fails-raise : (e : Failure) → Fails {A = A} (raise e)
  Fails-raise e = record { at = λ s. tt }

  continue-Fails :
      {B : Type 0} (f : B → Tx A)
      → ((b : B) → Fails (f b))
      → (r : Result B) (s : Session) → IsErr (continue r f s).0
  continue-Fails f k (ok b) s = (k b).at s
  continue-Fails f k (err e) s = tt

  pub Fails-bind :
      {B : Type 0} (m : Tx B) (f : B → Tx A) → ((b : B) → Fails (f b)) → Fails (m >>= f)
  Fails-bind m f k = record { at = λ s. continue-Fails f k (m s).0 (m s).1 }

module _ {A : Type 0} (R : A → Database → Type 0) where
  pub continue-Ensures :
      {B : Type 0} (Q : B → Database → Type 0) (f : B → Tx A)
      → ((b : B) → Ensures (Q b) (f b) R)
      → (r : Result B) (s : Session) → IfOk Q r s.live
      → IfOk R (continue r f s).0 (continue r f s).1.live
  continue-Ensures Q f k (ok b) s q = (k b).at s q
  continue-Ensures Q f k (err e) s q = tt

  pub failing : (r : Result A) (s : Session) → IsErr r → IfOk R r s.live
  failing (ok a) s h = absurd h
  failing (err e) s h = tt

  handle-Ensures :
      (k : Failure → Tx A)
      → ((e : Failure) → Fails (k e))
      → (r : Result A) (s : Session) → IfOk R r s.live
      → IfOk R (handle r k s).0 (handle r k s).1.live
  handle-Ensures k f (ok b) s q = q
  handle-Ensures k f (err e) s q = failing (k e s).0 (k e s).1 ((f e).at s)

  reach-Ensures :
      (P : Database → Type 0) (run : Tx A)
      → ((s : Session) → P s.live → IfOk R (run s).0 (run s).1.live)
      → (o : Option ℕ) (s : Session) → P s.live
      → IfOk R (reach o s run).0 (reach o s run).1.live
  reach-Ensures P run k none s p = k s p
  reach-Ensures P run k (some zero) s p = tt
  reach-Ensures P run k (some (suc n)) s p = k (record s { cut = some n }) p

  unless_failed :
      (run : Tx A) (e : Failure) (s : Session)
      → IfOk R (run s).0 (run s).1.live
      → IfOk R
          (if s.failed then (err e, s) else run s).0
          (if s.failed then (err e, s) else run s).1.live
  unless_failed run e s h = elim (Bool-cases s.failed) [ inl f ↦ simp f tt | inr f ↦ simp f h ]

  answer-Ensures :
      (s : Session) (x : Answer (A × Database))
      → ((a : A) (d : Database) → x ≡ done (a, d) → R a d)
      → IfOk R (answer s x).0 (answer s x).1.live
  answer-Ensures s (done (b, d)) k = k b d refl
  answer-Ensures s (refused e) k = tt

module _ {A : Type 0} {P : Database → Type 0} {R : A → Database → Type 0} where
  pub Ensures-pure : (a : A) → ((d : Database) → P d → R a d) → Ensures P (pure a) R
  Ensures-pure a k = record { at = λ s p. k s.live p }

  pub Ensures-raise : (e : Failure) → Ensures P (raise e) R
  Ensures-raise e = record { at = λ s p. tt }

  pub Ensures-bind :
      {B : Type 0} (Q : B → Database → Type 0) (m : Tx B) (f : B → Tx A)
      → Ensures P m Q
      → ((b : B) → Ensures (Q b) (f b) R)
      → Ensures P (m >>= f) R
  Ensures-bind Q m f h k = record {
    at = λ s p. continue-Ensures R Q f k (m s).0 (m s).1 (h.at s p);
  }

  -- An error is turned into another.
  pub Ensures-rescue :
      (m : Tx A) (k : Failure → Tx A)
      → Ensures P m R
      → ((e : Failure) → Fails (k e))
      → Ensures P (rescue m k) R
  Ensures-rescue m k h f = record { at = λ s p. handle-Ensures R k f (m s).0 (m s).1 (h.at s p) }

  pub Ensures-or_error :
      (m : Tx A) (f : Failure → Failure) → Ensures P m R → Ensures P (or_error m f) R
  Ensures-or_error m f h = Ensures-rescue m _ h λ e. Fails-raise _

  pub Ensures-exec :
      (body : Uuid → Database → Answer (A × Database))
      → ((u : Uuid) (d : Database)
          → P d
          → (a : A) (d' : Database) → body u d ≡ done (a, d')
          → R a d')
      → Ensures P (exec body) R
  unfolding exec
  Ensures-exec body k = record {
    at = λ s.
        reach-Ensures R P _
          (λ r p.
            unless_failed R (λ x. answer x (body x.drawn x.live)) _ r
              (answer-Ensures R r _ (k r.drawn r.live p)))
          s.cut s;
  }

  pub Ensures-attempt : (m : Tx A) → Ensures P m R → Ensures P (attempt m) (IfOk R)
  Ensures-attempt m k = record { at = λ s p. k.at s p }

effect-done :
    (a : Answer Database) (u : Unit {0}) (d' : Database)
    → elim a as (λ x. Answer (Unit {0} × Database)) [
      | done x ↦ done (tt, x)
      | refused e ↦ refused e
    ]
      ≡ done (u, d')
    → a ≡ done d'
effect-done (done x) u d' h = cc h
effect-done (refused e) u d' h = cc

let_go-Ensures :
    (P : Database → Type 0) (s : Session) (o : Option (Database × List (String × Database)))
    → P s.live
    → IfOk (λ u d. P d) (let_go s o).0 (let_go s o).1.live
let_go-Ensures P s none p = tt
let_go-Ensures P s (some (d, older)) p = p

module _ {P : Database → Type 0} where
  pub Ensures-write :
      (R : Database → Type 0) (body : Uuid → Database → Answer Database)
      → ((u : Uuid) (d d' : Database) → P d → body u d ≡ done d' → R d')
      → Ensures P (write body) (λ u d. R d)
  unfolding write
  Ensures-write R body k = Ensures-exec _ λ u d p a d' h. k u d d' p (effect-done (body u d) a d' h)

  pub Ensures-savepoint : (n : String) → Ensures P (savepoint n) (λ u d. P d)
  unfolding savepoint
  Ensures-savepoint n = record {
    at = λ s.
        reach-Ensures (λ u d. P d) P _
          (λ r p.
            unless_failed (λ u d. P d) (λ x. (ok tt, record x { saved = (n, x.live) ∷ x.saved })) _
              r p)
          s.cut s;
  }

  pub Ensures-release : (n : String) → Ensures P (release n) (λ u d. P d)
  unfolding release
  Ensures-release n = record {
    at = λ s.
        reach-Ensures (λ u d. P d) P _
          (λ r p.
            unless_failed (λ u d. P d) (λ x. let_go x (find_savepoint n x.saved)) _ r
              (let_go-Ensures P r (find_savepoint n r.saved) p))
          s.cut s;
  }

query-done :
    {A : Type 0} (x : Answer A) (d : Database) (a : A) (d' : Database)
    → elim x as (λ y. Answer (A × Database)) [ done b ↦ done (b, d) | refused e ↦ refused e ]
      ≡ done (a, d')
    → (x ≡ done a) × (d ≡ d')
query-done (done b) d a d' h = (cc, cc)
query-done (refused e) d a d' h = (cc, cc)

module _ {A : Type 0} {P : Database → Type 0} {R : A → Database → Type 0} where
  pub Ensures-query :
      (body : Database → Answer A)
      → ((d : Database) → P d → (a : A) → body d ≡ done a → R a d)
      → Ensures P (query body) R
  unfolding query
  Ensures-query body k = Ensures-exec _ λ u d p a d' h.
      let (said, same) = query-done (body d) d a d' h in subst (R a) same (k d p a said)

  pub Ensures-scan :
      (o : Option A)
      → ((d : Database) → P d → (a : A) → o ≡ some a → R a d)
      → Ensures P (scan_row o) R
  Ensures-scan none k = record { at = λ s p. tt }
  Ensures-scan (some a) k = record { at = λ s p. k s.live p a refl }

anything : {A : Type 0} (r : Result A) (s : Session) → IfOk (λ a d. Unit {0}) r s.live
anything (ok a) s = tt
anything (err e) s = tt

pub Ensures-any : {A : Type 0} {P : Database → Type 0} (m : Tx A) → Ensures P m (λ a d. Unit)
Ensures-any m = record { at = λ s p. anything (m s).0 (m s).1 }

pub Ensures-returned :
    {A : Type 0} {R : A → Database → Type 0} (r : Result A) → Ensures (IfOk R r) (returned r) R
Ensures-returned r = record { at = λ s p. p }

beside :
    {A F : Type 0} (R : A → Database → Type 0)
    → F
    → (r : Result A) (s : Session) → IfOk R r s.live
    → IfOk (λ a d. F × R a d) r s.live
beside R f (ok a) s h = (f, h)
beside R f (err e) s h = tt

-- A fact that no table bears on.
pub Ensures-beside :
    {A F : Type 0} {P : Database → Type 0} {m : Tx A} (R : A → Database → Type 0)
    → F
    → Ensures P m R
    → Ensures P m (λ a d. F × R a d)
Ensures-beside {m} R f k = record { at = λ s p. beside R f (m s).0 (m s).1 (k.at s p) }
