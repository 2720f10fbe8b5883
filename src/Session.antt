-- ===== src/Session.antt =====
-- One *sql.Tx: the tables as the transaction sees them, its savepoints, whether a refused statement
-- has left it unusable, and how long the connection lasts. What internal/ledger does with a
-- *sql.Tx is an action on a session, which returns a value or an error and the session after it.

pub mod Keeps
pub mod Honest
pub mod Usable
pub mod Splits
pub mod Ensures
pub mod Script
use pacioli.Prelude.{
  ℕ, zero, suc, ◌+◌, Bool, true, false, Option, none, some, List, [], ◌∷◌, String, str_eq,
  if◌then◌else◌,
}
use pacioli.Failure.{Failure, DriverError, Result, ok, err}
use pacioli.Schema.Server.{Uuid}
use pacioli.Schema.Tables.{Database, Answer, done, refused, raised}

pub record Session : Type 0 where
  pub live : Database
  -- the savepoints, newest first
  pub saved : List (String × Database)
  -- a statement was refused, and no savepoint has been gone back to since
  pub failed : Bool
  -- the number of the next statement
  pub drawn : ℕ
  -- how many more statements the connection answers (none: it is not cut), and what the driver
  -- says of all those after it
  pub cut : Option ℕ
  pub fault : DriverError
  -- now()
  pub now : ℕ

abbrev pub Tx : Type 0 → Type 0
Tx A = Session → Result A × Session

abbrev pub pure : {A : Type 0} → A → Tx A
pure a s = (ok a, s)

abbrev pub raise : {A : Type 0} → Failure → Tx A
raise e s = (err e, s)

abbrev pub continue : {A B : Type 0} → Result A → (A → Tx B) → Tx B
continue (ok a) f s = f a s
continue (err e) f s = (err e, s)

abbrev pub handle : {A : Type 0} → Result A → (Failure → Tx A) → Tx A
handle (ok a) h s = (ok a, s)
handle (err e) h s = h e s

-- `if err != nil { return err }`
infixl 5 ◌>>=◌ ◌>>◌
abbrev pub ◌>>=◌ : {A B : Type 0} → Tx A → (A → Tx B) → Tx B
◌>>=◌ m f s = let (r, s') = m s in continue r f s'

abbrev pub ◌>>◌ : {A B : Type 0} → Tx A → Tx B → Tx B
m >> k = m >>= λ _. k

-- `if err != nil { … }`: what the block does with the error, and what it returns
abbrev pub rescue : {A : Type 0} → Tx A → (Failure → Tx A) → Tx A
rescue m h s = let (r, s') = m s in handle r h s'

-- The result as a value, and back.
abbrev pub attempt : {A : Type 0} → Tx A → Tx (Result A)
attempt m s = let (r, s') = m s in (ok r, s')

abbrev pub returned : {A : Type 0} → Result A → Tx A
returned r s = (r, s)

-- `if err != nil { return f(err) }`
abbrev pub or_error : {A : Type 0} → Tx A → (Failure → Failure) → Tx A
or_error m f = rescue m λ e. raise (f e)

-- fmt.Errorf("label: %w", err)
abbrev pub wrapped : {A : Type 0} → String → Tx A → Tx A
wrapped label m = or_error m (Failure.wrap label)

-- QueryRowContext(…).Scan: the one row, or sql.ErrNoRows
abbrev pub scan_row : {A : Type 0} → Option A → Tx A
scan_row none = raise (Failure.driver DriverError.no_rows)
scan_row (some a) = pure a

module _ {A : Type 0} where
  abbrev pub answer : Session → Answer (A × Database) → Result A × Session
  answer s (done (a, d)) = (ok a, record s { live = d; drawn = s.drawn + 1 })
  answer s (refused e) = (err (Failure.server e), record s { failed = true; drawn = s.drawn + 1 })

  abbrev pub reach : Option ℕ → Session → (Session → Result A × Session) → Result A × Session
  reach none s run = run s
  reach (some zero) s run = (err (Failure.driver s.fault), s)
  reach (some (suc n)) s run = run (record s { cut = some n })

  -- A statement that the server is asked, if the connection is still there.
  unfoldable pub sent : Tx A → Tx A
  sent run s = reach s.cut s run

  -- A statement on the tables. After a refused one the server takes none but ROLLBACK.
  unfoldable pub exec : (Uuid → Database → Answer (A × Database)) → Tx A
  unfolding sent
  exec body = sent λ s.
      if s.failed
      then (err (Failure.server (raised "25P02")), s)
      else answer s (body s.drawn s.live)

-- A write, and a read.
abbrev pub effect :
    (Uuid → Database → Answer Database) → Uuid → Database → Answer (Unit {0} × Database)
effect body u d = elim (body u d) [ done d' ↦ done (tt, d') | refused e ↦ refused e ]

unfoldable pub write : (Uuid → Database → Answer Database) → Tx (Unit {0})
write body = exec (effect body)

unfoldable pub query : {A : Type 0} → (Database → Answer A) → Tx A
query body = exec λ u d. elim (body d) [ done a ↦ done (a, d) | refused e ↦ refused e ]

-- The tables at a savepoint, with the savepoints older than it.
unfoldable pub find_savepoint :
    String → List (String × Database) → Option (Database × List (String × Database))
find_savepoint name [] = none
find_savepoint name ((n, d) ∷ older) =
    if str_eq n name then some (d, older) else find_savepoint name older

abbrev pub no_savepoint : Session → Result (Unit {0}) × Session
no_savepoint s = (err (Failure.server (raised "3B001")), record s { failed = true })

unfoldable pub savepoint : String → Tx (Unit {0})
unfolding sent
savepoint name = sent λ s.
    if s.failed
    then (err (Failure.server (raised "25P02")), s)
    else (ok tt, record s { saved = (name, s.live) ∷ s.saved })

abbrev pub go_back :
    String → Session → Option (Database × List (String × Database)) → Result (Unit {0}) × Session
go_back name s none = no_savepoint s
go_back name s (some (d, older)) =
    (ok tt, record s { live = d; saved = (name, d) ∷ older; failed = false })

-- ROLLBACK TO SAVEPOINT, which the server takes after a refused statement too
unfoldable pub rollback_to : String → Tx (Unit {0})
unfolding sent find_savepoint
rollback_to name = sent λ s. go_back name s (find_savepoint name s.saved)

abbrev pub let_go :
    Session → Option (Database × List (String × Database)) → Result (Unit {0}) × Session
let_go s none = no_savepoint s
let_go s (some (d, older)) = (ok tt, record s { saved = older })

unfoldable pub release : String → Tx (Unit {0})
unfolding sent find_savepoint
release name = sent λ s.
    if s.failed
    then (err (Failure.server (raised "25P02")), s)
    else let_go s (find_savepoint name s.saved)

-- A session that takes statements, over a connection that is not cut.
abbrev pub usable : Database → List (String × Database) → ℕ → DriverError → ℕ → Session
usable d saved n fault now = record {
  live = d;
  saved = saved;
  failed = false;
  drawn = n;
  cut = none;
  fault = fault;
  now = now;
}
