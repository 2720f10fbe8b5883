-- ===== src/Http/Pool.antt =====
-- Pool of internal/ledgerhttp/ledgerhttp.go: one transaction to a call, over one connection.
pub mod Outcome
use pacioli.Prelude.{
  ℕ, ◌==◌, Bool, true, false, not, ◌&&◌, Option, none, some, List, [], String, if◌then◌else◌,
}
use pacioli.Prelude.Int.{ℤ, is_positive, pos_part}
use pacioli.Failure.{Failure, DriverError, Result, ok, err}
use pacioli.Schema.Tables.{Database, Answer, done, refused, raised}
use pacioli.Schema.Triggers.{commit}
use pacioli.Session.{Session, Tx}
use pacioli.Session.Script.{begin}

-- The book, and the number of the next statement.
pub record Store : Type 0 where
  pub book : Database
  pub drawn : ℕ

-- What becomes of one call: whether DB.Conn gives a connection and BeginTx begins, the state of the
-- contexts when it does not, how long the connection lasts, and whether COMMIT reaches the server.
pub record Fate : Type 0 where
  pub refusal : Option DriverError
  pub request_over : Bool
  pub wait_over : Bool
  pub begin_fails : Option DriverError
  pub cut : Option ℕ
  pub fault : DriverError
  pub now : ℕ
  pub commit_lost : Option DriverError
  -- whether the server did commit where its answer was lost
  pub committed : Bool

-- conn, `acquire` in nanoseconds
unfoldable pub conn : ℤ → Fate → Result (Unit {0})
conn acquire w = elim w.refusal [
  | none ↦ ok tt
  | some e ↦
      if is_positive acquire && not w.request_over && w.wait_over
      then err (Failure.overload (pos_part acquire))
      else err (Failure.driver e)
]

-- The connection answers no more statements.
abbrev pub is_cut : Option ℕ → Bool
is_cut none = false
is_cut (some n) = n == 0

-- ErrTxDone from a rollback is no error; any other joins the body's.
abbrev pub roll_back : Failure → DriverError → Failure
roll_back e DriverError.tx_done = e
roll_back e f = Failure.join e (Failure.wrap "roll back the write" (Failure.driver f))

abbrev pub rolled_back : Failure → Session → Failure
rolled_back e s = if is_cut s.cut then roll_back e s.fault else e

abbrev pub answer_of : Database → Answer Database → Result (Unit {0}) × Database
answer_of before (done d) = (ok tt, d)
answer_of before (refused p) = (err (Failure.server p), before)

-- The server's side of COMMIT: a failed transaction is rolled back, and the driver says so.
unfoldable pub server_commit : Database → Session → Result (Unit {0}) × Database
server_commit before s =
    if s.failed
    then (err (Failure.driver DriverError.other), before)
    else answer_of before (commit s.live)

abbrev pub lost_commit : Bool → DriverError → Database → Database → Result (Unit {0}) × Database
lost_commit committed e before after = (err (Failure.driver e), if committed then after else before)

abbrev pub settled_commit :
    Fate → Database → Session → Option DriverError → Result (Unit {0}) × Database
settled_commit w before s none = server_commit before s
settled_commit w before s (some e) = lost_commit w.committed e before (server_commit before s).1

-- tx.Commit: the connection may be gone before it, and the answer may be lost behind it.
unfoldable pub commit_tx : Fate → Database → Session → Result (Unit {0}) × Database
commit_tx w before s =
    if is_cut s.cut
    then (err (Failure.driver s.fault), before)
    else settled_commit w before s w.commit_lost

module _ {A : Type 0} where
  abbrev pub after_commit : A → Result (Unit {0}) → Result A
  after_commit a (ok u) = ok a
  after_commit a (err e) = err (Failure.wrap "commit the write" e)

  -- Exactly one of Commit and Rollback, on what the body returned.
  unfoldable pub finish : Fate → Store → Result A → Session → Result A × Store
  finish w st (err e) s = (err (rolled_back e s), record st { drawn = s.drawn })
  finish w st (ok a) s =
      let (r, d) = commit_tx w st.book s in (after_commit a r, record { book = d; drawn = s.drawn })

  abbrev pub run_begun : Fate → Tx A → Store → Result A × Store
  run_begun w f st = let (r, s) = f (begin st.book st.drawn w.cut w.fault w.now) in finish w st r s

  abbrev pub run_connected : Fate → Tx A → Store → Option DriverError → Result A × Store
  run_connected w f st none = run_begun w f st
  run_connected w f st (some e) = (err (Failure.wrap "begin the write" (Failure.driver e)), st)

  abbrev pub run_write : Fate → Tx A → Store → Result (Unit {0}) → Result A × Store
  run_write w f st (ok u) = run_connected w f st w.begin_fails
  run_write w f st (err e) = (err (Failure.wrap "take a connection for the write" e), st)

  -- Pool.Write
  unfoldable pub write : ℤ → Fate → Tx A → Store → Result A × Store
  unfolding finish
  write acquire w f st = run_write w f st (conn acquire w)

  -- Pool.Read: a read-only transaction, always rolled back.
  abbrev pub read_begun : Fate → Tx A → Store → Option DriverError → Result A
  read_begun w f st none = (f (begin st.book st.drawn w.cut w.fault w.now)).0
  read_begun w f st (some e) = err (Failure.wrap "begin the read" (Failure.driver e))

  abbrev pub run_read : Fate → Tx A → Store → Result (Unit {0}) → Result A
  run_read w f st (ok u) = read_begun w f st w.begin_fails
  run_read w f st (err e) = err (Failure.wrap "take a connection for the read" e)

  unfoldable pub read : ℤ → Fate → Tx A → Store → Result A
  read acquire w f st = run_read w f st (conn acquire w)
