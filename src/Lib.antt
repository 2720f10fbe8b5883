-- ===== src/Lib.antt =====
-- pacioli: a double-entry ledger over Postgres, verified from its schema up.
--
-- The program keeps its rules in the database. internal/schema/0001_ledger.sql holds the tables, the
-- CHECKs and the triggers; internal/ledger sends statements inside a transaction that its caller
-- began and turns refusals into errors; internal/ledgerhttp begins and ends those transactions and
-- turns the errors into statuses; cmd/pacioli reads the configuration and serves.
--
-- Files, and what each models:
--   Prelude       numbers, integers, lists and tests that the others share
--   Failure       Go's error values: sentinels, *pgconn.PgError, LegError, UnknownKindError,
--                 OverloadError, wrapping and joining, errors.Is and errors.As
--   Schema        internal/schema/0001_ledger.sql. Server: what the SQL leaves to Postgres.
--                 Tables: rows, the queue of deferred events, lookups and sums. Triggers: the
--                 trigger functions and when they fire. Statements: each statement as a function
--                 from tables to tables or a refusal. Balance: the invariant that every entry
--                 which does not balance has a check queued. Balance.Evasion: what an
--                 UPDATE of the queue table allows. Deferred: statements under the modes
--                 that a transaction begins with. Apply: internal/schema/schema.go.
--   Session       one connection inside a transaction: statements, savepoints, the failed state and
--                 a connection that is cut. Keeps, Ensures, Splits, Honest and Usable prove properties of
--                 it statement by statement; Script runs any sequence of statements and a COMMIT.
--   Ledger        internal/ledger. Minor: minor.go, its texts in Minor/Text. Entry and Post: ledger.go, classify, Post and
--                 explain. Read: EntryOf and balance.go. Trial: TrialBalance. Once: idempotency.go.
--                 Open: accounts.go. Book: entries, balances and keys with no rows,
--                 which the tables stand for, and what Post and a write under a key do to them. Stable: what every operation keeps, given that each of
--                 its statements does.
--   Http          internal/ledgerhttp. Pool: Pool of ledgerhttp.go. Wire: the bodies. Refusals:
--                 fail, refuse and refuseAccount. Reads: the handlers of the four GET routes.
--                 Writes: those of the two POST routes. Json and Decode: decode.go, on a body that the
--                 decoder's tokens have made a json value of. Serve: the six routes over one
--                 store, and a run of calls.
--   Cmd           cmd/pacioli. Config: parseServe of serve.go, and the dispatch of run in main.go.
--                 Serve: open, serve, serveOn and newServer, and the exit status of main.
--   Controls      tools/controls. Text: what it calls of strings and bytes. File: parseControl. Run:
--                 loadControls, apply and runControls over the files of the working tree.
--   Tests         runs on concrete inputs, and the theorems at such inputs.
--
-- A component's state is explicit. The tables are one record; a statement that is refused leaves
-- them alone and fails the transaction, as Postgres does. Code that takes a *sql.Tx is a function
-- from a session to a result and a session. Postgres's character classes, collation and uuids are
-- the record Server, and so is what a timestamptz column keeps of an instant; what the handlers leave to net/url, strconv and time is Library, what
-- decode.go leaves to encoding/json is Decoder, and the hash of a request is Fingerprint; flag and
-- time.ParseDuration are Go; the listener and the signal are Outside; git, the shell, os.Stat and what a write of a file
-- comes to are World.
-- The network is a value as well: a connection may be cut before any
-- statement, and the answer to COMMIT may be lost.
--
-- Integers. ledger.Minor is a big.Int, and sums in Postgres are numeric, so both are unbounded
-- here; the int64 of Retry-After keeps its wrap-around. Every loop is a recursion on a list, but for
-- the digits of an amount, which take one round of fuel to a digit and have the amount itself.
--
-- Not modelled: the formatted words of messages, beyond those of a reply; logging, but for the lines
-- that serve logs; the bytes of a body and of a reply; the deadline that http.TimeoutHandler puts on
-- a call; two transactions that are open at one time, so what they block each other on is outside
-- the model; a NUL in a text that a statement is given, which Postgres refuses, but for BalanceOf's;
-- sessions with statements that Session.Script does not list; files that are not UTF-8;
-- internal/testdb, which opens databases for the tests.
pub mod Prelude
pub mod Failure
pub mod Schema
pub mod Session
pub mod Ledger
pub mod Http
pub mod Cmd
pub mod Controls
mod Tests
