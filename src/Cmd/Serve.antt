-- ===== src/Cmd/Serve.antt =====
-- cmd/pacioli/serve.go and main.go past the configuration: the environment's names, what open asks
-- of the database, how serve starts and stops, and the exit status of main.
pub mod Stops
use pacioli.Prelude.{
  ℕ, ◌+◌, ◌-◌, ◌*◌, ◌&&◌, Bool, true, false, Option, none, some, List, [], ◌∷◌, ◌++◌, String,
  str_eq, ◌==◌, leb, map, if◌then◌else◌,
}
use pacioli.Failure.{Failure, DriverError, Result, ok, err}
use pacioli.Schema.Server.{codes}
use pacioli.Schema.Apply.{Steps, Catalog, apply}
use pacioli.Cmd.Config
use pacioli.Cmd.Config.{Duration, Deadlines, Go, Config, UsageError, Parsed, run}

-- strings.ToUpper, of the letters that a flag's name has
abbrev upper : ℕ → ℕ
upper c = if leb b'a' c && leb c b'z' then c - 32 else c

abbrev dash : ℕ → ℕ
dash c = if c == b'-' then b'_' else c

-- grace.env, by its characters
unfoldable pub env : String → List ℕ
env flag = codes "LEDGER_" ++ map (λ c. upper (dash c)) (codes flag)

abbrev pub Parameters : Type 0
Parameters = List (String × String)

unfoldable pub parameter : String → Parameters → Option String
parameter name [] = none
parameter name ((n, v) ∷ ps) = if str_eq n name then some v else parameter name ps

-- databaseGraces
abbrev pub database_graces : Parameters
database_graces =
    ("statement_timeout", "20s")
    ∷ ("lock_timeout", "10s")
    ∷ ("idle_in_transaction_session_timeout", "30s")
    ∷ []

abbrev given_or : String → String → Option String → Parameters → Parameters
given_or name value none ps = (name, value) ∷ ps
given_or name value (some given) ps = ps

-- The loop of open over databaseGraces.
unfoldable pub with_graces : Parameters → Parameters → Parameters
with_graces [] ps = ps
with_graces ((name, value) ∷ gs) ps = with_graces gs (given_or name value (parameter name ps) ps)

-- The pool that open makes: sixteen connections at most, eight idle, each for half an hour.
pub record Database : Type 0 where
  pub parameters : Parameters
  pub max_open : ℕ
  pub max_idle : ℕ
  pub max_lifetime : ℕ

-- What the drivers, the network and the signals answer, in the order that serve meets them.
pub record Outside : Type 0 where
  pub parse_config : String → Option Parameters
  pub ping : Option DriverError
  pub schema : Steps
  pub listen : String → Option DriverError
  -- how Serve ends where it ends before the signal
  pub ended_early : Option (Option DriverError)
  pub shutdown : Option DriverError
  -- how Serve ends behind a Shutdown: http.ErrServerClosed (none), nil, or another error
  pub ended : Option (Option DriverError)

abbrev pub answered : Option Parameters → Option DriverError → Result Database
answered none p = err (Failure.plain "read the connection string")
answered (some given) (some e) = err (Failure.wrap "reach the database" (Failure.driver e))
answered (some given) none = ok (record {
  parameters = with_graces database_graces given;
  max_open = 16;
  max_idle = 8;
  max_lifetime = 30 * 60 * 1000000000;
})

-- open
unfoldable pub open_database : Outside → String → Result Database
open_database o dsn = answered (o.parse_config dsn) o.ping

-- newServer, with store's ceiling on the wait for a connection
pub record Posture : Type 0 where
  pub deadline : Duration
  pub read_header_timeout : Duration
  pub read_timeout : Duration
  pub write_timeout : Duration
  pub idle_timeout : Duration
  pub acquire : Duration

unfoldable pub new_server : Deadlines → Posture
new_server d = record {
  deadline = d.request;
  read_header_timeout = d.read_header;
  read_timeout = d.read;
  write_timeout = d.write;
  idle_timeout = d.idle;
  acquire = d.acquire;
}

-- The lines of the log.
pub data Line : Type 0 where
  schema_applied schema_present : Line
  listening : String → Posture → Line
  signal_received stopped : Line

abbrev pub serve_ended : Option (Option DriverError) → Result (Unit {0}) × List Line
serve_ended none = (ok tt, Line.stopped ∷ [])
serve_ended (some none) = (ok tt, Line.stopped ∷ [])
serve_ended (some (some e)) = (err (Failure.wrap "serve" (Failure.driver e)), [])

abbrev pub drained : Outside → Option DriverError → Result (Unit {0}) × List Line
drained o (some e) = (err (Failure.wrap "shut down" (Failure.driver e)), [])
drained o none = serve_ended o.ended

abbrev pub logged : Line → Result (Unit {0}) × List Line → Result (Unit {0}) × List Line
logged l (r, ls) = (r, l ∷ ls)

abbrev early : Option DriverError → Failure
early none = Failure.plain "serve"
early (some e) = Failure.wrap "serve" (Failure.driver e)

-- The select of serveOn, and what follows the signal.
abbrev pub selected : Outside → Option (Option DriverError) → Result (Unit {0}) × List Line
selected o (some e) = (err (early e), [])
selected o none = logged Line.signal_received (drained o o.shutdown)

unfoldable pub serve_on : Outside → String → Posture → Result (Unit {0}) × List Line
serve_on o addr p = logged (Line.listening addr p) (selected o o.ended_early)

abbrev pub listened : Outside → Config → Option DriverError → Result (Unit {0}) × List Line
listened o c (some e) = (err (Failure.wrap "listen" (Failure.driver e)), [])
listened o c none = serve_on o c.addr (new_server c.deadlines)

abbrev pub applied : Outside → Config → Result Bool → Result (Unit {0}) × List Line
applied o c (err e) = (err (Failure.wrap "apply the schema" e), [])
applied o c (ok true) = logged Line.schema_applied (listened o c (o.listen c.addr))
applied o c (ok false) = logged Line.schema_present (listened o c (o.listen c.addr))

abbrev pub opened : Outside → Config → Catalog → Result Database → Result (Unit {0}) × List Line
opened o c cat (err e) = (err e, [])
opened o c cat (ok db) = applied o c (apply o.schema cat).0

-- serve, past parseServe: how it ends and what it logs
unfoldable pub serve : Outside → Config → Catalog → Result (Unit {0}) × List Line
serve o c cat = opened o c cat (open_database o c.dsn)

abbrev pub status : Result (Unit {0}) → ℕ
status (ok u) = 0
status (err e) = 1

module _ (go : Go) (o : Outside) (cat : Catalog) where
  abbrev pub performed : Parsed (Config.Action go) → ℕ
  performed (Config.usage e) = 2
  performed (Config.ok Config.Action.print_version) = 0
  performed (Config.ok Config.Action.print_usage) = 0
  performed (Config.ok (Config.Action.serve c)) = status (serve o c cat).0

  -- main: the exit status
  unfoldable pub main : List String → (String → String) → ℕ
  main args getenv = performed (run go args getenv)
