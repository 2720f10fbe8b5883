-- ===== src/Http/Serve.antt =====
-- Handler of internal/ledgerhttp/ledgerhttp.go: the six routes over one store, and a run of calls.
pub mod Carried
pub mod Books
pub mod Trials
pub mod Retry
use pacioli.Prelude.{ℕ, List, [], ◌∷◌, String}
use pacioli.Prelude.Int.{ℤ}
use pacioli.Schema.Server.{Server}
use pacioli.Http.Pool.{Store, Fate}
use pacioli.Http.Wire.{Library, Reply}
use pacioli.Http.Decode.{Decoder}
use pacioli.Http.Reads
use pacioli.Http.Writes
use pacioli.Http.Writes.{Request, Fingerprint}

-- A request by its route: the raw query, the path's segment, or the request.
pub data Call : Type 0 where
  list_accounts : String → Call
  open_account : Request → Call
  read_balance : String → Call
  read_trial : Call
  post_transaction : Request → Call
  read_transaction : String → Call

-- What the handlers are given when the server starts.
pub record Wiring : Type 0 where
  pub server : Server
  pub library : Library
  pub decoder : Decoder
  pub fingerprint : Fingerprint
  -- the pool's ceiling, in nanoseconds
  pub acquire : ℤ

module _ (wire : Wiring) where
  unfoldable pub handle : Call → Fate → Store → Reply × Store
  handle (Call.list_accounts raw) w st =
      (Reads.accounts wire.server wire.library wire.acquire w st raw, st)
  handle (Call.open_account r) w st =
      Writes.open_account_handler wire.server wire.library wire.decoder wire.fingerprint
        wire.acquire w st r
  handle (Call.read_balance code) w st =
      (Reads.balance wire.server wire.library wire.acquire w st code, st)
  handle Call.read_trial w st = (Reads.trial wire.server wire.library wire.acquire w st, st)
  handle (Call.post_transaction r) w st =
      Writes.post_transaction wire.server wire.library wire.decoder wire.fingerprint wire.acquire w
        st r
  handle (Call.read_transaction id) w st =
      (Reads.transaction wire.server wire.library wire.acquire w st id, st)

  -- The store behind a run of calls, each with its own fate.
  unfoldable pub serve_all : List (Call × Fate) → Store → Store
  serve_all [] st = st
  serve_all ((c, w) ∷ calls) st = serve_all calls (handle c w st).1
