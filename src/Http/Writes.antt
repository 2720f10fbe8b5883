-- ===== src/Http/Writes.antt =====
-- internal/ledgerhttp: the two handlers that write (postTransaction of transactions.go, openAccount
-- of accounts.go), from a request to the reply and the store behind it.
pub mod Becomes
pub mod Opens
use pacioli.Prelude.{
  ℕ, ◌≡◌, Bool, true, false, Option, none, some, List, [], ◌∷◌, String, str_eq, ltb, length, ◌==◌,
  if◌then◌else◌,
}
use pacioli.Prelude.Int.{ℤ, pos}
use pacioli.Failure.{Result, ok, err}
use pacioli.Schema.Server.{Server}
use pacioli.Session.{Tx, pure, ◌>>=◌, ◌>>◌}
use pacioli.Ledger.Entry.{Leg, Entry}
use pacioli.Ledger.Post.{post_entry}
use pacioli.Ledger.Once.{Claim, Record, once}
use pacioli.Ledger.Open.{Account, open_account}
use pacioli.Ledger.Read.{Balance, balance_of, entry_of}
use pacioli.Http.Pool.{Store, Fate, write}
use pacioli.Http.Wire.{
  Library, no_body, Body, Reply, reply, refusal_reply, internal_error, home, shown, glued,
  entry_body, balance_of_body,
}
use pacioli.Http.Refusals.{TransactionRequest, refuse, refuse_account}
use pacioli.Http.Json.{Val, Vals, transaction_struct, account_struct, posting_shape}
use pacioli.Http.Decode.{Decoder, Decoded, decode}

-- A request, its headers "" where they are not set.
pub record Request : Type 0 where
  pub content_type : String
  pub idempotency_key : String
  pub body : String

-- mime.ParseMediaType, json.Marshal of a request and sha256.Sum256.
pub record Fingerprint : Type 0 where
  pub media_type : String → Option String
  pub marshal : TransactionRequest → Option String
  pub sha256 : String → List ℕ
  pub sha256_size : (s : String) → (length (sha256 s) == 32) ≡ true

abbrev is_json : Option String → Bool
is_json none = false
is_json (some media) = str_eq media "application/json"

-- declaredJSON
unfoldable pub declared_json : Fingerprint → Request → Bool
declared_json fp r = is_json (fp.media_type r.content_type)

unfoldable pub not_declared : Request → Reply
not_declared r = refusal_reply 415 (record no_body {
  error = "this endpoint takes only a json body, and the request does not declare one";
  parameter = "Content-Type";
  value = shown r.content_type;
  expected = "application/json";
  see = home;
})

abbrev pub max_transaction_body : ℕ
max_transaction_body = 262144

abbrev pub max_account_body : ℕ
max_account_body = 4096

abbrev pub max_postings : ℕ
max_postings = 1000

abbrev leg_of : Val posting_shape → Leg
leg_of (account, (amount, u)) = record { account = account; amount_minor = amount }

abbrev pub legs_of_postings : List (Val posting_shape) → List Leg
legs_of_postings [] = []
legs_of_postings (p ∷ ps) = leg_of p ∷ legs_of_postings ps

-- The decoded struct, under its own names.
abbrev pub transaction_request : Vals transaction_struct → TransactionRequest
transaction_request (currency, (description, (postings, (occurred_at, u)))) = record {
  currency = currency;
  description = description;
  postings = legs_of_postings postings;
  occurred_at = occurred_at;
}

abbrev pub account_request : Vals account_struct → Account
account_request (code, (name, (kind, (currency, u)))) = record {
  code = code;
  name = name;
  kind = kind;
  currency = currency;
}

abbrev pub entry_of_request : TransactionRequest → Entry
entry_of_request req = record {
  currency = req.currency;
  description = req.description;
  legs = req.postings;
  occurred_at = req.occurred_at;
}

-- claimOf
unfoldable pub claim_of : Fingerprint → String → TransactionRequest → Option Claim
claim_of fp key req = elim (fp.marshal req) [
  | none ↦ none
  | some canonical ↦ some (record { key = key; request_hash = fp.sha256 canonical })
]

-- What the write hands back: the record, and the stored entry where it is a replay.
abbrev pub Outcome : Type 0
Outcome = Record × Option Entry

module _ (pg : Server) where
  abbrev pub read_back : Record → Bool → Tx Outcome
  read_back rec false = pure (rec, none)
  read_back rec true = do found ← entry_of pg rec.transaction; pure (rec, some found.1)

  -- The body of Write: the reservation, the post and the read-back.
  unfoldable pub write_entry : Claim → Entry → Tx Outcome
  write_entry claim e = do rec ← once pg claim (post_entry pg e); read_back rec rec.replayed

  -- The body of Write: the open and the read-back.
  unfoldable pub write_account : Account → Tx Balance
  write_account a = do open_account pg a; balance_of a.code

module _ (pg : Server) (lib : Library) (dec : Decoder) (fp : Fingerprint) (acquire : ℤ) (w : Fate)
    (st : Store) where
  abbrev at_transaction : String → Reply → Reply
  at_transaction id r = record r { location = glued "/v1/transactions/" id }

  -- The answer to a write that was taken.
  abbrev pub taken : TransactionRequest → Record → Option Entry → Reply
  taken req rec (some stored) =
      at_transaction rec.transaction
        (record (reply 201 (Body.entry (entry_body rec.transaction stored))) { replayed = true })
  taken req rec none = at_transaction rec.transaction (
      reply 201 (
        Body.entry (record {
          transaction = rec.transaction;
          currency = req.currency;
          description = req.description;
          postings = req.postings;
        })))

  abbrev pub entry_reply : TransactionRequest → String → Result Outcome → Reply
  entry_reply req key (ok out) = taken req out.0 out.1
  entry_reply req key (err e) = refuse lib e req key

  abbrev pub post_claimed : TransactionRequest → String → Option Claim → Reply × Store
  post_claimed req key none = (internal_error, st)
  post_claimed req key (some claim) =
      let (r, st') = write acquire w (write_entry pg claim (entry_of_request req)) st in
      (entry_reply req key r, st')

  abbrev too_many : TransactionRequest → Reply
  too_many req = refusal_reply 422 (record no_body {
    error = "the entry carries more postings than this endpoint takes";
    parameter = "postings";
    value = lib.itoa (pos (length req.postings));
    expected = "at most 1000 postings";
    see = home;
  })

  abbrev pub post_request : String → TransactionRequest → Reply × Store
  post_request key req =
      if ltb max_postings (length req.postings)
      then (too_many req, st)
      else post_claimed req key (claim_of fp key req)

  abbrev pub post_decoded : String → Decoded (Vals transaction_struct) → Reply × Store
  post_decoded key (Decoded.answered r) = (r, st)
  post_decoded key (Decoded.filled v) = post_request key (transaction_request v)

  abbrev no_key : Reply
  no_key = refusal_reply 400 (record no_body {
    error = "this endpoint will not take a write it cannot make safe to retry";
    parameter = "Idempotency-Key";
    expected = "16 to 255 printable characters, no spaces";
    see = home;
  })

  -- POST /v1/transactions
  unfoldable pub post_transaction : Request → Reply × Store
  post_transaction r =
      if declared_json fp r
      then (if str_eq r.idempotency_key ""
          then (no_key, st)
          else post_decoded r.idempotency_key
              (decode lib dec transaction_struct max_transaction_body r.body))
      else (not_declared r, st)

  abbrev pub account_reply : Account → Result Balance → Reply
  account_reply a (ok b) = record (reply 201 (Body.balance (balance_of_body b))) {
    location = glued "/v1/accounts/" a.code;
  }
  account_reply a (err e) = refuse_account lib e a

  abbrev pub open_decoded : Decoded (Vals account_struct) → Reply × Store
  open_decoded (Decoded.answered r) = (r, st)
  open_decoded (Decoded.filled v) =
      let a = account_request v in
      let (r, st') = write acquire w (write_account pg a) st in (account_reply a r, st')

  -- POST /v1/accounts
  unfoldable pub open_account_handler : Request → Reply × Store
  open_account_handler r =
      if declared_json fp r
      then open_decoded (decode lib dec account_struct max_account_body r.body)
      else (not_declared r, st)
