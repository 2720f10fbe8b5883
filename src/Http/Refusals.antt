-- ===== src/Http/Refusals.antt =====
-- internal/ledgerhttp: the status and the body of a refusal (notReached, fail, refuse,
-- refuseAccount).
use pacioli.Prelude.{
  ℕ, Bool, true, false, ◌&&◌, ◌||◌, Option, none, some, List, [], ◌∷◌, String, str_eq, ltb, ◌==◌,
  length, if◌then◌else◌,
}
use pacioli.Prelude.Int.{pos}
use pacioli.Failure.{Failure, Sentinel, DriverError, LegFault, is, as_server, as_leg, or_else}
use pacioli.Schema.Server.{codes, char_length}
use pacioli.Ledger.Entry.{Leg, sum_from, starts_with}
use pacioli.Ledger.Minor.{Minor, no_units}
use pacioli.Ledger.Open.{Account}
use pacioli.Http.Wire.{
  Library, ErrorBody, no_body, Body, Reply, refusal_reply, reply, internal_error, home, shown,
  glued, retry_seconds,
}

-- errors.As into an *OverloadError.
abbrev pub as_overload : Failure → Option ℕ
as_overload (Failure.overload c) = some c
as_overload (Failure.wrap m e) = as_overload e
as_overload (Failure.join a b) = or_else (as_overload a) (as_overload b)
as_overload (Failure.leg l e) = as_overload e
as_overload (Failure.bad_kind_of k v e) = as_overload e
as_overload _ = none

abbrev as_kinds : Failure → Option (List String)
as_kinds (Failure.bad_kind k v) = some v
as_kinds (Failure.bad_kind_of k v e) = some v
as_kinds (Failure.wrap m e) = as_kinds e
as_kinds (Failure.join a b) = or_else (as_kinds a) (as_kinds b)
as_kinds (Failure.leg l e) = as_kinds e
as_kinds _ = none

-- errors.As into an *UnknownKindError, and its Valid.
unfoldable pub valid_kinds : Failure → List String
valid_kinds e = elim (as_kinds e) [ none ↦ [] | some v ↦ v ]

abbrev gives_up : DriverError → Bool
gives_up DriverError.canceled = true
gives_up DriverError.deadline_exceeded = true
gives_up DriverError.bad_conn = true
gives_up _ = false

unfoldable pub cancelled : Failure → Bool
cancelled (Failure.driver d) = gives_up d
cancelled (Failure.wrap m e) = cancelled e
cancelled (Failure.join a b) = cancelled a || cancelled b
cancelled (Failure.leg l e) = cancelled e
cancelled (Failure.bad_kind_of k v e) = cancelled e
cancelled _ = false

abbrev pub gave_up : Reply
gave_up = refusal_reply 503 (record no_body {
  error = "the ledger did not get to this request and nothing was written";
  expected =
      "the same request again; a write carries its idempotency key, so sending it twice cannot post it twice";
  see = home;
})

unfoldable pub busy : Library → ℕ → Reply
busy lib ceiling =
    record (refusal_reply 503 (record no_body {
      error =
          "the ledger is busy and had no free connection for this request, so nothing was written";
      expected = glued "the same request again after " (
          glued (lib.duration_text ceiling)
            "; a write carries its idempotency key, so sending it twice cannot post it twice");
      see = home;
    })) { retry_after = lib.itoa (pos (retry_seconds ceiling)) }

-- The answer where the ledger was not reached.
unfoldable pub not_reached : Library → Failure → Option Reply
not_reached lib e = elim (as_overload e) [
  | some ceiling ↦ some (busy lib ceiling)
  | none ↦ if cancelled e then some gave_up else none
]

abbrev pub if_reached : Library → Failure → Reply → Reply
if_reached lib e r = elim (not_reached lib e) [ none ↦ r | some given ↦ given ]

-- What `fail` answers an error that the ledger gave.
abbrev pub failed : Failure → ErrorBody → Reply
failed e named =
    if is Sentinel.unknown_account e
    then refusal_reply 404 (record named { error = "no such account" })
    else if is Sentinel.unknown_kind e
    then refusal_reply 400 (record named { error = "no such account kind"; valid = valid_kinds e })
    else if is Sentinel.bad_transaction_id e
    then refusal_reply 400 (record named {
      error = "that is not a transaction id";
      expected = "the uuid POST /v1/transactions answered with";
    })
    else if is Sentinel.unknown_transaction e
    then refusal_reply 404 (record named { error = "no such transaction" })
    else internal_error

unfoldable pub fail : Library → Failure → ErrorBody → Reply
fail lib e named = if_reached lib e (failed e (record named { see = home }))

-- ledger.NotBlank
abbrev not_blank : String
not_blank = "at least one that is not a space, a tab or a line break, and no control characters"

-- bounded: the shape in words and the most characters
abbrev bounded : String → Option (String × ℕ)
bounded field =
    if str_eq field "code"
    then some (
      "1 to 64 characters: a lower-case letter, then lower-case letters, digits, underscores and dots",
      64,
    )
    else if str_eq field "name"
    then some (glued "1 to 100 characters, " not_blank, 100)
    else if str_eq field "description"
    then some (glued "1 to 500 characters, " not_blank, 500)
    else none

-- bound
unfoldable pub bound : String → String → ErrorBody → ErrorBody
bound field value body = elim (bounded field) [
  | none ↦ body
  | some b ↦
      let n = char_length value in
      record body { expected = b.0; characters = if ltb b.1 n then n else body.characters }
]

-- strings.TrimSuffix and strings.TrimPrefix, on code points
abbrev same_codes : List ℕ → List ℕ → Bool
same_codes s t = length s == length t && starts_with s t

abbrev trim_suffix : List ℕ → List ℕ → List ℕ
trim_suffix suffix [] = []
trim_suffix suffix (c ∷ s) =
    let rest = c ∷ trim_suffix suffix s in if same_codes suffix (c ∷ s) then [] else rest

abbrev drop_over : List ℕ → List ℕ → List ℕ
drop_over [] s = s
drop_over (c ∷ p) [] = []
drop_over (c ∷ p) (d ∷ s) = drop_over p s

abbrev trim_prefix : List ℕ → List ℕ → List ℕ
trim_prefix p s = if starts_with p s then drop_over p s else s

-- slices.Contains, with the name that it found
abbrev named_in : List String → List ℕ → String
named_in [] name = ""
named_in (f ∷ fs) name = if same_codes (codes f) name then f else named_in fs name

-- refusedField
unfoldable pub refused_field : Failure → List String → String
refused_field e fields = elim (as_server e) [
  | none ↦ ""
  | some p ↦
      if str_eq p.constraint_name ""
      then ""
      else named_in fields (
          trim_prefix (codes (glued p.table_name "_"))
            (trim_suffix (codes "_check") (codes p.constraint_name)))
]

-- transactionRequest, decoded; no instant where `occurred_at` is absent
pub record TransactionRequest : Type 0 where
  pub currency : String
  pub description : String
  pub postings : List Leg
  pub occurred_at : Option ℕ

abbrev amount_text : Library → Option LegFault → String
amount_text lib none = ""
amount_text lib (some leg) = lib.itoa leg.amount_minor

-- transactionRequest.value
unfoldable pub value_of : Library → TransactionRequest → String → Option LegFault → String
value_of lib t field leg =
    if str_eq field "currency"
    then t.currency
    else if str_eq field "description"
    then t.description
    else if str_eq field "amount_minor"
    then amount_text lib leg
    else ""

-- transactionRequest.net
unfoldable pub net_of_request : TransactionRequest → Minor × ℕ
net_of_request t = (sum_from no_units t.postings, length t.postings)

abbrev transaction_fields : List String
transaction_fields =
    "account" ∷ "amount_minor" ∷ "currency" ∷ "description" ∷ "occurred_at" ∷ "postings" ∷ []

abbrev leg_named : Library → Option LegFault → ErrorBody
leg_named lib none = no_body
leg_named lib (some leg) = record no_body {
  parameter = glued "postings[" (glued (lib.itoa leg.index) "]");
  code = shown leg.account;
}

abbrev only_holds : Option LegFault → List String
only_holds none = []
only_holds (some leg) = if str_eq leg.holds "" then [] else leg.holds ∷ []

abbrev with_parameter : Option LegFault → String → ErrorBody → ErrorBody
with_parameter none field named = record named { parameter = field }
with_parameter (some leg) field named = named

-- The field that a check refused, what was sent in it and the rule that it broke.
abbrev refused_in : Library → TransactionRequest → Option LegFault → String → ErrorBody → ErrorBody
refused_in lib req leg field named =
    if str_eq field ""
    then named
    else let value = value_of lib req field leg in
      bound field value (record (with_parameter leg field named) { value = shown value })

abbrev refused_entry :
    Library → Failure → TransactionRequest → String → Option LegFault → ErrorBody → Reply
refused_entry lib e req key leg named =
    if is Sentinel.key_reused e
    then refusal_reply 409 (record no_body {
      error = "the idempotency key was used for a different request";
      parameter = "Idempotency-Key";
      value = shown key;
      expected = "a key this endpoint has not seen, or the same request it was first sent with";
      see = home;
    })
    else if is Sentinel.bad_key e
    then refusal_reply 422 (record no_body {
      error = "the ledger will not hold that idempotency key";
      parameter = "Idempotency-Key";
      value = shown key;
      expected = "16 to 255 printable characters, no spaces";
      see = home;
    })
    else if is Sentinel.unbalanced e
    then reply 422 (
        Body.unbalanced (record {
          error = "the transaction does not balance";
          net_minor = (net_of_request req).0;
          postings = (net_of_request req).1;
          expected = "postings that net to 0; debits are positive and credits negative";
          see = home;
        }))
    else if is Sentinel.unknown_account e
    then refusal_reply 422 (record named { error = "no such account" })
    else if is Sentinel.currency_mismatch e
    then refusal_reply 422 (record named {
      error = "the account does not hold the transaction's currency";
      value = shown req.currency;
      valid = only_holds leg;
    })
    else if is Sentinel.rejected e
    then refusal_reply 422 (
        refused_in lib req leg (refused_field e transaction_fields)
          (record named { error = "the ledger refused the transaction" }))
    else internal_error

unfoldable pub refuse : Library → Failure → TransactionRequest → String → Reply
refuse lib e req key =
    let leg = as_leg e in
    if_reached lib e (refused_entry lib e req key leg (record (leg_named lib leg) { see = home }))

-- accountRequest.value
unfoldable pub account_value : Account → String → String
account_value req field =
    if str_eq field "code"
    then req.code
    else if str_eq field "name"
    then req.name
    else if str_eq field "kind"
    then req.kind
    else if str_eq field "currency"
    then req.currency
    else ""

abbrev account_fields : List String
account_fields = "code" ∷ "currency" ∷ "kind" ∷ "name" ∷ []

abbrev account_refused_in : Account → String → ErrorBody → ErrorBody
account_refused_in req field body =
    if str_eq field ""
    then body
    else let value = account_value req field in
      bound field value (record body { parameter = field; value = shown value })

abbrev refused_account : Failure → Account → Reply
refused_account e req =
    if is Sentinel.account_exists e
    then refusal_reply 409 (record no_body {
      error = "an account already holds that code";
      parameter = "code";
      value = shown req.code;
      expected = "a code no account holds";
      see = glued "GET /v1/accounts/" (glued (shown req.code) (glued " says what holds it; " home));
    })
    else if is Sentinel.unknown_kind e
    then refusal_reply 422 (record no_body {
      error = "no such account kind";
      parameter = "kind";
      value = shown req.kind;
      valid = valid_kinds e;
      see = home;
    })
    else if is Sentinel.rejected e
    then refusal_reply 422 (
        account_refused_in req (refused_field e account_fields) (record no_body {
          error = "the ledger will not hold that account";
          code = shown req.code;
          see = home;
        }))
    else internal_error

unfoldable pub refuse_account : Library → Failure → Account → Reply
refuse_account lib e req = if_reached lib e (refused_account e req)
