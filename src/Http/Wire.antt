-- ===== src/Http/Wire.antt =====
-- The values that internal/ledgerhttp answers with: errorBody, the bodies of its successes, and what
-- a handler writes. `Library` is what the handlers leave to Go's own packages.
use pacioli.Prelude.{
  ℕ, zero, suc, Bool, false, Option, List, [], ◌∷◌, String, str_eq, leb, ltb, ◌+◌, ◌/◌, ◌^◌, map,
  if◌then◌else◌,
}
use pacioli.Prelude.Int.{ℤ}
use pacioli.Schema.Server.{char_length}
use pacioli.Ledger.Minor.{Minor}
use pacioli.Ledger.Entry.{Leg, Entry}
use pacioli.Ledger.Read.{Balance}

pub record Library : Type 0 where
  -- url.ParseQuery, a name and a value at a time in the order sent; none where it fails
  pub parse_query : String → Option (List (String × String))
  -- url.Values.Encode
  pub encode : List (String × String) → String
  -- strconv.Atoi, strconv.Itoa and strconv.FormatInt
  pub atoi : String → Option ℤ
  pub itoa : ℤ → String
  -- time.Duration.String
  pub duration_text : ℕ → String
  -- the order of slices.Sort on strings
  pub sorts_before : String → String → Bool

-- docs.Home
abbrev pub home : String
home = "github.com/mgballou/pacioli — README.md and docs/DESIGN.md, or run `pacioli --help`"

-- slices.Sort on the names that a map holds, each of them once
abbrev pub insert_name : Library → String → List String → List String
insert_name lib n [] = n ∷ []
insert_name lib n (m ∷ ms) =
    let later = m ∷ insert_name lib n ms in
    if str_eq n m then m ∷ ms else if lib.sorts_before n m then n ∷ m ∷ ms else later

-- badField; `unknown` where the name is the fault rather than the value
pub record BadField : Type 0 where
  pub parameter : String
  pub value : String
  pub expected : String
  pub valid : List String
  pub unknown : Bool

pub record ErrorBody : Type 0 where
  pub error : String
  pub code : String
  pub parameter : String
  pub value : String
  pub expected : String
  pub characters : ℕ
  pub valid : List String
  pub fields : List BadField
  pub see : String

-- errorBody{}
abbrev pub no_body : ErrorBody
no_body = record {
  error = "";
  code = "";
  parameter = "";
  value = "";
  expected = "";
  characters = 0;
  valid = [];
  fields = [];
  see = "";
}

-- transactionBody
pub record EntryBody : Type 0 where
  pub transaction : String
  pub currency : String
  pub description : String
  pub postings : List Leg

pub record TrialBody : Type 0 where
  pub currency : String
  pub debits_minor : Minor
  pub credits_minor : Minor
  pub net_minor : Minor
  pub balanced : Bool
  pub accounts : ℕ
  pub postings : ℕ

pub record UnbalancedBody : Type 0 where
  pub error : String
  pub net_minor : Minor
  pub postings : ℕ
  pub expected : String
  pub see : String

-- `next` is "" where the field is left out.
pub record AccountListBody : Type 0 where
  pub accounts : List Balance
  pub next : String

pub data Body : Type 0 where
  refusal : ErrorBody → Body
  unbalanced : UnbalancedBody → Body
  balance : Balance → Body
  account_list : AccountListBody → Body
  trial_list : List TrialBody → Body
  entry : EntryBody → Body

-- What a handler writes: "" for a header that it does not set.
pub record Reply : Type 0 where
  pub status : ℕ
  pub location : String
  pub retry_after : String
  pub replayed : Bool
  pub body : Body

abbrev pub reply : ℕ → Body → Reply
reply status body = record {
  status = status;
  location = "";
  retry_after = "";
  replayed = false;
  body = body;
}

abbrev pub refusal_reply : ℕ → ErrorBody → Reply
refusal_reply status body = reply status (Body.refusal body)

-- errorBody{Error: "internal error"} under a 500
abbrev pub internal_error : Reply
internal_error = refusal_reply 500 (record no_body { error = "internal error" })

-- string([]rune(s)[:most]) + "…"
abbrev pub cut_at : ℕ → String → String
cut_at zero s = "…"
cut_at (suc n) String.[] = "…"
cut_at (suc n) (String.◌∷◌ c s) = String.◌∷◌ c (cut_at n s)

unfoldable pub shown : String → String
shown s = if leb (char_length s) 80 then s else cut_at 80 s

abbrev pub glued : String → String → String
glued String.[] t = t
glued (String.◌∷◌ c s) t = String.◌∷◌ c (glued s t)

abbrev pub second : ℕ
second = 1000000000

-- (d + time.Second - 1) / time.Second in int64, of a ceiling that is not negative: a sum that
-- wraps around is negative, and so is its quotient, or it is zero.
abbrev pub whole_seconds : ℕ → ℕ
whole_seconds d = if ltb (d + 999999999) (2 ^ 63) then (d + 999999999) / second else 0

-- retryAfter, before strconv.FormatInt
unfoldable pub retry_seconds : ℕ → ℕ
retry_seconds d = if ltb (whole_seconds d) 1 then 1 else whole_seconds d

-- entryBody
unfoldable pub entry_body : String → Entry → EntryBody
entry_body transaction e = record {
  transaction = transaction;
  currency = e.currency;
  description = e.description;
  postings =
      map (λ (leg : Leg). record { account = leg.account; amount_minor = leg.amount_minor }) e.legs;
}

-- balanceOf: the wire type has a domain balance's fields.
unfoldable pub balance_of_body : Balance → Balance
balance_of_body b = record {
  account = b.account;
  name = b.name;
  kind = b.kind;
  currency = b.currency;
  amount_minor = b.amount_minor;
  postings = b.postings;
}
