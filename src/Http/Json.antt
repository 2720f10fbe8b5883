-- ===== src/Http/Json.antt =====
-- What internal/ledgerhttp/decode.go reads and into what: a json value as encoding/json splits it,
-- the Go types that reflection walks over, and the values of those types.
use pacioli.Prelude.{ℕ, Bool, Option, none, some, List, [], ◌∷◌, String, str_eq, if◌then◌else◌}
use pacioli.Prelude.Int.{ℤ, pos}

-- A json.RawMessage. A number, and `true` or `false`, is its own literal; a string is unquoted.
mutual
  pub data Json : Type 0 where
    null : Json
    num : String → Json
    bool : String → Json
    str : String → Json
    arr : Items → Json
    obj : Members → Json

  pub data Items : Type 0 where
    nil : Items
    cons : Json → Items → Items

  pub data Members : Type 0 where
    end : Members
    member : String → Json → Members → Members

abbrev pub items : Items → List Json
items nil = []
items (cons j js) = j ∷ items js

abbrev pub members : Members → List (String × Json)
members end = []
members (member n j ms) = (n, j) ∷ members ms

-- An entry of a map[string]json.RawMessage: where a body gives a name twice, the last one is kept.
abbrev pub later_or : Option Json → Bool → Json → Option Json
later_or (some j) same k = some j
later_or none same k = if same then some k else none

unfoldable pub lookup : String → List (String × Json) → Option Json
lookup n [] = none
lookup n ((m, j) ∷ ms) = later_or (lookup n ms) (str_eq m n) j

-- The types of the request bodies: string, int64, time.Time, a slice, and a struct with json names.
mutual
  pub data Shape : Type 0 where
    text : Shape
    whole : Shape
    instant : Shape
    slice : Shape → Shape
    struct : Fields → Shape

  pub data Fields : Type 0 where
    done : Fields
    field : String → Shape → Fields → Fields

-- The values of a type. An instant that is zero in Go is no instant.
abbrev mutual
  pub Val : Shape → Type 0
  Val text = String
  Val whole = ℤ
  Val instant = Option ℕ
  Val (slice s) = List (Val s)
  Val (struct fs) = Vals fs

  pub Vals : Fields → Type 0
  Vals done = Unit
  Vals (field n s fs) = Val s × Vals fs

-- Zero values.
unfoldable mutual
  pub zero_of : (s : Shape) → Val s
  zero_of text = ""
  zero_of whole = pos 0
  zero_of instant = none
  zero_of (slice s) = []
  zero_of (struct fs) = zeros_of fs

  pub zeros_of : (fs : Fields) → Vals fs
  zeros_of done = tt
  zeros_of (field n s fs) = (zero_of s, zeros_of fs)

-- The json names of a struct, in the order of its fields.
abbrev pub names : Fields → List String
names done = []
names (field n s fs) = n ∷ names fs

-- postingBody, transactionRequest and accountRequest
abbrev pub posting_shape : Shape
posting_shape = struct (field "account" text (field "amount_minor" whole done))

abbrev pub transaction_struct : Fields
transaction_struct = field "currency" text (
    field "description" text
      (field "postings" (slice posting_shape) (field "occurred_at" instant done)))

abbrev pub account_struct : Fields
account_struct =
    field "code" text (field "name" text (field "kind" text (field "currency" text done)))
