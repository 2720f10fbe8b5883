-- ===== src/Http/Decode.antt =====
-- internal/ledgerhttp/decode.go: a json value read into a Go type, with every fault under it, and
-- what a body that cannot be read is answered. `Decoder` is what encoding/json, time and strconv do.
pub mod Conforms
pub mod Found
pub mod Exact
pub mod RoundTrip
use Prim.Native.Char.{code}
use pacioli.Prelude.{
  ℕ, zero, suc, Bool, true, false, not, Option, none, some, List, [], ◌∷◌, ◌++◌, String, str_eq,
  ltb, ◌==◌, length, map, if◌then◌else◌,
}
use pacioli.Prelude.Int.{ℤ, pos}
use pacioli.Ledger.Read.{contains}
use pacioli.Http.Wire.{
  Library, BadField, ErrorBody, no_body, Reply, refusal_reply, home, shown, glued, insert_name,
}
use pacioli.Http.Json.{
  Json, Items, Members, items, members, lookup, Shape, Fields, Val, Vals, zero_of, zeros_of, names,
}

-- What the two calls of Decode make of a body: a value, and whether nothing follows it, or the
-- error of the first call.
pub data Sent : Type 0 where
  value : Json → Bool → Sent
  too_large : ℕ → Sent
  nothing : Sent
  bad_syntax : ℕ → Sent
  cut_short : Sent
  unread : Sent

pub record Decoder : Type 0 where
  -- json.Decoder over http.MaxBytesReader
  pub split : ℕ → String → Sent
  -- a number's literal as an int64, and a string as a time.Time; none where json.Unmarshal refuses
  pub int64_of : String → Option ℤ
  pub time_of : String → Option (Option ℕ)
  -- strconv.Quote
  pub quote : String → String

-- leaf: what stands behind the last dot
abbrev behind_dot : String → Option String
behind_dot String.[] = none
behind_dot (String.◌∷◌ c s) = elim (behind_dot s) [
  | some t ↦ some t
  | none ↦ if code c == b'.' then some s else none
]

unfoldable pub leaf : String → String
leaf path = elim (behind_dot path) [ none ↦ path | some t ↦ t ]

-- under
unfoldable pub under : String → String → String
under path name = if str_eq path "" then name else glued path (glued "." name)

-- jsonKind, on the types that a request has
unfoldable pub json_kind : Shape → String
json_kind Shape.text = "string"
json_kind Shape.whole = "a whole number"
json_kind Shape.instant = "an RFC 3339 timestamp"
json_kind (Shape.slice s) = "array"
json_kind (Shape.struct fs) = "object"

-- wants, with the table `shaped`
unfoldable pub wants : String → Shape → String
wants path s =
    if str_eq (leaf path) "amount_minor"
    then "a whole number of minor units, so 100.50 is 10050, from -9223372036854775808 to 9223372036854775807"
    else if str_eq (leaf path) "occurred_at"
    then "an RFC 3339 timestamp, as in 2026-09-07T14:30:00Z"
    else json_kind s

-- What json.Unmarshal makes of a value: null leaves what it is read into alone.
unfoldable pub text_of : Json → Option String
text_of Json.null = some ""
text_of (Json.str t) = some t
text_of _ = none

unfoldable pub array_of : Json → Option (List Json)
array_of Json.null = some []
array_of (Json.arr js) = some (items js)
array_of _ = none

-- isObject, and the map
unfoldable pub object_of : Json → Option (List (String × Json))
object_of (Json.obj ms) = some (members ms)
object_of _ = none

-- sent
unfoldable pub sent : Decoder → Json → String
sent dec Json.null = shown "null"
sent dec (Json.num lit) = shown lit
sent dec (Json.bool lit) = shown lit
sent dec (Json.str t) = dec.quote (shown t)
sent dec (Json.arr js) = "array"
sent dec (Json.obj ms) = "object"

-- counted: how many elements of an array field are read
unfoldable pub most_read : String → ℕ → ℕ
most_read path n = if str_eq (leaf path) "postings" then (if ltb 1000 n then 1000 else n) else n

abbrev pub at_index : Library → String → ℕ → String
at_index lib path i = glued path (glued "[" (glued (lib.itoa (pos i)) "]"))

-- The names of a body, sorted.
unfoldable pub sorted_names : Library → List String → List String
sorted_names lib [] = []
sorted_names lib (n ∷ ns) = insert_name lib n (sorted_names lib ns)

abbrev pub names_of : List (String × Json) → List String
names_of [] = []
names_of ((n, j) ∷ ms) = n ∷ names_of ms

abbrev pub no_such_field : Library → Fields → String → String → BadField
no_such_field lib fs path name = record {
  parameter = under path name;
  value = "";
  expected = "";
  valid = sorted_names lib (names fs);
  unknown = true;
}

-- The names that the struct does not define.
unfoldable pub undefined_in : Library → Fields → String → List String → List BadField
undefined_in lib fs path [] = []
undefined_in lib fs path (n ∷ ns) =
    let rest = undefined_in lib fs path ns in
    if contains (names fs) n then rest else no_such_field lib fs path n ∷ rest

-- What decode leaves the handler with: the value, or the reply that it wrote.
pub data Decoded (A : Type 0) : Type 0 where
  filled : A → Decoded A
  answered : Reply → Decoded A

module _ (lib : Library) (dec : Decoder) where
  unfoldable pub whole_of : Json → Option ℤ
  whole_of Json.null = some (pos 0)
  whole_of (Json.num lit) = dec.int64_of lit
  whole_of _ = none

  unfoldable pub instant_of : Json → Option (Option ℕ)
  instant_of Json.null = some none
  instant_of (Json.str t) = dec.time_of t
  instant_of _ = none

  abbrev pub misshapen : Json → String → String → List BadField
  misshapen j path expected =
      record {
        parameter = path;
        value = sent dec j;
        expected = expected;
        valid = [];
        unknown = false;
      }
      ∷ []

  -- readLeaf
  abbrev pub read_leaf : {A : Type 0} → Json → String → String → A → Option A → List BadField × A
  read_leaf j path expected empty none = (misshapen j path expected, empty)
  read_leaf j path expected empty (some v) = ([], v)

  -- The loop of readArray: the elements that are not read are zero.
  abbrev pub read_each :
      {A : Type 0}
      → (Json → String → List BadField × A)
      → A
      → String
      → ℕ
      → ℕ
      → List Json
      → List BadField × List A
  read_each one empty path i left [] = ([], [])
  read_each one empty path i zero (j ∷ js) =
      let (bad, vs) = read_each one empty path (suc i) zero js in (bad, empty ∷ vs)
  read_each one empty path i (suc left) (j ∷ js) =
      let (bad, v) = one j (at_index lib path i) in
      let (bad', vs) = read_each one empty path (suc i) left js in (bad ++ bad', v ∷ vs)

  abbrev pub read_array :
      {A : Type 0}
      → (Json → String → List BadField × A)
      → A
      → String
      → Json
      → String
      → Option (List Json)
      → List BadField × List A
  read_array one empty expected j path none = (misshapen j path expected, [])
  read_array one empty expected j path (some js) =
      read_each one empty path 0 (most_read path (length js)) js

  -- `if item, ok := got[name]; ok`
  abbrev pub read_given :
      {A : Type 0}
      → (Json → String → List BadField × A)
      → A
      → String
      → Option Json
      → List BadField × A
  read_given one empty path none = ([], empty)
  read_given one empty path (some j) = one j path

  abbrev pub read_object :
      {A : Type 0}
      → (List (String × Json) → String → List BadField × A)
      → A
      → Fields
      → Json
      → String
      → Option (List (String × Json))
      → List BadField × A
  read_object all empty fs j path none = (misshapen j path "object", empty)
  read_object all empty fs j path (some got) =
      let (bad, v) = all got path in
      (bad ++ undefined_in lib fs path (sorted_names lib (names_of got)), v)

  -- readValue, readArray and readObject
  unfoldable mutual
    pub read_value : (s : Shape) → Json → String → List BadField × Val s
    read_value Shape.text j path =
        read_leaf j path (wants path Shape.text) (zero_of Shape.text) (text_of j)
    read_value Shape.whole j path =
        read_leaf j path (wants path Shape.whole) (zero_of Shape.whole) (whole_of j)
    read_value Shape.instant j path =
        read_leaf j path (wants path Shape.instant) (zero_of Shape.instant) (instant_of j)
    read_value (Shape.slice s) j path =
        read_array (read_value s) (zero_of s) (wants path (Shape.slice s)) j path (array_of j)
    read_value (Shape.struct fs) j path =
        read_object (read_fields fs) (zeros_of fs) fs j path (object_of j)

    pub read_fields : (fs : Fields) → List (String × Json) → String → List BadField × Vals fs
    read_fields Fields.done got path = ([], tt)
    read_fields (Fields.field n s fs) got path =
        let (bad, v) = read_given (read_value s) (zero_of s) (under path n) (lookup n got) in
        let (bad', vs) = read_fields fs got path in (bad ++ bad', (v, vs))

  -- refuseFields
  abbrev several_or : BadField → List BadField → ErrorBody → ErrorBody
  several_or b (c ∷ bad) body = record body {
    error = "the request body carries fields this endpoint cannot read";
    fields = b ∷ c ∷ bad;
  }
  several_or b [] body =
      if b.unknown
      then record body { error = "no such field" }
      else record body { error = "the field is not the shape this endpoint takes" }

  unfoldable pub refuse_fields : BadField → List BadField → Reply
  refuse_fields b bad = refusal_reply 400 (
      several_or b bad (record no_body {
        parameter = b.parameter;
        value = b.value;
        expected = b.expected;
        valid = b.valid;
        see = home;
      }))

  abbrev pub if_no_fault : {A : Type 0} → List BadField → A → Decoded A
  if_no_fault [] v = Decoded.filled v
  if_no_fault (b ∷ bad) v = Decoded.answered (refuse_fields b bad)

  abbrev pub read_body : (fs : Fields) → Json → Bool → Decoded (Vals fs)
  read_body fs j false = Decoded.answered (
      refusal_reply 400 (record no_body {
        error = "the request body carries more than one json value";
        expected = "one json object, and nothing after it";
        see = home;
      }))
  read_body fs j true = elim (object_of j) [
    | none ↦ Decoded.answered (
        refusal_reply 400 (record no_body {
          error = "the request body is json this endpoint does not take";
          value = sent dec j;
          expected = "one json object";
          see = home;
        }))
    | some got ↦ let (bad, v) = read_value (Shape.struct fs) j "" in if_no_fault bad v
  ]

  abbrev not_json : ErrorBody
  not_json = record no_body {
    error = "the request body is not json this endpoint can read";
    see = home;
  }

  -- unreadable, where the first call fails
  abbrev pub answer_sent : (fs : Fields) → Sent → Decoded (Vals fs)
  answer_sent fs (Sent.value j ends) = read_body fs j ends
  answer_sent fs (Sent.too_large limit) = Decoded.answered (
      refusal_reply 413 (record no_body {
        error = "the request body is larger than this endpoint accepts";
        expected = glued "at most " (glued (lib.itoa (pos limit)) " bytes");
        see = home;
      }))
  answer_sent fs Sent.nothing = Decoded.answered (
      refusal_reply 400 (record no_body {
        error = "the request body is empty";
        expected = "one json object";
        see = home;
      }))
  answer_sent fs (Sent.bad_syntax offset) =
      Decoded.answered
        (refusal_reply 400 (record not_json { value = glued "byte " (lib.itoa (pos offset)) }))
  answer_sent fs Sent.cut_short =
      Decoded.answered
        (refusal_reply 400 (record not_json { expected = "one complete json object" }))
  answer_sent fs Sent.unread = Decoded.answered (refusal_reply 400 not_json)

  unfoldable pub decode : (fs : Fields) → ℕ → String → Decoded (Vals fs)
  decode fs ceiling body = answer_sent fs (dec.split ceiling body)
