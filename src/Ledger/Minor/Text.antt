-- ===== src/Ledger/Minor/Text.antt =====
-- internal/ledger/minor.go: an amount as decimal digits, written and read (String, MarshalJSON,
-- UnmarshalJSON, Scan). A text is the list of its bytes.
pub mod Reads
use pacioli.Prelude.{
  ℕ, zero, suc, ◌+◌, ◌-◌, ◌*◌, ◌/◌, ◌%◌, Bool, true, false, Option, none, some, List, [], ◌∷◌, ltb,
  ◌==◌, ◌||◌, if◌then◌else◌,
}
use pacioli.Prelude.Int.{ℤ, pos, negsuc, sub_ℕ}
use pacioli.Failure.{Failure, Result, ok, err}
use pacioli.Ledger.Minor.{Minor, minor_of}

-- The digits of a number before `out`; a round takes one digit.
abbrev pub digits : ℕ → ℕ → List ℕ → List ℕ
digits zero n out = out
digits (suc fuel) zero out = out
digits (suc fuel) (suc n) out = digits fuel (suc n / 10) ((b'0' + suc n % 10) ∷ out)

abbrev pub decimal : ℕ → List ℕ
decimal zero = b'0' ∷ []
decimal (suc n) = digits (suc n) (suc n) []

-- String: big.Int's
unfoldable pub string : Minor → List ℕ
string (pos n) = decimal n
string (negsuc n) = b'-' ∷ decimal (suc n)

unfoldable pub marshal_json : Minor → Result (List ℕ)
unfolding string
marshal_json m = ok (string m)

abbrev pub is_digit : ℕ → Bool
is_digit c = if ltb c b'0' then false else ltb c (suc b'9')

-- The digits behind the number that is read already.
unfoldable pub read_digits : List ℕ → ℕ → Option ℕ
read_digits [] n = some n
read_digits (c ∷ s) n =
    let rest = read_digits s (n * 10 + (c - b'0')) in if is_digit c then rest else none

unfoldable pub read_numeral : List ℕ → Option ℕ
read_numeral [] = none
read_numeral (c ∷ s) = read_digits (c ∷ s) 0

abbrev pub signed : (ℕ → Minor) → Option ℕ → Option Minor
signed f none = none
signed f (some n) = some (f n)

abbrev pub negated : ℕ → Minor
negated n = sub_ℕ 0 n

-- big.Int's SetString in base ten: a sign or none, and one digit or more, to the end
unfoldable pub set_string : List ℕ → Option Minor
set_string [] = none
set_string (c ∷ s) =
    if c == b'-'
    then signed negated (read_numeral s)
    else if c == b'+'
    then signed pos (read_numeral s)
    else signed pos (read_numeral (c ∷ s))

abbrev pub whole : Option Minor → Result Minor
whole none = err (Failure.plain "read as a whole number of minor units")
whole (some m) = ok m

unfoldable pub unmarshal_json : List ℕ → Result Minor
unmarshal_json b = whole (set_string b)

-- What a driver hands to Scan.
pub data Source : Type 0 where
  nil : Source
  int64 : ℤ → Source
  text : List ℕ → Source
  bytes : List ℕ → Source
  other : Source

unfoldable pub scan : Source → Result Minor
scan Source.nil = ok (pos 0)
scan (Source.int64 v) = ok (minor_of v)
scan (Source.text s) = whole (set_string s)
scan (Source.bytes s) = whole (set_string s)
scan Source.other = err (Failure.plain "read as minor units")
