-- ===== src/Schema/Server.antt =====
-- What internal/schema/0001_ledger.sql and the statements of internal/ledger leave to the Postgres
-- server: character classes, the collation's order, and the text of a uuid. It is a parameter.
use Prim.Native.Char.{code}
use pacioli.Prelude.{
  ℕ, ◌≡◌, Bool, true, false, ◌&&◌, ◌||◌, not, Option, some, List, [], ◌∷◌, String, leb, ◌==◌,
  length,
}

-- A uuid is known by the number of the statement that drew it.
abbrev pub Uuid : Type 0
Uuid = ℕ

pub record Server : Type 0 where
  -- [[:space:]], [[:cntrl:]] and [[:graph:]], on a character's code point
  pub space : ℕ → Bool
  pub cntrl : ℕ → Bool
  pub graph : ℕ → Bool
  -- `a < b` on text
  pub before : String → String → Bool
  -- `u::text` and `s::uuid`; no text where the cast is refused
  pub uuid_text : Uuid → String
  pub uuid_of : String → Option Uuid
  -- what a timestamptz column keeps of an instant, which is its microseconds
  pub timestamptz : ℕ → ℕ
  pub uuid_of-uuid_text : (u : Uuid) → uuid_of (uuid_text u) ≡ some u

-- The characters of a text, by code point.
abbrev pub codes : String → List ℕ
codes String.[] = []
codes (String.◌∷◌ c s) = code c ∷ codes s

abbrev pub char_length : String → ℕ
char_length s = length (codes s)

abbrev pub some_char : (ℕ → Bool) → List ℕ → Bool
some_char p [] = false
some_char p (c ∷ s) = p c || some_char p s

abbrev pub every_char : (ℕ → Bool) → List ℕ → Bool
every_char p [] = true
every_char p (c ∷ s) = p c && every_char p s

abbrev pub is_lower : ℕ → Bool
is_lower c = leb b'a' c && leb c b'z'

abbrev pub is_upper : ℕ → Bool
is_upper c = leb b'A' c && leb c b'Z'

abbrev pub is_digit : ℕ → Bool
is_digit c = leb b'0' c && leb c b'9'

-- [a-z0-9_.]
abbrev pub is_code_char : ℕ → Bool
is_code_char c = is_lower c || is_digit c || c == b'_' || c == b'.'

-- ^[a-z][a-z0-9_.]{0,63}$
unfoldable pub matches_code : List ℕ → Bool
matches_code [] = false
matches_code (c ∷ s) = is_lower c && every_char is_code_char s && leb (length s) 63

-- ^[A-Z]{3}$
unfoldable pub matches_currency : List ℕ → Bool
matches_currency s = length s == 3 && every_char is_upper s

module _ (pg : Server) where
  unfoldable pub is_blank : List ℕ → Bool
  is_blank s = not (some_char (λ c. not (pg.space c)) s)

  unfoldable pub has_control_character : List ℕ → Bool
  has_control_character s = some_char pg.cntrl s

  -- NOT is_blank(s) AND NOT has_control_character(s) AND char_length(s) <= most
  unfoldable pub is_words : ℕ → String → Bool
  unfolding is_blank has_control_character
  is_words most s =
      not (is_blank (codes s)) && not (has_control_character (codes s)) && leb (char_length s) most

  -- ^[[:graph:]]{16,255}$
  unfoldable pub matches_key : List ℕ → Bool
  matches_key s = leb 16 (length s) && leb (length s) 255 && every_char pg.graph s
