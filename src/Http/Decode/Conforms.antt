-- ===== src/Http/Decode/Conforms.antt =====
-- Which json values a Go type takes, said of the value alone: neither the reader's bound on postings
-- nor its look-up of a member is used.
use Prim.Native.Nat.{suc}
use pacioli.Prelude.{
  ℕ, ◌<◌, ◌≡◌, ◌≢◌, true, Option, none, some, List, [], ◌∷◌, ◌++◌, String, str_eq,
}
use pacioli.Ledger.Read.{contains}
use pacioli.Http.Wire.{Library}
use pacioli.Http.Json.{Json, items, members, Shape, Fields, names}
use pacioli.Http.Decode.{Decoder, leaf, at_index, under}

-- The member of a name is the last one that has it.
abbrev pub Unnamed : String → List (String × Json) → Type 0
Unnamed n [] = Unit
Unnamed n ((m, j) ∷ ms) = (m ≢ n) × Unnamed n ms

abbrev pub IsLast : String → Json → List (String × Json) → Type 0
IsLast n j got =
    (front : List (String × Json)) × (back : List (String × Json)) × (got ≡ front ++ (n, j) ∷ back)
    × Unnamed n back

abbrev pub Reads : {A : Type 0} → Option A → Type 0
Reads none = ⊥
Reads (some a) = Unit

-- The elements that have to conform, each at its place: of postings, the first thousand.
abbrev pub IsRead : String → ℕ → Type 0
IsRead path i = str_eq (leaf path) "postings" ≡ true → i < 1000

abbrev pub Each :
    (ℕ → Type 0) → (Json → String → Type 0) → Library → String → ℕ → List Json → Type 0
Each C P lib path i [] = Unit
Each C P lib path i (j ∷ js) = (C i → P j (at_index lib path i)) × Each C P lib path (suc i) js

abbrev pub Defines : List String → List (String × Json) → Type 0
Defines ns [] = Unit
Defines ns ((n, j) ∷ ms) = (contains ns n ≡ true) × Defines ns ms

module _ (lib : Library) (dec : Decoder) where
  -- Null conforms to all but a struct; a number has to fit an int64 and a string a time; the first
  -- thousand postings have to conform; a struct takes the names that it defines and no others.
  abbrev mutual
    pub Conforms : Shape → Json → String → Type 0
    Conforms Shape.text Json.null path = Unit
    Conforms Shape.text (Json.str t) path = Unit
    Conforms Shape.text _ path = ⊥
    Conforms Shape.whole Json.null path = Unit
    Conforms Shape.whole (Json.num lit) path = Reads (dec.int64_of lit)
    Conforms Shape.whole _ path = ⊥
    Conforms Shape.instant Json.null path = Unit
    Conforms Shape.instant (Json.str t) path = Reads (dec.time_of t)
    Conforms Shape.instant _ path = ⊥
    Conforms (Shape.slice s) Json.null path = Unit
    Conforms (Shape.slice s) (Json.arr js) path =
        Each (IsRead path) (Conforms s) lib path 0 (items js)
    Conforms (Shape.slice s) _ path = ⊥
    Conforms (Shape.struct fs) (Json.obj ms) path =
        Fit fs (members ms) path × Defines (names fs) (members ms)
    Conforms (Shape.struct fs) _ path = ⊥

    pub Fit : Fields → List (String × Json) → String → Type 0
    Fit Fields.done got path = Unit
    Fit (Fields.field n s fs) got path =
        ((j : Json) → IsLast n j got → Conforms s j (under path n)) × Fit fs got path
