-- ===== src/Http/Decode/Exact.antt =====
-- The reader finds a fault exactly where a json value does not conform.
use Prim.Native.Nat.{suc, zero}
use pacioli.Prelude.{
  ℕ, ◌≡◌, ◌↔◌, refl, sym, ap, subst, Bool, true, false, Option, none, some, List, [], ◌∷◌, ◌++◌,
  String, take, length, Bool-cases, inl, inr, str_eq, eq_iff,
}
use pacioli.Ledger.Read.{contains}
use pacioli.Http.Wire.{Library, BadField, insert_name}
use pacioli.Http.Json.{Json, items, members, lookup, Shape, Fields, Vals, zero_of, names}
use pacioli.Http.Decode.{
  Decoder, Sent, Decoded, decode, answer_sent, read_body, if_no_fault, read_value, read_fields,
  at_index, under, most_read, names_of, sorted_names, undefined_in, text_of, array_of, object_of,
  whole_of, instant_of, read_leaf, read_each, read_given,
}
use pacioli.Http.Decode.Conforms.{Reads, Defines, Conforms, Fit}
use pacioli.Http.Decode.Found.{IfGiven, IfGiven-IsLast, Taken, Taken-Each}

append-eq_nil : {A : Type 0} (xs ys : List A) → (xs ++ ys ≡ []) ↔ ((xs ≡ []) × (ys ≡ []))
append-eq_nil [] ys = (λ h. (refl, h), λ h. h.1)
append-eq_nil (x ∷ xs) ys = (λ h. cc, λ h. cc)

pub AllIn : List String → List String → Type 0
AllIn ns [] = Unit
AllIn ns (m ∷ ms) = (contains ns m ≡ true) × AllIn ns ms

module _ (lib : Library) (ns : List String) where
  insert_name-AllIn :
      (n : String) (ms : List String)
      → AllIn ns (insert_name lib n ms) ↔ ((contains ns n ≡ true) × AllIn ns ms)
  unfolding AllIn
  insert_name-AllIn n [] = (λ h. h, λ h. h)
  insert_name-AllIn n (m ∷ ms) =
      let (there, back) = insert_name-AllIn n ms in
      elim (Bool-cases (str_eq n m)) [
        | inl e ↦
            let same : n ≡ m = (eq_iff n m).0 e in
            rw e (λ h. (subst (λ k. contains ns k ≡ true) (sym same) h.0, h), λ h. h.1)
        | inr e ↦ elim (Bool-cases (lib.sorts_before n m)) [
          | inl b ↦ rw (e, b) (λ h. h, λ h. h)
          | inr b ↦
              rw (e, b)
                (λ h. ((there h.1).0, (h.0, (there h.1).1)), λ h. (h.1.0, back (h.0, h.1.1)))
        ]
      ]

  pub sorted_names-AllIn :
      (got : List (String × Json)) → AllIn ns (sorted_names lib (names_of got)) ↔ Defines ns got
  unfolding sorted_names AllIn
  sorted_names-AllIn [] = (λ h. tt, λ h. tt)
  sorted_names-AllIn ((n, j) ∷ got) =
      let (there, back) = insert_name-AllIn n (sorted_names lib (names_of got)) in
      let (there', back') = sorted_names-AllIn got in
      (λ h. ((there h).0, there' (there h).1), λ h. back (h.0, back' h.1))

pub undefined-AllIn :
    (lib : Library) (fs : Fields) (path : String) (ms : List String)
    → (undefined_in lib fs path ms ≡ []) ↔ AllIn (names fs) ms
unfolding undefined_in AllIn
undefined-AllIn lib fs path [] = (λ h. tt, λ h. refl)
undefined-AllIn lib fs path (m ∷ ms) = elim (Bool-cases (contains (names fs) m)) [
  | inl e ↦
      let (there, back) = undefined-AllIn lib fs path ms in
      rw e (λ h. (refl, there h), λ h. back h.1)
  | inr e ↦ rw e (λ h. cc, λ h. cc)
]

module _ (lib : Library) (dec : Decoder) where
  leaf-Reads :
      {A : Type 0} (j : Json) (path expected : String) (z : A) (o : Option A)
      → ((read_leaf lib dec j path expected z o).0 ≡ []) ↔ Reads o
  leaf-Reads j path expected z none = (λ h. cc, λ h. absurd h)
  leaf-Reads j path expected z (some v) = (λ h. tt, λ h. refl)

  read_each-Each :
      {A : Type 0} (one : Json → String → List BadField × A) (zero : A) (P : Json → String → Type 0)
      → ((j : Json) (p : String) → ((one j p).0 ≡ []) ↔ P j p)
      → (path : String) (i left : ℕ) (js : List Json)
      → ((read_each lib dec one zero path i left js).0 ≡ []) ↔ Taken P lib path i (take left js)
  read_each-Each one z P h path i zero [] = (λ e. tt, λ e. refl)
  read_each-Each one z P h path i (suc left) [] = (λ e. tt, λ e. refl)
  read_each-Each one z P h path i zero (j ∷ js) =
      let (there, back) = read_each-Each one z P h path (suc i) zero js in (λ e. tt, λ e. back tt)
  read_each-Each one z P h path i (suc left) (j ∷ js) =
      let (there, back) = read_each-Each one z P h path (suc i) left js in
      let (split, glue) =
        append-eq_nil (one j (at_index lib path i)).0
          (read_each lib dec one z path (suc i) left js).0 in
      let (fits, clean) = h j (at_index lib path i) in
      (λ e. (fits (split e).0, there (split e).1), λ e. glue (clean e.0, back e.1))

  given-IfGiven :
      {A : Type 0} (one : Json → String → List BadField × A) (z : A) (P : Json → Type 0)
      (path : String)
      → ((j : Json) → ((one j path).0 ≡ []) ↔ P j)
      → (o : Option Json) → ((read_given lib dec one z path o).0 ≡ []) ↔ IfGiven P o
  given-IfGiven one z P path h none = (λ e. tt, λ e. refl)
  given-IfGiven one z P path h (some j) = h j

  mutual
    unfolding read_value text_of whole_of instant_of array_of object_of

    value-Conforms :
        (s : Shape) (j : Json) (path : String)
        → ((read_value lib dec s j path).0 ≡ []) ↔ Conforms lib dec s j path
    value-Conforms Shape.text Json.null path = (λ h. tt, λ h. refl)
    value-Conforms Shape.text (Json.str t) path = (λ h. tt, λ h. refl)
    value-Conforms Shape.text (Json.num lit) path = (λ h. cc, λ h. absurd h)
    value-Conforms Shape.text (Json.bool lit) path = (λ h. cc, λ h. absurd h)
    value-Conforms Shape.text (Json.arr js) path = (λ h. cc, λ h. absurd h)
    value-Conforms Shape.text (Json.obj ms) path = (λ h. cc, λ h. absurd h)
    value-Conforms Shape.whole Json.null path = (λ h. tt, λ h. refl)
    value-Conforms Shape.whole (Json.num lit) path = leaf-Reads _ path _ _ (dec.int64_of lit)
    value-Conforms Shape.whole (Json.str t) path = (λ h. cc, λ h. absurd h)
    value-Conforms Shape.whole (Json.bool lit) path = (λ h. cc, λ h. absurd h)
    value-Conforms Shape.whole (Json.arr js) path = (λ h. cc, λ h. absurd h)
    value-Conforms Shape.whole (Json.obj ms) path = (λ h. cc, λ h. absurd h)
    value-Conforms Shape.instant Json.null path = (λ h. tt, λ h. refl)
    value-Conforms Shape.instant (Json.str t) path = leaf-Reads _ path _ _ (dec.time_of t)
    value-Conforms Shape.instant (Json.num lit) path = (λ h. cc, λ h. absurd h)
    value-Conforms Shape.instant (Json.bool lit) path = (λ h. cc, λ h. absurd h)
    value-Conforms Shape.instant (Json.arr js) path = (λ h. cc, λ h. absurd h)
    value-Conforms Shape.instant (Json.obj ms) path = (λ h. cc, λ h. absurd h)
    value-Conforms (Shape.slice s) Json.null path = (λ h. tt, λ h. refl)
    value-Conforms (Shape.slice s) (Json.arr js) path =
        let (there, back) =
          read_each-Each (read_value lib dec s) (zero_of s) (Conforms lib dec s) (value-Conforms s)
            path 0 (most_read path (length (items js))) (items js) in
        let (each, taken) = Taken-Each (Conforms lib dec s) lib path (items js) in
        (λ h. each (there h), λ h. back (taken h))
    value-Conforms (Shape.slice s) (Json.str t) path = (λ h. cc, λ h. absurd h)
    value-Conforms (Shape.slice s) (Json.num lit) path = (λ h. cc, λ h. absurd h)
    value-Conforms (Shape.slice s) (Json.bool lit) path = (λ h. cc, λ h. absurd h)
    value-Conforms (Shape.slice s) (Json.obj ms) path = (λ h. cc, λ h. absurd h)
    value-Conforms (Shape.struct fs) (Json.obj ms) path =
        let (fit, read) = fields-Fit fs (members ms) path in
        let (known, listed) =
          undefined-AllIn lib fs path (sorted_names lib (names_of (members ms))) in
        let (defines, sorted) = sorted_names-AllIn lib (names fs) (members ms) in
        let (split, glue) = append-eq_nil (read_fields lib dec fs (members ms) path).0 _ in
        (
          λ h. (fit (split h).0, defines (known (split h).1)),
          λ h. glue (read h.0, listed (sorted h.1)),
        )
    value-Conforms (Shape.struct fs) Json.null path = (λ h. cc, λ h. absurd h)
    value-Conforms (Shape.struct fs) (Json.str t) path = (λ h. cc, λ h. absurd h)
    value-Conforms (Shape.struct fs) (Json.num lit) path = (λ h. cc, λ h. absurd h)
    value-Conforms (Shape.struct fs) (Json.bool lit) path = (λ h. cc, λ h. absurd h)
    value-Conforms (Shape.struct fs) (Json.arr js) path = (λ h. cc, λ h. absurd h)

    fields-Fit :
        (fs : Fields) (got : List (String × Json)) (path : String)
        → ((read_fields lib dec fs got path).0 ≡ []) ↔ Fit lib dec fs got path
    fields-Fit Fields.done got path = (λ h. tt, λ h. refl)
    fields-Fit (Fields.field n s fs) got path =
        let (fit, read) = fields-Fit fs got path in
        let (given, clean) =
          given-IfGiven (read_value lib dec s) (zero_of s)
            (λ j. Conforms lib dec s j (under path n)) (under path n)
            (λ j. value-Conforms s j (under path n)) (lookup n got) in
        let (split, glue) =
          append-eq_nil
            (read_given lib dec (read_value lib dec s) (zero_of s) (under path n) (lookup n got)).0
            (read_fields lib dec fs got path).0 in
        let (last, found) = IfGiven-IsLast (λ j. Conforms lib dec s j (under path n)) n got in
        (λ h. (last (given (split h).0), fit (split h).1), λ h. glue (clean (found h.0), read h.1))

  -- What a body has to be for decode to fill a struct.
  abbrev pub IsBody : Fields → ℕ → String → Type 0
  IsBody fs ceiling body =
      (j : Json) × (dec.split ceiling body ≡ Sent.value j true)
      × Conforms lib dec (Shape.struct fs) j ""

  if_no_fault-filled :
      {A : Type 0} (bad : List BadField) (v : A)
      → ((w : A) × (if_no_fault lib dec bad v ≡ Decoded.filled w)) ↔ (bad ≡ [])
  if_no_fault-filled [] v = (λ h. refl, λ h. (v, refl))
  if_no_fault-filled (b ∷ bad) v = (λ (w, h). cc, λ h. cc)

  read_body-filled :
      (fs : Fields) (j : Json) (ends : Bool)
      → ((v : Vals fs) × (read_body lib dec fs j ends ≡ Decoded.filled v))
        ↔ ((ends ≡ true) × Conforms lib dec (Shape.struct fs) j "")
  unfolding object_of
  read_body-filled fs j false = (λ (v, h). cc, λ h. cc)
  read_body-filled fs (Json.obj ms) true =
      let (there, back) =
        if_no_fault-filled (read_value lib dec (Shape.struct fs) (Json.obj ms) "").0 _ in
      let (fits, clean) = value-Conforms (Shape.struct fs) (Json.obj ms) "" in
      (λ h. (refl, fits (there h)), λ h. back (clean h.1))
  read_body-filled fs Json.null true = (λ (v, h). cc, λ h. absurd h.1)
  read_body-filled fs (Json.str t) true = (λ (v, h). cc, λ h. absurd h.1)
  read_body-filled fs (Json.num t) true = (λ (v, h). cc, λ h. absurd h.1)
  read_body-filled fs (Json.bool t) true = (λ (v, h). cc, λ h. absurd h.1)
  read_body-filled fs (Json.arr t) true = (λ (v, h). cc, λ h. absurd h.1)

  sent-filled :
      (fs : Fields) (s : Sent)
      → ((v : Vals fs) × (answer_sent lib dec fs s ≡ Decoded.filled v))
        ↔ ((j : Json) × (s ≡ Sent.value j true) × Conforms lib dec (Shape.struct fs) j "")
  sent-filled fs (Sent.value j ends) =
      let (there, back) = read_body-filled fs j ends in
      (
        λ h. (j, ap (Sent.value j) (there h).0, (there h).1),
        λ (k, e, c). back (cc, subst (λ x. Conforms lib dec (Shape.struct fs) x "") (cc) c),
      )
  sent-filled fs (Sent.too_large n) = (λ (v, h). cc, λ (j, h, c). cc)
  sent-filled fs Sent.nothing = (λ (v, h). cc, λ (j, h, c). cc)
  sent-filled fs (Sent.bad_syntax n) = (λ (v, h). cc, λ (j, h, c). cc)
  sent-filled fs Sent.cut_short = (λ (v, h). cc, λ (j, h, c). cc)
  sent-filled fs Sent.unread = (λ (v, h). cc, λ (j, h, c). cc)

  -- decode fills the value exactly where the body is one json object, with nothing after it, that
  -- conforms to the type: each field that is read is its last member of that name and has the right
  -- shape, every member is of a field, and of postings the first thousand elements conform. Every
  -- other body is answered in its place.
  pub decode-IsBody :
      (fs : Fields) (ceiling : ℕ) (body : String)
      → ((v : Vals fs) × (decode lib dec fs ceiling body ≡ Decoded.filled v))
        ↔ IsBody fs ceiling body
  unfolding decode
  decode-IsBody fs ceiling body = sent-filled fs (dec.split ceiling body)
