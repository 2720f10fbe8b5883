-- ===== src/Http/Decode/RoundTrip.antt =====
-- A request printed as json and read back.
use Prim.Native.Nat.{suc}
use pacioli.Prelude.{
  ℕ, ◌≡◌, refl, ap, Bool, true, false, ◌||◌, Option, none, some, List, [], ◌∷◌, String, str_eq,
  length, eq_iff,
}
use pacioli.Prelude.Int.{ℤ}
use pacioli.Ledger.Read.{contains}
use pacioli.Http.Wire.{Library, BadField}
use pacioli.Http.Json.{
  Json, Items, Members, items, members, lookup, Shape, Fields, Val, Vals, zero_of, names,
}
use pacioli.Http.Decode.Conforms.{Defines}
use pacioli.Http.Decode.Exact.{undefined-AllIn, sorted_names-AllIn}
use pacioli.Http.Decode.{
  Decoder, Sent, Decoded, decode, read_value, read_fields, most_read, at_index, under, names_of,
  sorted_names, undefined_in, text_of, array_of, object_of, whole_of, instant_of, read_each,
}

-- What a client's encoder prints a number and an instant as.
pub record Printer : Type 0 where
  pub int_text : ℤ → String
  pub time_text : Option ℕ → String

abbrev pub to_items : {A : Type 0} → (A → Json) → List A → Items
to_items f [] = Items.nil
to_items f (v ∷ vs) = Items.cons (f v) (to_items f vs)

module _ (out : Printer) where
  -- Every field under its name, in order.
  abbrev mutual
    pub print : (s : Shape) → Val s → Json
    print Shape.text t = Json.str t
    print Shape.whole n = Json.num (out.int_text n)
    print Shape.instant t = Json.str (out.time_text t)
    print (Shape.slice s) vs = Json.arr (to_items (print s) vs)
    print (Shape.struct fs) vs = Json.obj (print_fields fs vs)

    pub print_fields : (fs : Fields) → Vals fs → Members
    print_fields Fields.done vs = Members.end
    print_fields (Fields.field n s fs) (v, vs) = Members.member n (print s v) (print_fields fs vs)

abbrev pub AllAt : {A : Type 0} → (A → String → Type 0) → Library → String → ℕ → List A → Type 0
AllAt P lib path i [] = Unit
AllAt P lib path i (v ∷ vs) = P v (at_index lib path i) × AllAt P lib path (suc i) vs

-- No two fields of a struct have one name.
abbrev pub AreDistinct : Fields → Type 0
AreDistinct Fields.done = Unit
AreDistinct (Fields.field n s fs) = (contains (names fs) n ≡ false) × AreDistinct fs

module _ (lib : Library) (dec : Decoder) (out : Printer) where
  -- The numbers and instants are ones that are read back, and no array is longer than is read.
  abbrev mutual
    pub IsReadable : (s : Shape) → Val s → String → Type 0
    IsReadable Shape.text t path = Unit
    IsReadable Shape.whole n path = dec.int64_of (out.int_text n) ≡ some n
    IsReadable Shape.instant t path = dec.time_of (out.time_text t) ≡ some t
    IsReadable (Shape.slice s) vs path =
        (most_read path (length vs) ≡ length vs) × AllAt (IsReadable s) lib path 0 vs
    IsReadable (Shape.struct fs) vs path = AreDistinct fs × AreReadable fs vs path

    pub AreReadable : (fs : Fields) → Vals fs → String → Type 0
    AreReadable Fields.done vs path = Unit
    AreReadable (Fields.field n s fs) (v, vs) path =
        IsReadable s v (under path n) × AreReadable fs vs path

length-to_items :
    {A : Type 0} (f : A → Json) (vs : List A) → length (items (to_items f vs)) ≡ length vs
length-to_items f [] = refl
length-to_items f (v ∷ vs) = ap suc (length-to_items f vs)

or_true : (a : Bool) → (a || true) ≡ true
or_true true = refl
or_true false = refl

or_false : (a b : Bool) → (a || b) ≡ false → (a ≡ false) × (b ≡ false)
or_false true b h = cc
or_false false b h = (refl, h)

-- The fields' names are among the ones listed.
abbrev AreNames : List String → Fields → Type 0
AreNames ns Fields.done = Unit
AreNames ns (Fields.field n s fs) = (contains ns n ≡ true) × AreNames ns fs

-- The fields are found in a body under their names.
module _ (out : Printer) where
  abbrev Holds : (fs : Fields) → Vals fs → List (String × Json) → Type 0
  Holds Fields.done vs got = Unit
  Holds (Fields.field n s fs) (v, vs) got = (lookup n got ≡ some (print out s v)) × Holds fs vs got

  lookup-missing :
      (n : String) (fs : Fields) (vs : Vals fs)
      → contains (names fs) n ≡ false
      → lookup n (members (print_fields out fs vs)) ≡ none
  unfolding lookup contains
  lookup-missing n Fields.done vs h = refl
  lookup-missing n (Fields.field m s fs) (v, vs) h =
      let (other, rest) = or_false (str_eq m n) (contains (names fs) n) h in
      rw (lookup-missing n fs vs rest, other) refl

  Holds-cons :
      (m : String) (j : Json) (fs : Fields) (vs : Vals fs) (got : List (String × Json))
      → contains (names fs) m ≡ false
      → Holds fs vs got
      → Holds fs vs ((m, j) ∷ got)
  unfolding lookup contains
  Holds-cons m j Fields.done vs got h k = tt
  Holds-cons m j (Fields.field n s fs) (v, vs) got h (e, k) =
      (rw e refl, Holds-cons m j fs vs got (or_false _ _ h).1 k)

  print-Holds :
      (fs : Fields) (vs : Vals fs) → AreDistinct fs → Holds fs vs (members (print_fields out fs vs))
  unfolding lookup
  print-Holds Fields.done vs h = tt
  print-Holds (Fields.field n s fs) (v, vs) (fresh, h) = (
    rw (lookup-missing n fs vs fresh, (eq_iff n n).1 refl) refl,
    Holds-cons n (print out s v) fs vs _ fresh (print-Holds fs vs h),
  )

print_fields-Defines :
    (out : Printer) (ns : List String) (fs : Fields) (vs : Vals fs)
    → AreNames ns fs
    → Defines ns (members (print_fields out fs vs))
print_fields-Defines out ns Fields.done vs h = tt
print_fields-Defines out ns (Fields.field n s fs) (v, vs) (h, k) =
    (h, print_fields-Defines out ns fs vs k)

AreNames-cons :
    (n : String) (ns : List String) (fs : Fields) → AreNames ns fs → AreNames (n ∷ ns) fs
unfolding contains
AreNames-cons n ns Fields.done h = tt
AreNames-cons n ns (Fields.field m s fs) (h, k) = (rw h (or_true _), AreNames-cons n ns fs k)

AreNames-own : (fs : Fields) → AreNames (names fs) fs
unfolding contains
AreNames-own Fields.done = tt
AreNames-own (Fields.field n s fs) =
    (rw ((eq_iff n n).1 refl) refl, AreNames-cons n (names fs) fs (AreNames-own fs))

module _ (lib : Library) (dec : Decoder) (out : Printer) where
  print_fields-undefined :
      (fs : Fields) (vs : Vals fs) (path : String)
      → undefined_in lib fs path (sorted_names lib (names_of (members (print_fields out fs vs))))
        ≡ []
  print_fields-undefined fs vs path = (undefined-AllIn lib fs path _).1 (
      (sorted_names-AllIn lib (names fs) _).1
        (print_fields-Defines out (names fs) fs vs (AreNames-own fs)))

  -- An array that is read whole.
  each-exact :
      {A : Type 0} (one : Json → String → List BadField × A) (z : A) (f : A → Json)
      (P : A → String → Type 0)
      → ((v : A) (p : String) → P v p → one (f v) p ≡ ([], v))
      → (path : String) (i : ℕ) (vs : List A) → AllAt P lib path i vs
      → read_each lib dec one z path i (length vs) (items (to_items f vs)) ≡ ([], vs)
  each-exact one z f P h path i [] k = refl
  each-exact one z f P h path i (v ∷ vs) (k, ks) =
      rw (h v (at_index lib path i) k, each-exact one z f P h path (suc i) vs ks) refl

  mutual
    unfolding read_value text_of whole_of instant_of array_of object_of

    value-exact :
        (s : Shape) (v : Val s) (path : String)
        → IsReadable lib dec out s v path
        → read_value lib dec s (print out s v) path ≡ ([], v)
    value-exact Shape.text t path h = refl
    value-exact Shape.whole n path h = rw h refl
    value-exact Shape.instant t path h = rw h refl
    value-exact (Shape.slice s) vs path (fits, h) =
        rw (length-to_items (print out s) vs, fits)
          (each-exact (read_value lib dec s) (zero_of s) (print out s) (IsReadable lib dec out s)
            (value-exact s) path 0 vs h)
    value-exact (Shape.struct fs) vs path (d, h) =
        rw
          (
            fields-exact fs vs (members (print_fields out fs vs)) path (print-Holds out fs vs d) h,
            print_fields-undefined fs vs path,
          )
          refl

    fields-exact :
        (fs : Fields) (vs : Vals fs) (got : List (String × Json)) (path : String)
        → Holds out fs vs got
        → AreReadable lib dec out fs vs path
        → read_fields lib dec fs got path ≡ ([], vs)
    fields-exact Fields.done vs got path k h = refl
    fields-exact (Fields.field n s fs) (v, vs) got path (e, k) (h, hs) =
        rw (e, value-exact s v (under path n) h, fields-exact fs vs got path k hs) refl

  -- A body that carries a printed value, with nothing after it, is decoded to that value.
  pub decode-print :
      (fs : Fields) (vs : Vals fs) (ceiling : ℕ) (body : String)
      → IsReadable lib dec out (Shape.struct fs) vs ""
      → dec.split ceiling body ≡ Sent.value (print out (Shape.struct fs) vs) true
      → decode lib dec fs ceiling body ≡ Decoded.filled vs
  unfolding decode object_of
  decode-print fs vs ceiling body h e = rw e (rw (value-exact (Shape.struct fs) vs "" h) refl)
