-- ===== src/Http/Decode/Found.antt =====
-- The reader's look-up of a member and its bound on an array, against what conforming asks.
use Prim.Native.Nat.{suc, zero}
use pacioli.Prelude.{
  ℕ, ◌+◌, ◌<◌, ◌≤◌, ◌≡◌, ◌≢◌, ◌↔◌, refl, sym, ◌∙◌, ap, subst, inl, inr, true, Option, none, some,
  List, [], ◌∷◌, ◌++◌, String, str_eq, eq_iff, ltb, length, take, Bool-cases, some-eq, arith,
  if◌then◌else◌,
}
use pacioli.Http.Wire.{Library}
use pacioli.Http.Json.{Json, lookup, later_or}
use pacioli.Http.Decode.{most_read, leaf, at_index}
use pacioli.Http.Decode.Conforms.{Unnamed, IsLast, IsRead, Each}

-- The member that the reader finds.
abbrev pub IfGiven : (Json → Type 0) → Option Json → Type 0
IfGiven P none = Unit
IfGiven P (some j) = P j

lookup-Unnamed : (n : String) (ms : List (String × Json)) → Unnamed n ms → lookup n ms ≡ none
unfolding lookup
lookup-Unnamed n [] h = refl
lookup-Unnamed n ((m, j) ∷ ms) (h, hs) = elim (Bool-cases (str_eq m n)) [
  | inl e ↦ absurd (h ((eq_iff m n).0 e))
  | inr e ↦ rw (lookup-Unnamed n ms hs, e) refl
]

Unnamed-lookup : (n : String) (ms : List (String × Json)) → lookup n ms ≡ none → Unnamed n ms
unfolding lookup
Unnamed-lookup n [] h = tt
Unnamed-lookup n ((m, j) ∷ ms) h = tail (λ e. Unnamed-lookup n ms e) (lookup n ms) refl h
  where
    tail :
        (lookup n ms ≡ none → Unnamed n ms)
        → (o : Option Json) → lookup n ms ≡ o
        → later_or o (str_eq m n) j ≡ none
        → (m ≢ n) × Unnamed n ms
    tail r (some k) e h = cc
    tail r none e h = (λ same. let t = (eq_iff m n).1 same in cc (rw t at h), r e)

lookup-IsLast :
    (n : String) (j : Json) (got : List (String × Json)) → IsLast n j got → lookup n got ≡ some j
unfolding lookup
lookup-IsLast n j got (front, back, whole, after) =
    subst (λ g. lookup n g ≡ some j) (sym whole) (behind front)
  where
    behind : (front : List (String × Json)) → lookup n (front ++ (n, j) ∷ back) ≡ some j
    behind [] = rw (lookup-Unnamed n back after, (eq_iff n n).1 refl) refl
    behind ((m, k) ∷ front) = rw (behind front) refl

IsLast-lookup :
    (n : String) (j : Json) (got : List (String × Json)) → lookup n got ≡ some j → IsLast n j got
unfolding lookup
IsLast-lookup n j [] h = cc
IsLast-lookup n j ((m, k) ∷ ms) h = tail (λ e. IsLast-lookup n j ms e) (lookup n ms) refl h
  where
    tail :
        (lookup n ms ≡ some j → IsLast n j ms)
        → (o : Option Json) → lookup n ms ≡ o
        → later_or o (str_eq m n) k ≡ some j
        → IsLast n j ((m, k) ∷ ms)
    tail r (some x) e h =
        let (front, back, whole, after) = r (e ∙ h) in
        ((m, k) ∷ front, back, ap (λ g. (m, k) ∷ g) whole, after)
    tail r none e h = elim (Bool-cases (str_eq m n)) [
      | inr other ↦ cc (rw other at h)
      | inl same ↦
          let value : k ≡ j = some-eq (rw same at h) in
          (
            [],
            ms,
            ap (λ (p : String × Json). p ∷ ms) (λ i. ((eq_iff m n).0 same i, value i)),
            Unnamed-lookup n ms e,
          )
    ]

pub IfGiven-IsLast :
    (P : Json → Type 0) (n : String) (got : List (String × Json))
    → IfGiven P (lookup n got) ↔ ((j : Json) → IsLast n j got → P j)
IfGiven-IsLast P n got =
    (λ h j l. subst (IfGiven P) (lookup-IsLast n j got l) h, λ h. there (lookup n got) refl h)
  where
    there : (o : Option Json) → lookup n got ≡ o → ((j : Json) → IsLast n j got → P j) → IfGiven P o
    there none e h = tt
    there (some j) e h = h j (IsLast-lookup n j got e)

-- The elements that the reader takes, each at its place.
abbrev pub Taken : (Json → String → Type 0) → Library → String → ℕ → List Json → Type 0
Taken P lib path i [] = Unit
Taken P lib path i (j ∷ js) = P j (at_index lib path i) × Taken P lib path (suc i) js

module _ (C : ℕ → Type 0) (P : Json → String → Type 0) (lib : Library) (path : String) where
  Taken-all :
      ((k : ℕ) → C k) → (i : ℕ) (js : List Json) → Taken P lib path i js ↔ Each C P lib path i js
  Taken-all c i [] = (λ h. tt, λ h. tt)
  Taken-all c i (j ∷ js) =
      let (there, back) = Taken-all c (suc i) js in
      (λ h. (λ x. h.0, there h.1), λ h. (h.0 (c i), back h.1))

module _ (P : Json → String → Type 0) (lib : Library) (path : String) (b : ℕ)
    (l : str_eq (leaf path) "postings" ≡ true) where
  abbrev Below : ℕ → Type 0
  Below k = str_eq (leaf path) "postings" ≡ true → k < b

  Each-beyond : (i : ℕ) (js : List Json) → b ≤ i → Each Below P lib path i js
  Each-beyond i [] h = tt
  Each-beyond i (j ∷ js) h =
      (λ c. let k = c l in absurd (omega arith), Each-beyond (suc i) js (omega arith))

  Taken-first :
      (left i : ℕ) (js : List Json)
      → left + i ≡ b
      → Taken P lib path i (take left js) ↔ Each Below P lib path i js
  Taken-first zero i [] h = (λ x. tt, λ x. tt)
  Taken-first zero i (j ∷ js) h = (λ x. Each-beyond i (j ∷ js) (omega arith), λ x. tt)
  Taken-first (suc left) i [] h = (λ x. tt, λ x. tt)
  Taken-first (suc left) i (j ∷ js) h =
      let (there, back) = Taken-first left (suc i) js (omega arith) in
      (λ x. (λ c. x.0, there x.1), λ x. (x.0 (λ s. omega arith), back x.1))

take-length : {A : Type 0} (xs : List A) → take (length xs) xs ≡ xs
take-length [] = refl
take-length (x ∷ xs) = ap (λ ys. x ∷ ys) (take-length xs)

take-short : {A : Type 0} (n : ℕ) (xs : List A) → length xs ≤ n → take n xs ≡ xs
take-short zero [] h = refl
take-short zero (x ∷ xs) h = absurd (omega arith)
take-short (suc n) [] h = refl
take-short (suc n) (x ∷ xs) h = ap (λ ys. x ∷ ys) (take-short n xs (omega arith))

-- A field of postings is read up to its thousandth element, and any other array to its end.
take-most_read :
    (path : String) (js : List Json)
    → str_eq (leaf path) "postings" ≡ true
    → take (most_read path (length js)) js ≡ take 1000 js
unfolding most_read
take-most_read path js l = elim (Bool-cases (ltb 1000 (length js))) [
  | inl e ↦ rw (l, e) refl
  | inr e ↦ rw (l, e) (take-length js ∙ sym (take-short 1000 js (ground arith)))
]

pub Taken-Each :
    (P : Json → String → Type 0) (lib : Library) (path : String) (js : List Json)
    → Taken P lib path 0 (take (most_read path (length js)) js) ↔ Each (IsRead path) P lib path 0 js
unfolding most_read
Taken-Each P lib path js = elim (Bool-cases (str_eq (leaf path) "postings")) [
  | inl l ↦
      subst (λ x. Taken P lib path 0 x ↔ Each (IsRead path) P lib path 0 js)
        (sym (take-most_read path js l)) (Taken-first P lib path 1000 l 1000 0 js (omega arith))
  | inr l ↦
      subst (λ x. Taken P lib path 0 x ↔ Each (IsRead path) P lib path 0 js)
        (sym (
          ap
            (λ b.
              take (if b then (if ltb 1000 (length js) then 1000 else length js) else length js) js)
            l
          ∙ take-length js))
        (Taken-all (IsRead path) P lib path (λ k h. cc) 0 js)
]
