-- ===== src/Ledger/Minor/Text/Reads.antt =====
-- What the readers of minor.go accept, and that they read back what String writes.
use pacioli.Prelude.{
  ℕ, zero, suc, ◌+◌, ◌-◌, ◌*◌, ◌/◌, ◌%◌, ◌^◌, ◌≤◌, ◌≡◌, ◌≢◌, ◌↔◌, ◌⊎◌, inl, inr, refl, sym, ◌∙◌, ap,
  true, Option, none, some, List, [], ◌∷◌, ◌==◌, arith, length, All, ==_iff, some-eq, Bool-cases,
}
use pacioli.Prelude.Int.{pos, negsuc}
use pacioli.Failure.{ok}
use pacioli.Ledger.Minor.{Minor}
use pacioli.Ledger.Minor.Text.{
  digits, decimal, string, marshal_json, is_digit, read_digits, read_numeral, signed, negated,
  set_string, whole, unmarshal_json, Source, scan,
}

read_last :
    (n : ℕ) (out : List ℕ) → read_digits ((b'0' + n % 10) ∷ out) (n / 10) ≡ read_digits out n
unfolding read_digits
read_last n out = ground arith

read_digits-digits :
    (fuel n : ℕ) (out : List ℕ) → n ≤ fuel → read_digits (digits fuel n out) 0 ≡ read_digits out n
read_digits-digits zero n out h = ap (read_digits out) (omega arith)
read_digits-digits (suc fuel) zero out h = refl
read_digits-digits (suc fuel) (suc n) out h =
    read_digits-digits fuel (suc n / 10) _ (omega arith) ∙ read_last (suc n) out

read_numeral-nonempty : (s : List ℕ) → s ≢ [] → read_numeral s ≡ read_digits s 0
unfolding read_numeral
read_numeral-nonempty [] h = absurd (h refl)
read_numeral-nonempty (c ∷ s) h = refl

digits-nonempty : (fuel n : ℕ) (c : ℕ) (out : List ℕ) → digits fuel n (c ∷ out) ≢ []
digits-nonempty zero n c out = λ h. cc
digits-nonempty (suc fuel) zero c out = λ h. cc
digits-nonempty (suc fuel) (suc n) c out = digits-nonempty fuel (suc n / 10) _ _

read_numeral-decimal : (n : ℕ) → read_numeral (decimal n) ≡ some n
unfolding read_digits read_numeral
read_numeral-decimal zero = refl
read_numeral-decimal (suc n) =
    read_numeral-nonempty _ (digits-nonempty n (suc n / 10) _ _)
    ∙ read_digits-digits (suc n) (suc n) [] (omega arith)

-- A numeral does not begin with a sign.
set_string-numeral : (s : List ℕ) (n : ℕ) → read_numeral s ≡ some n → set_string s ≡ some (pos n)
unfolding set_string read_numeral read_digits
set_string-numeral [] n h = cc
set_string-numeral (c ∷ s) n h = ground arith

set_string-string : (m : Minor) → set_string (string m) ≡ some m
unfolding string set_string
set_string-string (pos n) = set_string-numeral _ n (read_numeral-decimal n)
set_string-string (negsuc n) = rw (read_numeral-decimal (suc n)) (ground arith)

-- What String writes, MarshalJSON with it, is read back as the amount by UnmarshalJSON and by Scan,
-- from a string and from bytes.
pub unmarshal_json-marshal_json :
    (m : Minor) (b : List ℕ)
    → marshal_json m ≡ ok b
    → (unmarshal_json b ≡ ok m) × (scan (Source.text b) ≡ ok m) × (scan (Source.bytes b) ≡ ok m)
unfolding marshal_json unmarshal_json scan
unmarshal_json-marshal_json m b h =
    let same : string m ≡ b = cc in rw (← same, set_string-string m) (refl, refl, refl)

abbrev pub IsDigit : ℕ → Type 0
IsDigit c = (b'0' ≤ c) × (c ≤ b'9')

-- The number that the digits stand for, each by its place.
abbrev pub place_value : List ℕ → ℕ
place_value [] = 0
place_value (c ∷ s) = (c - b'0') * 10 ^ length s + place_value s

-- One digit or more, and the number they stand for.
abbrev pub IsNumeral : List ℕ → ℕ → Type 0
IsNumeral s n = (s ≢ []) × All IsDigit s × (n ≡ place_value s)

-- A sign or none, and a numeral.
abbrev pub IsWhole : List ℕ → Minor → Type 0
IsWhole b m =
    (s : List ℕ) × (n : ℕ) × IsNumeral s n
    × (((b ≡ b'-' ∷ s) × (m ≡ negated n)) ⊎ (((b ≡ b'+' ∷ s) ⊎ (b ≡ s)) × (m ≡ pos n)))

pow_suc : (k : ℕ) → 10 * 10 ^ k ≡ 10 ^ suc k
pow_suc k = grind arith

shift : (n d p v : ℕ) → (n * 10 + d) * p + v ≡ n * (10 * p) + (d * p + v)
shift n d p v = grind arith

is_digit_iff : (c : ℕ) → (is_digit c ≡ true) ↔ IsDigit c
is_digit_iff c = ground arith

shift_pow : (n d k v : ℕ) → (n * 10 + d) * 10 ^ k + v ≡ n * 10 ^ suc k + (d * 10 ^ k + v)
shift_pow n d k v = shift n d (10 ^ k) v ∙ ap (λ p. n * p + (d * 10 ^ k + v)) (pow_suc k)

read_digits-some :
    (s : List ℕ) (n r : ℕ)
    → read_digits s n ≡ some r
    → All IsDigit s × (r ≡ n * 10 ^ length s + place_value s)
unfolding read_digits
read_digits-some [] n r h = (tt, ground arith)
read_digits-some (c ∷ s) n r h = elim (Bool-cases (is_digit c)) [
  | inl e ↦
      let (hs, exact) = read_digits-some s (n * 10 + (c - b'0')) r (rw e at h) in
      (((is_digit_iff c).0 e, hs), exact ∙ shift_pow n (c - b'0') (length s) (place_value s))
  | inr e ↦ cc (rw e at h)
]

read_digits-All :
    (s : List ℕ) (n : ℕ)
    → All IsDigit s
    → read_digits s n ≡ some (n * 10 ^ length s + place_value s)
unfolding read_digits
read_digits-All [] n h = ap some (ground arith)
read_digits-All (c ∷ s) n (h, hs) = rw ((is_digit_iff c).1 h) (
    read_digits-All s (n * 10 + (c - b'0')) hs
    ∙ ap some (shift_pow n (c - b'0') (length s) (place_value s)))

none_before : (p v : ℕ) → 0 * p + v ≡ v
none_before p v = grind arith

read_numeral_iff : (s : List ℕ) (n : ℕ) → (read_numeral s ≡ some n) ↔ IsNumeral s n
unfolding read_numeral
read_numeral_iff [] n = (λ h. cc, λ (h, hs, e). absurd (h refl))
read_numeral_iff (c ∷ s) n = (
  λ h.
      let (hs, e) = read_digits-some (c ∷ s) 0 n h in
      (λ x. cc, hs, e ∙ none_before (10 ^ length (c ∷ s)) (place_value (c ∷ s))),
  λ (h, hs, e).
      read_digits-All (c ∷ s) 0 hs
      ∙ ap some (none_before (10 ^ length (c ∷ s)) (place_value (c ∷ s)) ∙ sym e),
)

signed_inv :
    (f : ℕ → Minor) (o : Option ℕ) (m : Minor)
    → signed f o ≡ some m
    → (n : ℕ) × (o ≡ some n) × (m ≡ f n)
signed_inv f none m h = cc
signed_inv f (some n) m h = (n, refl, sym (some-eq h))

set_string-IsWhole : (b : List ℕ) (m : Minor) → set_string b ≡ some m → IsWhole b m
unfolding set_string
set_string-IsWhole [] m h = cc
set_string-IsWhole (c ∷ s) m h = elim (Bool-cases (c == b'-')) [
  | inl e ↦
      let (n, r, v) = signed_inv negated (read_numeral s) m (rw e at h) in
      (s, n, (read_numeral_iff s n).0 r, inl (ap (λ x. x ∷ s) ((==_iff c b'-').0 e), v))
  | inr e ↦ elim (Bool-cases (c == b'+')) [
    | inl e' ↦
        let (n, r, v) = signed_inv pos (read_numeral s) m (rw (e, e') at h) in
        (s, n, (read_numeral_iff s n).0 r, inr (inl (ap (λ x. x ∷ s) ((==_iff c b'+').0 e')), v))
    | inr e' ↦
        let (n, r, v) = signed_inv pos (read_numeral (c ∷ s)) m (rw (e, e') at h) in
        (c ∷ s, n, (read_numeral_iff (c ∷ s) n).0 r, inr (inr refl, v))
  ]
]

IsWhole-set_string : (b : List ℕ) (m : Minor) → IsWhole b m → set_string b ≡ some m
unfolding set_string
IsWhole-set_string b m (s, n, k, inl (e, v)) = rw (e, (read_numeral_iff s n).1 k) (ap some (sym v))
IsWhole-set_string b m (s, n, k, inr (inl e, v)) =
    rw (e, (read_numeral_iff s n).1 k) (ap some (sym v))
IsWhole-set_string b m (s, n, k, inr (inr e, v)) =
    rw e (set_string-numeral s n ((read_numeral_iff s n).1 k) ∙ ap some (sym v))

whole_iff : (o : Option Minor) (m : Minor) → (whole o ≡ ok m) ↔ (o ≡ some m)
whole_iff none m = (λ h. cc, λ h. cc)
whole_iff (some x) m = (λ h. cc, λ h. cc)

-- UnmarshalJSON takes exactly the texts that are a sign or none before one decimal digit or more,
-- however many, and the amount is the number that the digits stand for by their places.
pub unmarshal_json-IsWhole : (b : List ℕ) (m : Minor) → (unmarshal_json b ≡ ok m) ↔ IsWhole b m
unfolding unmarshal_json
unmarshal_json-IsWhole b m = (
  λ h. set_string-IsWhole b m ((whole_iff (set_string b) m).0 h),
  λ h. (whole_iff (set_string b) m).1 (IsWhole-set_string b m h),
)
