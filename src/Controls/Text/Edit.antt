-- ===== src/Controls/Text/Edit.antt =====
-- Count and Replace: what one replacement does to a text in which the pattern is counted.
use pacioli.Prelude.{
  ℕ, suc, ◌≡◌, refl, ap, inl, inr, true, [], ◌∷◌, ◌++◌, ◌==◌, ==_iff, Bool-cases, length,
}
use pacioli.Controls.Text.{Text, has_prefix, drop, count_from, count, replace}

-- A text that begins with the pattern is the pattern before the rest.
has_prefix-drop : (s p : Text) → has_prefix s p ≡ true → s ≡ p ++ drop (length p) s
unfolding has_prefix drop
has_prefix-drop s [] h = refl
has_prefix-drop [] (d ∷ p) h = cc
has_prefix-drop (c ∷ s) (d ∷ p) h = elim (Bool-cases (c == d)) [
  | inl e ↦ let rest = has_prefix-drop s p (rw e at h) in let head = (==_iff c d).0 e in cc
  | inr e ↦ cc (rw e at h)
]

-- Where the pattern is counted, the text falls apart around its first match, and the replacement
-- changes that match and nothing else.
abbrev pub ReplacedOnce : Text → Text → Text → Type 0
ReplacedOnce s p t =
    (front : Text) × (back : Text) × (s ≡ front ++ (p ++ back))
    × (replace s p t ≡ front ++ (t ++ back))

pub replace-ReplacedOnce : (s p t : Text) (n : ℕ) → count s p ≡ suc n → ReplacedOnce s p t
unfolding count_from replace
replace-ReplacedOnce [] p t n h = cc
replace-ReplacedOnce (c ∷ s) p t n h = elim (Bool-cases (has_prefix (c ∷ s) p)) [
  | inl e ↦ ([], drop (length p) (c ∷ s), has_prefix-drop (c ∷ s) p e, rw e refl)
  | inr e ↦
      let (front, back, whole, edited) = replace-ReplacedOnce s p t n (rw e at h) in
      (c ∷ front, back, ap (λ x. c ∷ x) whole, rw e (ap (λ x. c ∷ x) edited))
]
