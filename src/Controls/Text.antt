-- ===== src/Controls/Text.antt =====
-- The functions of Go's strings and bytes that tools/controls calls. A text is the list of its code
-- points; a file that is not UTF-8 is outside the model.
pub mod Edit
pub mod Lines
use pacioli.Prelude.{
  ℕ, zero, suc, ◌+◌, ◌-◌, Bool, true, false, not, ◌&&◌, ◌||◌, Option, none, some, List, [], ◌∷◌,
  ◌++◌, ◌==◌, ltb, leb, if◌then◌else◌, length,
}

abbrev pub Text : Type 0
Text = List ℕ

unfoldable pub text_eq : Text → Text → Bool
text_eq [] [] = true
text_eq [] (d ∷ t) = false
text_eq (c ∷ s) [] = false
text_eq (c ∷ s) (d ∷ t) = c == d && text_eq s t

abbrev pub is_empty : Text → Bool
is_empty [] = true
is_empty (c ∷ s) = false

-- strings.HasPrefix(s, p)
unfoldable pub has_prefix : Text → Text → Bool
has_prefix s [] = true
has_prefix [] (d ∷ p) = false
has_prefix (c ∷ s) (d ∷ p) = c == d && has_prefix s p

-- unicode.IsSpace
unfoldable pub is_space : ℕ → Bool
is_space c =
    leb 9 c && leb c 13
    || c == 32
    || c == 0x85
    || c == 0xa0
    || c == 0x1680
    || leb 0x2000 c && leb c 0x200a
    || c == 0x2028
    || c == 0x2029
    || c == 0x202f
    || c == 0x205f
    || c == 0x3000

abbrev pub is_newline : ℕ → Bool
is_newline c = c == 10

unfoldable pub trim_left : (ℕ → Bool) → Text → Text
trim_left p [] = []
trim_left p (c ∷ s) = if p c then trim_left p s else c ∷ s

abbrev pub trimmed : Bool → ℕ → Text → Text
trimmed b c [] = if b then [] else c ∷ []
trimmed b c (d ∷ s) = c ∷ d ∷ s

unfoldable pub trim_right : (ℕ → Bool) → Text → Text
trim_right p [] = []
trim_right p (c ∷ s) = trimmed (p c) c (trim_right p s)

-- strings.TrimSpace
unfoldable pub trim_space : Text → Text
unfolding trim_left trim_right
trim_space s = trim_right is_space (trim_left is_space s)

abbrev pub put_first : ℕ → List Text → List Text
put_first c [] = (c ∷ []) ∷ []
put_first c (l ∷ ls) = (c ∷ l) ∷ ls

-- strings.Split(s, "\n"), which has one line more than newlines
unfoldable pub split_lines : Text → List Text
split_lines [] = [] ∷ []
split_lines (c ∷ s) =
    let rest = split_lines s in if is_newline c then [] ∷ rest else put_first c rest

-- strings.Join(ls, "\n")
unfoldable pub join_lines : List Text → Text
join_lines [] = []
join_lines (l ∷ []) = l
join_lines (l ∷ m ∷ ls) = l ++ 10 ∷ join_lines (m ∷ ls)

abbrev cut_at : ℕ → Option (Text × Text) → Option (Text × Text)
cut_at c none = none
cut_at c (some (k, v)) = some (c ∷ k, v)

-- strings.Cut(s, ":")
unfoldable pub cut : Text → Option (Text × Text)
cut [] = none
cut (c ∷ s) = let rest = cut s in if c == 58 then some ([], s) else cut_at c rest

unfoldable pub drop : ℕ → Text → Text
drop zero s = s
drop (suc n) [] = []
drop (suc n) (c ∷ s) = drop n s

-- bytes.Count(s, p) of a p that is not empty: matches that do not overlap, from the left. `skip`
-- is how much of the last match is still ahead.
unfoldable pub count_from : ℕ → Text → Text → ℕ
count_from skip [] p = 0
count_from (suc skip) (c ∷ s) p = count_from skip s p
count_from zero (c ∷ s) p =
    let past = count_from (length p - 1) s p in
    let on = count_from zero s p in if has_prefix (c ∷ s) p then suc past else on

abbrev pub count : Text → Text → ℕ
count s p = count_from 0 s p

-- bytes.Replace(s, p, t, 1) of a p that is not empty
unfoldable pub replace : Text → Text → Text → Text
unfolding has_prefix drop
replace [] p t = []
replace (c ∷ s) p t =
    let rest = replace s p t in
    if has_prefix (c ∷ s) p then t ++ drop (length p) (c ∷ s) else c ∷ rest
