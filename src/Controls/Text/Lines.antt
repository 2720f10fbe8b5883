-- ===== src/Controls/Text/Lines.antt =====
-- Lines: splitting and joining undo each other.
use pacioli.Prelude.{
  ℕ, ◌≡◌, refl, sym, ◌∙◌, subst, ap, ==_iff, inl, inr, false, List, [], ◌∷◌, ◌++◌, All, Bool-cases,
}
use pacioli.Controls.Text.{Text, is_newline, put_first, split_lines, join_lines}

-- A text of one line.
abbrev pub IsLine : Text → Type 0
IsLine l = All (λ c. is_newline c ≡ false) l

split_lines-line : (l : Text) → IsLine l → split_lines l ≡ l ∷ []
unfolding split_lines
split_lines-line [] h = refl
split_lines-line (c ∷ l) (h, hs) = rw (h, split_lines-line l hs) refl

split_lines-append : (l s : Text) → IsLine l → split_lines (l ++ 10 ∷ s) ≡ l ∷ split_lines s
unfolding split_lines
split_lines-append [] s h = refl
split_lines-append (c ∷ l) s (h, hs) = rw (h, split_lines-append l s hs) refl

pub split_lines-join_lines :
    (l : Text) (ls : List Text)
    → IsLine l
    → All IsLine ls
    → split_lines (join_lines (l ∷ ls)) ≡ l ∷ ls
unfolding join_lines
split_lines-join_lines l [] h hs = split_lines-line l h
split_lines-join_lines l (m ∷ ls) h (hm, hs) =
    rw (split_lines-append l (join_lines (m ∷ ls)) h)
      (ap (λ x. l ∷ x) (split_lines-join_lines m ls hm hs))

join_lines-put_first :
    (c : ℕ) (l : Text) (ls : List Text)
    → join_lines (put_first c (l ∷ ls)) ≡ c ∷ join_lines (l ∷ ls)
unfolding join_lines
join_lines-put_first c l [] = refl
join_lines-put_first c l (m ∷ ls) = refl

-- There is always a first line.
split_lines-first : (s : Text) → (l : Text) × (ls : List Text) × (split_lines s ≡ l ∷ ls)
unfolding split_lines
split_lines-first [] = ([], [], refl)
split_lines-first (c ∷ s) =
    let (l, ls, e) = split_lines-first s in
    elim (Bool-cases (is_newline c)) [
      | inl n ↦ ([], l ∷ ls, rw (n, e) refl)
      | inr n ↦ (c ∷ l, ls, rw (n, e) refl)
    ]

pub join_lines-split_lines : (s : Text) → join_lines (split_lines s) ≡ s
unfolding split_lines join_lines
join_lines-split_lines [] = refl
join_lines-split_lines (c ∷ s) =
    let (l, ls, e) = split_lines-first s in
    let rest : join_lines (l ∷ ls) ≡ s =
      subst (λ x. join_lines x ≡ s) e (join_lines-split_lines s) in
    elim (Bool-cases (is_newline c)) [
      | inl n ↦ rw (n, e) (ap (λ x. 10 ∷ x) rest ∙ ap (λ x. x ∷ s) (sym ((==_iff c 10).0 n)))
      | inr n ↦ rw (n, e) (join_lines-put_first c l ls ∙ ap (λ x. c ∷ x) rest)
    ]

pub split_lines-All : (s : Text) → All IsLine (split_lines s)
unfolding split_lines
split_lines-All [] = (tt, tt)
split_lines-All (c ∷ s) =
    let (l, ls, e) = split_lines-first s in
    let rest : All IsLine (l ∷ ls) = subst (λ x. All IsLine x) e (split_lines-All s) in
    elim (Bool-cases (is_newline c)) [
      | inl n ↦ rw (n, e) (tt, rest)
      | inr n ↦ rw (n, e) ((n, rest.0), rest.1)
    ]
