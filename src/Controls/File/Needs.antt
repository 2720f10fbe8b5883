-- ===== src/Controls/File/Needs.antt =====
-- What parseControl insists on.
use pacioli.Prelude.{◌≡◌, refl, subst, inl, inr, false, Option, none, some, Bool-cases}
use pacioli.Controls.Text.{Text, is_empty, split_lines}
use pacioli.Controls.File.{
  Control, Outcome, ok, fault, Draft, and_then, checked, control_of, parse_lines, first_draft,
  parse_control,
}

-- The control comes from this file, and has a title, a file, a command and a text to replace.
pub record IsWhole (p : Text) (c : Control) : Type 0 where
  pub path : c.path ≡ p
  pub title : is_empty c.title ≡ false
  pub file : is_empty c.file ≡ false
  pub run : is_empty c.run ≡ false
  pub before : is_empty c.before ≡ false

-- The outcome, where there is one, is whole.
abbrev Gives : Text → Outcome Control → Type 0
Gives path (ok c) = IsWhole path c
Gives path (fault e) = Unit

module _ (path : Text) where
  checked-Gives : (c : Control) → c.path ≡ path → Gives path (checked path c)
  unfolding checked
  checked-Gives c p = elim (Bool-cases (is_empty c.title)) [
    | inl t ↦ rw t tt
    | inr t ↦ elim (Bool-cases (is_empty c.file)) [
      | inl f ↦ rw (t, f) tt
      | inr f ↦ elim (Bool-cases (is_empty c.run)) [
        | inl r ↦ rw (t, f, r) tt
        | inr r ↦ elim (Bool-cases (is_empty c.before)) [
          | inl b ↦ rw (t, f, r, b) tt
          | inr b ↦ rw (t, f, r, b) (record { path = p; title = t; file = f; run = r; before = b })
        ]
      ]
    ]
  ]

  drafted-Gives :
      (o : Outcome Draft) → Gives path (and_then path o λ d. checked path (control_of path d))
  drafted-Gives (fault e) = tt
  drafted-Gives (ok d) = checked-Gives (control_of path d) refl

  parse_control-Gives : (o : Option Text) → Gives path (parse_control path o)
  unfolding parse_control
  parse_control-Gives none = tt
  parse_control-Gives (some raw) =
      drafted-Gives (parse_lines path (split_lines raw) (first_draft path))

  given : (o : Outcome Control) (c : Control) → Gives path o → o ≡ ok c → IsWhole path c
  given o c g h = subst (Gives path) h g

  -- A control that parseControl returns carries its path and has a title, a file, a command and a
  -- text to replace, none of them empty.
  pub parse_control-IsWhole :
      (o : Option Text) (c : Control) → parse_control path o ≡ ok c → IsWhole path c
  parse_control-IsWhole o c h = given _ c (parse_control-Gives o) h
