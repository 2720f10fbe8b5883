-- ===== src/Controls/File/Parses.antt =====
-- A control that is written out is read back, and what is read has all that a control needs.
use pacioli.Prelude.{
  ℕ, ◌≡◌, refl, sym, ◌∙◌, ap, false, some, List, [], ◌∷◌, ◌++◌, All, All-append, append-nil,
  append_assoc,
}
use pacioli.Controls.Text.{
  trimmed, Text, text_eq, is_empty, has_prefix, is_space, is_newline, trim_left, trim_right,
  trim_space, split_lines, join_lines, cut,
}
use pacioli.Controls.Text.Lines.{
  IsLine, split_lines-join_lines, join_lines-split_lines, split_lines-All,
}
use pacioli.Controls.File.{
  Control, ok, Section, Draft, before_mark, after_mark, title_key, file_key, run_key, set_key,
  header_line, in_section, parse_line, and_then, parse_lines, checked, control_of, first_draft,
  parse_control,
}

-- `key: value`
abbrev header : Text → Text → Text
header k v = k ++ 58 ∷ 32 ∷ v

abbrev pub written : Control → List Text
written c =
    header file_key c.file ∷ header run_key c.run ∷ before_mark ∷ split_lines c.before
    ++ after_mark ∷ split_lines c.after

-- A control as a file of negative-controls spells it.
abbrev pub print : Control → Text
print c = join_lines (header title_key c.title ∷ written c)

-- The value of a key: a line that is not blank and has no space at its ends.
pub record IsValue (v : Text) : Type 0 where
  pub line : IsLine v
  pub bare : trim_space v ≡ v
  pub there : is_empty v ≡ false

-- A line of a section: neither of the marks.
pub record IsBody (l : Text) : Type 0 where
  pub not_before : text_eq l before_mark ≡ false
  pub not_after : text_eq l after_mark ≡ false

-- A part that ends in no newline, none of whose lines is a mark.
pub record IsPart (t : Text) : Type 0 where
  pub ends : trim_right is_newline t ≡ t
  pub lines : All IsBody (split_lines t)

pub record IsPrintable (c : Control) : Type 0 where
  pub title : IsValue c.title
  pub file : IsValue c.file
  pub run : IsValue c.run
  pub before : IsPart c.before
  pub there : is_empty c.before ≡ false
  pub after : IsPart c.after

-- A word that begins a line `key: value`.
record IsKey (k : Text) : Type 0 where
  not_before : (s : Text) → text_eq (k ++ s) before_mark ≡ false
  not_after : (s : Text) → text_eq (k ++ s) after_mark ≡ false
  not_comment : (s : Text) → has_prefix (k ++ s) (35 ∷ []) ≡ false
  not_blank : (s : Text) → is_empty (trim_space (k ++ s)) ≡ false
  cuts : (s : Text) → cut (k ++ 58 ∷ s) ≡ some (k, s)
  bare : trim_space k ≡ k

not_blank : (c : ℕ) (s : Text) → is_space c ≡ false → is_empty (trim_space (c ∷ s)) ≡ false
unfolding trim_space trim_left trim_right
not_blank c s h = rw (h, h) (kept (trim_right is_space s))
  where
    kept : (t : Text) → is_empty (trimmed false c t) ≡ false
    kept [] = refl
    kept (d ∷ t) = refl

trim_space-space : (v : Text) → trim_space (32 ∷ v) ≡ trim_space v
unfolding trim_space trim_left is_space
trim_space-space v = refl

IsKey-title : IsKey title_key
unfolding text_eq has_prefix cut trim_space trim_left trim_right is_space
IsKey-title = record {
  not_before = λ s. refl;
  not_after = λ s. refl;
  not_comment = λ s. refl;
  not_blank = λ s. not_blank 116 (105 ∷ 116 ∷ 108 ∷ 101 ∷ s) refl;
  cuts = λ s. refl;
  bare = refl;
}

IsKey-file : IsKey file_key
unfolding text_eq has_prefix cut trim_space trim_left trim_right is_space
IsKey-file = record {
  not_before = λ s. refl;
  not_after = λ s. refl;
  not_comment = λ s. refl;
  not_blank = λ s. not_blank 102 (105 ∷ 108 ∷ 101 ∷ s) refl;
  cuts = λ s. refl;
  bare = refl;
}

IsKey-run : IsKey run_key
unfolding text_eq has_prefix cut trim_space trim_left trim_right is_space
IsKey-run = record {
  not_before = λ s. refl;
  not_after = λ s. refl;
  not_comment = λ s. refl;
  not_blank = λ s. not_blank 114 (117 ∷ 110 ∷ s) refl;
  cuts = λ s. refl;
  bare = refl;
}

module _ (path : Text) where
  body_line :
      (l : Text) (d : Draft) → IsBody l → parse_line path l d ≡ in_section path d.section l d
  unfolding parse_line
  body_line l d h = rw (h.not_before, h.not_after) refl

  before_lines :
      (ls rest : List Text) (d : Draft)
      → d.section ≡ Section.before
      → All IsBody ls
      → parse_lines path (ls ++ rest) d
        ≡ parse_lines path rest (record d { before = d.before ++ ls })
  unfolding parse_lines
  before_lines [] rest d s h =
      ap (λ x. parse_lines path rest (record d { before = x })) (sym (append-nil d.before))
  before_lines (l ∷ ls) rest d s (h, hs) =
      ap (λ o. and_then path o (parse_lines path (ls ++ rest)))
        (body_line l d h ∙ ap (λ x. in_section path x l d) s)
      ∙ before_lines ls rest (record d { before = d.before ++ l ∷ [] }) s hs
      ∙ ap (λ x. parse_lines path rest (record d { before = x }))
          (append_assoc d.before (l ∷ []) ls)

  after_lines :
      (ls : List Text) (d : Draft)
      → d.section ≡ Section.after
      → All IsBody ls
      → parse_lines path ls d ≡ ok (record d { after = d.after ++ ls })
  unfolding parse_lines
  after_lines [] d s h = ap (λ x. ok (record d { after = x })) (sym (append-nil d.after))
  after_lines (l ∷ ls) d s (h, hs) =
      ap (λ o. and_then path o (parse_lines path ls))
        (body_line l d h ∙ ap (λ x. in_section path x l d) s)
      ∙ after_lines ls (record d { after = d.after ++ l ∷ [] }) s hs
      ∙ ap (λ x. ok (record d { after = x })) (append_assoc d.after (l ∷ []) ls)

  key_line :
      (k v : Text) (d : Draft)
      → IsKey k
      → IsValue v
      → d.section ≡ Section.header
      → parse_line path (header k v) d ≡ set_key path k v d
  unfolding header_line
  key_line k v d key h s =
      let tail = 58 ∷ 32 ∷ v in
      body_line (header k v) d
        (record { not_before = key.not_before tail; not_after = key.not_after tail })
      ∙ ap (λ x. in_section path x (header k v) d) s
      ∙ rw (key.not_comment tail, key.not_blank tail, key.cuts (32 ∷ v), key.bare)
          (ap (λ x. set_key path k x d) (trim_space-space v ∙ h.bare))

  IsLine-header : (k v : Text) → IsLine k → IsValue v → IsLine (header k v)
  IsLine-header [] v tt h = (refl, (refl, h.line))
  IsLine-header (c ∷ k) v (n, ns) h = (n, IsLine-header k v ns h)

  written-All : (c : Control) → IsPrintable c → All IsLine (written c)
  written-All c h = (
    IsLine-header file_key c.file (refl, (refl, (refl, (refl, tt)))) h.file,
    (
      IsLine-header run_key c.run (refl, (refl, (refl, tt))) h.run,
      (
        (refl, (refl, (refl, (refl, (refl, (refl, (refl, (refl, (refl, (refl, tt)))))))))),
        All-append IsLine (split_lines c.before) _ (split_lines-All c.before) (
          (refl, (refl, (refl, (refl, (refl, (refl, (refl, (refl, (refl, tt))))))))),
          split_lines-All c.after,
        ),
      ),
    ),
  )

  -- The draft behind all the lines.
  last_draft : Control → Draft
  last_draft c = record {
    section = Section.after;
    title = c.title;
    file = c.file;
    run = c.run;
    before = split_lines c.before;
    after = split_lines c.after;
  }

  -- The lines before the first section.
  headers :
      (c : Control) (rest : List Text)
      → IsPrintable c
      → parse_lines path
          (header title_key c.title ∷ header file_key c.file ∷ header run_key c.run ∷ rest)
          (first_draft path)
        ≡ parse_lines path rest
            (record (first_draft path) { title = c.title; file = c.file; run = c.run })
  unfolding parse_lines set_key text_eq
  headers c rest h =
      let d₀ = first_draft path in
      let d₁ : Draft = record d₀ { title = c.title } in
      let d₂ : Draft = record d₁ { file = c.file } in
      ap
        (λ o.
          and_then path o (parse_lines path (header file_key c.file ∷ header run_key c.run ∷ rest)))
        (key_line title_key c.title d₀ IsKey-title h.title refl)
      ∙ ap (λ o. and_then path o (parse_lines path (header run_key c.run ∷ rest)))
          (key_line file_key c.file d₁ IsKey-file h.file refl)
      ∙ ap (λ o. and_then path o (parse_lines path rest))
          (key_line run_key c.run d₂ IsKey-run h.run refl)

  written-parse_lines :
      (c : Control)
      → IsPrintable c
      → parse_lines path (header title_key c.title ∷ written c) (first_draft path)
        ≡ ok (last_draft c)
  unfolding parse_lines parse_line text_eq last_draft
  written-parse_lines c h =
      let d : Draft = record (first_draft path) {
        section = Section.before;
        title = c.title;
        file = c.file;
        run = c.run;
      } in
      let d' : Draft = record d { section = Section.after; before = split_lines c.before } in
      headers c (before_mark ∷ split_lines c.before ++ after_mark ∷ split_lines c.after) h
      ∙ before_lines (split_lines c.before) (after_mark ∷ split_lines c.after) d refl h.before.lines
      ∙ after_lines (split_lines c.after) d' refl h.after.lines

  checked-whole : (c : Control) → IsPrintable c → checked path c ≡ ok c
  unfolding checked
  checked-whole c h = rw (h.title.there, h.file.there, h.run.there, h.there) refl

  control_of-last_draft :
      (c : Control) → c.path ≡ path → IsPrintable c → control_of path (last_draft c) ≡ c
  unfolding last_draft
  control_of-last_draft c p h = λ i. record {
    path = sym p i;
    title = c.title;
    file = c.file;
    run = c.run;
    before = (ap (trim_right is_newline) (join_lines-split_lines c.before) ∙ h.before.ends) i;
    after = (ap (trim_right is_newline) (join_lines-split_lines c.after) ∙ h.after.ends) i;
  }

  -- A control that is written as a file, with values that have no space at their ends and sections
  -- that hold no mark and end in no newline, is parsed to itself.
  pub parse_control-print :
      (c : Control) → c.path ≡ path → IsPrintable c → parse_control path (some (print c)) ≡ ok c
  unfolding parse_control
  parse_control-print c p h =
      let first = header title_key c.title in
      let title =
        IsLine-header title_key c.title (refl, (refl, (refl, (refl, (refl, tt))))) h.title in
      ap
        (λ ls.
          and_then path (parse_lines path ls (first_draft path))
            λ d. checked path (control_of path d))
        (split_lines-join_lines first (written c) title (written-All c h))
      ∙ ap (λ o. and_then path o λ d. checked path (control_of path d)) (written-parse_lines c h)
      ∙ ap (checked path) (control_of-last_draft c p h)
      ∙ checked-whole c h
