-- ===== src/Controls/File.antt =====
-- parseControl of tools/controls/main.go: a control out of the text of its file.
pub mod Parses
pub mod Needs
use Prim.Native.Char.{code}
use pacioli.Prelude.{
  Bool, true, false, ◌||◌, Option, none, some, List, [], ◌∷◌, ◌++◌, String, if◌then◌else◌,
}
use pacioli.Schema.Server.{codes}
use pacioli.Controls.Text.{
  Text, text_eq, is_empty, has_prefix, is_newline, trim_right, trim_space, split_lines, join_lines,
  cut,
}

-- control
pub record Control : Type 0 where
  pub path : Text
  pub title : Text
  pub file : Text
  pub run : Text
  pub before : Text
  pub after : Text

-- What the tool stops at, with the path or the text that it names.
pub data Fault : Type 0 where
  unreadable_file : Text → Fault
  unreadable_line : Text → Text → Fault
  unknown_key : Text → Text → Fault
  no_title no_file no_run no_before : Text → Fault
  -- apply: how often the `before` text appears
  rotted : Text → Fault
  no_mode unwritable : Text → Fault
  git_failed dirty_tree bad_glob no_controls : Fault

pub data Outcome (A : Type 0) : Type 0 where
  ok : A → Outcome A
  fault : Fault → Outcome A

pub data Section : Type 0 where
  header before after : Section

-- The variables of the loop: the control so far, the section and the lines of both parts.
pub record Draft : Type 0 where
  pub section : Section
  pub title : Text
  pub file : Text
  pub run : Text
  pub before : List Text
  pub after : List Text

abbrev pub before_mark : Text
before_mark = 45 ∷ 45 ∷ 45 ∷ 32 ∷ 98 ∷ 101 ∷ 102 ∷ 111 ∷ 114 ∷ 101 ∷ []

abbrev pub after_mark : Text
after_mark = 45 ∷ 45 ∷ 45 ∷ 32 ∷ 97 ∷ 102 ∷ 116 ∷ 101 ∷ 114 ∷ []

abbrev pub title_key : Text
title_key = 116 ∷ 105 ∷ 116 ∷ 108 ∷ 101 ∷ []

abbrev pub file_key : Text
file_key = 102 ∷ 105 ∷ 108 ∷ 101 ∷ []

abbrev pub run_key : Text
run_key = 114 ∷ 117 ∷ 110 ∷ []

module _ (path : Text) where
  -- `switch strings.TrimSpace(k)`
  unfoldable pub set_key : Text → Text → Draft → Outcome Draft
  set_key k v d =
      if text_eq k title_key
      then ok (record d { title = v })
      else if text_eq k file_key
      then ok (record d { file = v })
      else if text_eq k run_key
      then ok (record d { run = v })
      else fault (Fault.unknown_key path k)

  abbrev pub keyed : Text → Option (Text × Text) → Draft → Outcome Draft
  keyed line none d = fault (Fault.unreadable_line path line)
  keyed line (some (k, v)) d = set_key (trim_space k) (trim_space v) d

  unfoldable pub header_line : Text → Draft → Outcome Draft
  header_line line d =
      if has_prefix line (35 ∷ []) || is_empty (trim_space line)
      then ok d
      else keyed line (cut line) d

  abbrev pub in_section : Section → Text → Draft → Outcome Draft
  in_section Section.before line d = ok (record d { before = d.before ++ line ∷ [] })
  in_section Section.after line d = ok (record d { after = d.after ++ line ∷ [] })
  in_section Section.header line d = header_line line d

  -- One round of the loop over the lines.
  unfoldable pub parse_line : Text → Draft → Outcome Draft
  parse_line line d =
      if text_eq line before_mark
      then ok (record d { section = Section.before })
      else if text_eq line after_mark
      then ok (record d { section = Section.after })
      else in_section d.section line d

  abbrev pub and_then : {A B : Type 0} → Outcome A → (A → Outcome B) → Outcome B
  and_then (fault e) f = fault e
  and_then (ok a) f = f a

  unfoldable pub parse_lines : List Text → Draft → Outcome Draft
  parse_lines [] d = ok d
  parse_lines (line ∷ lines) d = and_then (parse_line line d) (parse_lines lines)

  -- The four checks behind the loop.
  unfoldable pub checked : Control → Outcome Control
  checked c =
      if is_empty c.title
      then fault (Fault.no_title path)
      else if is_empty c.file
      then fault (Fault.no_file path)
      else if is_empty c.run
      then fault (Fault.no_run path)
      else if is_empty c.before
      then fault (Fault.no_before path)
      else ok c

  abbrev pub control_of : Draft → Control
  control_of d = record {
    path = path;
    title = d.title;
    file = d.file;
    run = d.run;
    before = trim_right is_newline (join_lines d.before);
    after = trim_right is_newline (join_lines d.after);
  }

  abbrev pub first_draft : Draft
  first_draft = record {
    section = Section.header;
    title = [];
    file = [];
    run = [];
    before = [];
    after = [];
  }

  -- parseControl, with what os.ReadFile gives
  abbrev pub parse_text : Text → Outcome Control
  parse_text raw = and_then (parse_lines (split_lines raw) first_draft) λ d. checked (control_of d)

  unfoldable pub parse_control : Option Text → Outcome Control
  parse_control none = fault (Fault.unreadable_file path)
  parse_control (some raw) = parse_text raw
