-- ===== src/Controls/Run.antt =====
-- loadControls, apply, exec and runControls of tools/controls/main.go, over the files of the
-- working tree. What is printed is left out.
pub mod Restores
pub mod Edits
pub mod Others
use pacioli.Prelude.{
  ℕ, Bool, true, false, not, ◌&&◌, ◌||◌, Option, none, some, List, [], ◌∷◌, ◌++◌, ◌==◌, ltb,
  if◌then◌else◌,
}
use pacioli.Controls.Text.{Text, text_eq, is_empty, trim_space, count, replace}
use pacioli.Controls.File.{Control, Fault, Outcome, ok, fault, parse_control}

abbrev pub Files : Type 0
Files = Text → Option Text

-- os.WriteFile: the text is written, or it fails and leaves what it leaves.
pub data Written : Type 0 where
  whole : Written
  partly : Option Text → Written

-- What git, the shell and the file system do: the output of `git status --porcelain`, the paths of
-- the glob, whether os.Stat answers, what a write comes to, and a command's exit status with the
-- files behind it.
pub record World : Type 0 where
  pub status : Option Text
  pub glob : Option (List Text)
  pub stats : Text → Files → Bool
  pub writes : Text → Text → Files → Written
  pub shell : Text → Files → Bool × Files

unfoldable pub write_file : Text → Text → Files → Files
write_file path t fs p = if text_eq p path then some t else fs p

abbrev pub set_file : Text → Option Text → Files → Files
set_file path o fs p = if text_eq p path then o else fs p

abbrev pub before_text : Text → Text → Bool
before_text s [] = false
before_text [] (d ∷ t) = true
before_text (c ∷ s) (d ∷ t) = ltb c d || c == d && before_text s t

-- sort.Strings
unfoldable pub insert_path : Text → List Text → List Text
insert_path p [] = p ∷ []
insert_path p (q ∷ qs) =
    let rest = insert_path p qs in if before_text p q then p ∷ q ∷ qs else q ∷ rest

unfoldable pub sort_paths : List Text → List Text
sort_paths [] = []
sort_paths (p ∷ ps) = insert_path p (sort_paths ps)

abbrev pub add_control : Outcome Control → Outcome (List Control) → Outcome (List Control)
add_control (fault e) rest = fault e
add_control (ok c) (fault e) = fault e
add_control (ok c) (ok cs) = ok (c ∷ cs)

-- The loop of loadControls.
unfoldable pub parse_all : Files → List Text → Outcome (List Control)
parse_all fs [] = ok []
parse_all fs (p ∷ ps) = add_control (parse_control p (fs p)) (parse_all fs ps)

abbrev pub loaded : Files → List Text → Outcome (List Control)
loaded fs [] = fault Fault.no_controls
loaded fs (p ∷ ps) = parse_all fs (p ∷ ps)

-- How a control's command went.
pub data Verdict : Type 0 where
  as_it_should already_red stayed_green : Verdict

module _ (w : World) where
  abbrev globbed : Files → Option (List Text) → Outcome (List Control)
  globbed fs none = fault Fault.bad_glob
  globbed fs (some paths) = loaded fs (sort_paths paths)

  unfoldable pub load_controls : Files → Outcome (List Control)
  load_controls fs = globbed fs w.glob

  abbrev pub write_as : Text → Text → Files → Written → Bool × Files
  write_as path t fs Written.whole = (true, write_file path t fs)
  write_as path t fs (Written.partly left) = (false, set_file path left fs)

  -- os.WriteFile: whether it succeeded, and the files behind it
  abbrev pub write_path : Text → Text → Files → Bool × Files
  write_path path t fs = write_as path t fs (w.writes path t fs)

  -- The undo drops the error of its write.
  abbrev pub made : Control → Text → Bool × Files → Outcome (Files → Files) × Files
  made c original (true, fs) = (ok (λ x. (write_path c.file original x).1), fs)
  made c original (false, fs) = (fault (Fault.unwritable c.file), fs)

  abbrev pub applied : Control → Option Text → Files → Outcome (Files → Files) × Files
  applied c none fs = (fault (Fault.unreadable_file c.file), fs)
  applied c (some original) fs =
      if count original c.before == 1
      then (if w.stats c.file fs
          then made c original (write_path c.file (replace original c.before c.after) fs)
          else (fault (Fault.no_mode c.file), fs))
      else (fault (Fault.rotted c.path), fs)

  -- apply: the undo, and the files with the mutation made
  unfoldable pub apply : Control → Files → Outcome (Files → Files) × Files
  apply c fs = applied c (fs c.file) fs

  abbrev pub undone : Bool → (Files → Files) → Files → Outcome Verdict × Files
  undone green undo fs =
      (ok (if green then Verdict.stayed_green else Verdict.as_it_should), undo fs)

  abbrev pub mutated : Control → Outcome (Files → Files) × Files → Outcome Verdict × Files
  mutated c (fault e, fs) = (fault e, fs)
  mutated c (ok undo, fs) = let (green, fs') = w.shell c.run fs in undone green undo fs'

  -- One round of runControls.
  unfoldable pub run_control : Control → Files → Outcome Verdict × Files
  run_control c fs =
      let (green, fs') = w.shell c.run fs in
      if green then mutated c (apply c fs') else (ok Verdict.already_red, fs')

  abbrev pub noted : Control → Verdict → List (Text × Verdict) → List (Text × Verdict)
  noted c Verdict.as_it_should bad = bad
  noted c Verdict.already_red bad = bad ++ (c.path, Verdict.already_red) ∷ []
  noted c Verdict.stayed_green bad = bad ++ (c.path, Verdict.stayed_green) ∷ []

  abbrev pub next :
      Control
      → Outcome Verdict × Files
      → List (Text × Verdict)
      → (List (Text × Verdict) → Files → Outcome (List (Text × Verdict)) × Files)
      → Outcome (List (Text × Verdict)) × Files
  next c (fault e, fs) bad rest = (fault e, fs)
  next c (ok v, fs) bad rest = rest (noted c v bad) fs

  -- The loop of runControls, with the controls that are bad so far.
  unfoldable pub run_each :
      List Control → List (Text × Verdict) → Files → Outcome (List (Text × Verdict)) × Files
  run_each [] bad fs = (ok bad, fs)
  run_each (c ∷ cs) bad fs = next c (run_control c fs) bad (run_each cs)

  abbrev pub run_loaded : Outcome (List Control) → Files → Outcome (List (Text × Verdict)) × Files
  run_loaded (fault e) fs = (fault e, fs)
  run_loaded (ok cs) fs = run_each cs [] fs

  abbrev pub run_clean : Option Text → Files → Outcome (List (Text × Verdict)) × Files
  run_clean none fs = (fault Fault.git_failed, fs)
  run_clean (some out) fs =
      if is_empty (trim_space out)
      then run_loaded (load_controls fs) fs
      else (fault Fault.dirty_tree, fs)

  -- runControls: the controls that did not go green then red, none where it returns no error
  unfoldable pub run_controls : Files → Outcome (List (Text × Verdict)) × Files
  run_controls fs = run_clean w.status fs
