-- ===== src/Controls/Run/Restores.antt =====
-- What a run of the controls leaves behind, and when it finds nothing bad.
use pacioli.Prelude.{
  ◌≡◌, ◌↔◌, refl, inl, inr, true, false, Option, some, List, [], ◌∷◌, ◌==◌, ==_iff, All, Bool-cases,
}
use pacioli.Controls.Text.{Text, text_eq, is_empty, trim_space, count, replace}
use pacioli.Controls.File.{Control, Outcome, ok}
use pacioli.Controls.Run.{Files, World, write_file, Verdict, load_controls, Written}

pub text_eq_iff : (s t : Text) → (text_eq s t ≡ true) ↔ (s ≡ t)
unfolding text_eq
text_eq_iff [] [] = (λ h. refl, λ h. refl)
text_eq_iff [] (d ∷ t) = (λ h. cc, λ h. cc)
text_eq_iff (c ∷ s) [] = (λ h. cc, λ h. cc)
text_eq_iff (c ∷ s) (d ∷ t) = (
  λ h. elim (Bool-cases (c == d)) [
    | inl e ↦ let head = (==_iff c d).0 e in let tail = (text_eq_iff s t).0 (rw e at h) in cc
    | inr e ↦ cc (rw e at h)
  ],
  λ h. let e = (==_iff c d).1 (cc) in let r = (text_eq_iff s t).1 (cc) in rw (e, r) refl,
)

-- A shell whose commands leave the files as they are, as those that run tests do.
abbrev pub LeavesFiles : World → Type 0
LeavesFiles w = (command : Text) (fs : Files) → (w.shell command fs).1 ≡ fs

-- A file system that is steady: a write that fails leaves the file as it was, and a file that was
-- written can be written again.
pub record IsSteady (w : World) : Type 0 where
  pub spared :
      (path t : Text) (left : Option Text) (fs : Files)
      → w.writes path t fs ≡ Written.partly left
      → left ≡ fs path
  pub again :
      (path t u : Text) (fs : Files)
      → w.writes path t fs ≡ Written.whole
      → w.writes path u (write_file path t fs) ≡ Written.whole

module _ (w : World) (leaves : LeavesFiles w) (steady : IsSteady w) where
  -- What the control says is so: its command is green, its text is there once, and with the
  -- mutation made the command is red.
  abbrev pub Bites : Files → Control → Type 0
  Bites fs c =
      ((w.shell c.run fs).0 ≡ true)
      × ((original : Text) × (fs c.file ≡ some original)
          × (count original c.before ≡ 1)
          × (w.stats c.file fs ≡ true)
          × (w.writes c.file (replace original c.before c.after) fs ≡ Written.whole)
          × ((w.shell c.run (write_file c.file (replace original c.before c.after) fs)).0 ≡ false))

  -- How a round ends: the files are as they were, and it finds nothing bad where the control bites.
  record IsJudged (fs : Files) (c : Control) (r : Outcome Verdict × Files) : Type 0 where
    files : r.1 ≡ fs
    bites : r.0 ≡ ok Verdict.as_it_should → Bites fs c
    found : Bites fs c → r.0 ≡ ok Verdict.as_it_should

  abbrev Rest : Type 0
  Rest = List (Text × Verdict) → Files → Outcome (List (Text × Verdict)) × Files

  -- A tree with nothing to commit, whose controls all parse and bite.
  abbrev pub AllBite : Files → Type 0
  AllBite fs =
      ((out : Text) × (w.status ≡ some out) × (is_empty (trim_space out) ≡ true))
      × ((cs : List Control) × (load_controls w fs ≡ ok cs) × All (Bites fs) cs)
