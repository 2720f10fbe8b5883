-- ===== src/Controls/Run/Edits.antt =====
-- What apply does to the file that a control names.
use pacioli.Prelude.{
  ◌≡◌, refl, sym, ◌∙◌, ap, inl, inr, Option, none, some, ◌++◌, ◌==◌, ==_iff, Bool-cases,
}
use pacioli.Controls.Text.{Text, count, replace}
use pacioli.Controls.Text.Edit.{replace-ReplacedOnce}
use pacioli.Controls.File.{Control, Fault, ok, fault}
use pacioli.Controls.Run.{Files, World, write_file, Written, write_as, made, apply, applied}

module _ (w : World) (c : Control) (fs : Files) where
  -- The control's text is one stretch of its file, and the files are those with that stretch replaced.
  abbrev pub IsEdit : Files → Type 0
  IsEdit fs' =
      (front : Text) × (back : Text) × (fs c.file ≡ some (front ++ (c.before ++ back)))
      × (fs' ≡ write_file c.file (front ++ (c.after ++ back)) fs)

  made-IsEdit :
      (original : Text) (fs' : Files) (undo : Files → Files)
      → fs c.file ≡ some original
      → count original c.before ≡ 1
      → (x : Written)
      → made w c original (write_as w c.file (replace original c.before c.after) fs x)
        ≡ (ok undo, fs')
      → IsEdit fs'
  made-IsEdit original fs' undo f k Written.whole h =
      let (front, back, whole, edited) = replace-ReplacedOnce original c.before c.after 0 k in
      (
        front,
        back,
        f ∙ ap some whole,
        sym (ap (λ x. x.1) h) ∙ ap (λ t. write_file c.file t fs) edited,
      )
  made-IsEdit original fs' undo f k (Written.partly left) h =
      let bad : fault (Fault.unwritable c.file) ≡ ok undo = ap (λ x. x.0) h in cc

  applied-IsEdit :
      (o : Option Text) (fs' : Files) (undo : Files → Files)
      → fs c.file ≡ o
      → applied w c o fs ≡ (ok undo, fs')
      → IsEdit fs'
  applied-IsEdit none fs' undo f h =
      let bad : fault (Fault.unreadable_file c.file) ≡ ok undo = ap (λ x. x.0) h in cc
  applied-IsEdit (some original) fs' undo f h = elim (Bool-cases (count original c.before == 1)) [
    | inl k ↦ elim (Bool-cases (w.stats c.file fs)) [
      | inl q ↦ made-IsEdit original fs' undo f ((==_iff _ 1).0 k) _ (rw (k, q) at h)
      | inr q ↦
          let bad : fault (Fault.no_mode c.file) ≡ ok undo = ap (λ x. x.0) (rw (k, q) at h) in cc
    ]
    | inr k ↦ let bad : fault (Fault.rotted c.path) ≡ ok undo = ap (λ x. x.0) (rw k at h) in cc
  ]

  -- Where apply makes its mutation, the control's text stood in its file, and the mutation replaces
  -- that one stretch by the control's other text and writes no other file.
  pub apply-IsEdit :
      (fs' : Files) (undo : Files → Files) → apply w c fs ≡ (ok undo, fs') → IsEdit fs'
  unfolding apply
  apply-IsEdit fs' undo h = applied-IsEdit (fs c.file) fs' undo refl h
