-- ===== src/Controls/Run/Others.antt =====
-- What a run of the controls leaves alone, whatever its writes come to.
use pacioli.Prelude.{
  ◌≡◌, refl, ◌∙◌, ap, inl, inr, true, false, Bool, Option, none, some, List, [], ◌∷◌, ◌==◌, All,
  Bool-cases,
}
use pacioli.Controls.Text.{Text, text_eq, is_empty, trim_space, count, replace}
use pacioli.Controls.File.{Control, Outcome, ok, fault}
use pacioli.Controls.Run.{
  Files, World, Written, write_file, write_as, write_path, Verdict, load_controls, apply, applied,
  made, mutated, run_control, noted, next, run_each, run_loaded, run_clean, run_controls,
}
use pacioli.Controls.Run.Restores.{LeavesFiles}

-- The control is not about the file.
abbrev pub Spares : Text → Control → Type 0
Spares p c = text_eq p c.file ≡ false

module _ (w : World) (leaves : LeavesFiles w) (p : Text) where
  write_as-other :
      (path t : Text) (fs : Files) (x : Written)
      → text_eq p path ≡ false
      → (write_as w path t fs x).1 p ≡ fs p
  unfolding write_file
  write_as-other path t fs Written.whole h = rw h refl
  write_as-other path t fs (Written.partly left) h = rw h refl

  -- A mutation, with the undo that it hands back.
  Kept : Files → Outcome (Files → Files) × Files → Type 0
  Kept fs (fault e, fs') = fs' p ≡ fs p
  Kept fs (ok undo, fs') = (fs' p ≡ fs p) × ((x : Files) → undo x p ≡ x p)

  made-Kept :
      (c : Control) (original : Text) (fs : Files) (b : Bool) (fs' : Files)
      → Spares p c
      → fs' p ≡ fs p
      → Kept fs (made w c original (b, fs'))
  unfolding Kept
  made-Kept c original fs true fs' h k =
      (k, λ x. write_as-other c.file original x (w.writes c.file original x) h)
  made-Kept c original fs false fs' h k = k

  applied-Kept :
      (c : Control) (o : Option Text) (fs : Files) → Spares p c → Kept fs (applied w c o fs)
  applied-Kept c none fs h = unfold Kept in refl
  applied-Kept c (some original) fs h = elim (Bool-cases (count original c.before == 1)) [
    | inl k ↦ elim (Bool-cases (w.stats c.file fs)) [
      | inl q ↦
          let t = replace original c.before c.after in
          rw (k, q)
            (made-Kept c original fs (write_path w c.file t fs).0 (write_path w c.file t fs).1 h
              (write_as-other c.file t fs (w.writes c.file t fs) h))
      | inr q ↦ rw (k, q) (unfold Kept in refl)
    ]
    | inr k ↦ rw k (unfold Kept in refl)
  ]

  mutated-other :
      (c : Control) (fs : Files) (r : Outcome (Files → Files) × Files)
      → Kept fs r
      → (mutated w c r).1 p ≡ fs p
  unfolding Kept
  mutated-other c fs (fault e, fs') k = k
  mutated-other c fs (ok undo, fs') (k, u) =
      u (w.shell c.run fs').1 ∙ ap (λ x. x p) (leaves c.run fs') ∙ k

  run_control-other : (c : Control) (fs : Files) → Spares p c → (run_control w c fs).1 p ≡ fs p
  unfolding run_control apply
  run_control-other c fs h = elim (Bool-cases (w.shell c.run fs).0) [
    | inl g ↦ rw (leaves c.run fs, g) (mutated-other c fs _ (applied-Kept c (fs c.file) fs h))
    | inr g ↦ rw (leaves c.run fs, g) refl
  ]

  next-other :
      (c : Control) (bad : List (Text × Verdict))
      (rest : List (Text × Verdict) → Files → Outcome (List (Text × Verdict)) × Files)
      → ((bs : List (Text × Verdict)) (fs : Files) → (rest bs fs).1 p ≡ fs p)
      → (r : Outcome Verdict × Files) → (next w c r bad rest).1 p ≡ r.1 p
  next-other c bad rest k (fault e, fs) = refl
  next-other c bad rest k (ok v, fs) = k (noted w c v bad) fs

  run_each-other :
      (cs : List Control) (bad : List (Text × Verdict)) (fs : Files)
      → All (Spares p) cs
      → (run_each w cs bad fs).1 p ≡ fs p
  unfolding run_each
  run_each-other [] bad fs h = refl
  run_each-other (c ∷ cs) bad fs (h, hs) =
      next-other c bad (run_each w cs) (λ bs fs'. run_each-other cs bs fs' hs) (run_control w c fs)
      ∙ run_control-other c fs h

  run_loaded-other :
      (o : Outcome (List Control)) (fs : Files)
      → ((cs : List Control) → o ≡ ok cs → All (Spares p) cs)
      → (run_loaded w o fs).1 p ≡ fs p
  run_loaded-other (fault e) fs h = refl
  run_loaded-other (ok cs) fs h = run_each-other cs [] fs (h cs refl)

  -- Where commands leave the files as they are, runControls leaves a file that no control that it
  -- loads names as it was, whatever its writes come to: one that fails, by the mutation or by the undo
  -- whose error is dropped, can have changed no other file than the control's.
  pub run_controls-other :
      (fs : Files)
      → ((cs : List Control) → load_controls w fs ≡ ok cs → All (Spares p) cs)
      → (run_controls w fs).1 p ≡ fs p
  unfolding run_controls
  run_controls-other fs h = cleaned w.status
    where
      cleaned : (o : Option Text) → (run_clean w o fs).1 p ≡ fs p
      cleaned none = refl
      cleaned (some out) = elim (Bool-cases (is_empty (trim_space out))) [
        | inl e ↦ rw e (run_loaded-other (load_controls w fs) fs h)
        | inr e ↦ rw e refl
      ]
