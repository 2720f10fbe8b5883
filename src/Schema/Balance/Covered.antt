-- ===== src/Schema/Balance/Covered.antt =====
-- The invariant of the balance rule: an entry that does not balance has a check still queued, and a
-- row of balance_checks stands for an event that is still queued.
use pacioli.Prelude.{
  ◌≡◌, refl, ◌∙◌, subst, subst⁻¹, ◌⊎◌, inl, inr, true, not, List, [], ◌∷◌, keep, Has, Bool-cases,
  Has-keep,
}
use pacioli.Schema.Server.{Uuid}
use pacioli.Schema.Tables.{
  Database, Modes, Event, done, contains_check, ids, all_immediate, initially_deferred,
}
use pacioli.Schema.Triggers.{settle, is_due, commit, idempotency_key_names_a_transaction}
use pacioli.Schema.Balance.Firing.{
  Balanced, Checked, Fired, fire_all-Fired, >>=-done, done-injective, Yields,
}

abbrev pub IsPending : Uuid → List Event → Type 0
IsPending t q = Has (Event.transaction_inserted t) q ⊎ Has (Event.check_inserted t) q

pub record IsCovered (d : Database) : Type 0 where
  pub due : (t : Uuid) → Has t (ids d.transactions) → Balanced t d.postings ⊎ IsPending t d.queue
  pub queued :
      (t : Uuid) → contains_check t d.balance_checks ≡ true → Has (Event.check_inserted t) d.queue

-- An event that does not fire now stays queued.
still_queued :
    (m : Modes) (q : List Event) (e : Event)
    → Has e q
    → Has e (keep (is_due m) q) ⊎ Has e (keep (λ x. not (is_due m x)) q)
still_queued m q e h = elim (Bool-cases (is_due m e)) [
  | inl now ↦ inl (Has-keep (is_due m) e q h now)
  | inr later ↦ inr (Has-keep (λ x. not (is_due m x)) e q h (rw later))
]

Checked-SameTables :
    (e : Event) (d : Database) (q : List Event) → Checked e (record d { queue = q }) → Checked e d
unfolding idempotency_key_names_a_transaction
Checked-SameTables (Event.transaction_inserted t) d q h = h
Checked-SameTables (Event.check_inserted t) d q h = h
Checked-SameTables (Event.key_written k) d q h = h

pub settle-Fired :
    (d d' : Database)
    → settle d ≡ done d'
    → Fired
        (keep (is_due d.modes) d.queue)
        (record d { queue = keep (λ e. not (is_due d.modes e)) d.queue })
        d'
unfolding settle
settle-Fired d d' h = fire_all-Fired _ _ d' h

module _ (d d' : Database) (c : IsCovered d) (h : settle d ≡ done d') where
  event_done : (e : Event) → Has e d.queue → Checked e d ⊎ Has e d'.queue
  event_done e m =
      let f = settle-Fired d d' h in
      elim (still_queued d.modes d.queue e m) [
        | inl now ↦ inl (Checked-SameTables e d _ (f.checked e now))
        | inr later ↦ inr (rw f.same.queue later)
      ]

  settle-due :
      (t : Uuid) → Has t (ids d'.transactions) → Balanced t d'.postings ⊎ IsPending t d'.queue
  settle-due t m =
      let f = settle-Fired d d' h in
      let balanced = λ (b : Balanced t d.postings). subst⁻¹ (Balanced t) f.same.postings b in
      elim (c.due t (subst (λ ts. Has t (ids ts)) f.same.transactions m)) [
        | inl b ↦ inl (balanced b)
        | inr (inl p) ↦ elim (event_done (Event.transaction_inserted t) p) [
          | inl b ↦ inl (balanced b)
          | inr q ↦ inr (inl q)
        ]
        | inr (inr p) ↦ elim (event_done (Event.check_inserted t) p) [
          | inl b ↦ inl (balanced b)
          | inr q ↦ inr (inr q)
        ]
      ]

  settle-queued :
      (t : Uuid) → contains_check t d'.balance_checks ≡ true → Has (Event.check_inserted t) d'.queue
  settle-queued t m =
      let f = settle-Fired d d' h in
      let (row, unfired) = f.left t m in
      elim (still_queued d.modes d.queue (Event.check_inserted t) (c.queued t row)) [
        | inl now ↦ absurd (unfired now)
        | inr later ↦ rw f.same.queue later
      ]

-- The end of a statement keeps the invariant.
pub settle-IsCovered : (d : Database) → IsCovered d → Yields IsCovered (settle d)
settle-IsCovered d c = record {
  at = λ d' h. record { due = settle-due d d' c h; queued = settle-queued d d' c h };
}

pub keep-immediate : (q : List Event) → keep (λ e. not (is_due all_immediate e)) q ≡ []
keep-immediate [] = refl
keep-immediate (Event.transaction_inserted t ∷ q) = keep-immediate q
keep-immediate (Event.check_inserted t ∷ q) = keep-immediate q
keep-immediate (Event.key_written k ∷ q) = keep-immediate q

-- Every entry balances.
abbrev pub AllBalanced : Database → Type 0
AllBalanced d = (t : Uuid) → Has t (ids d.transactions) → Balanced t d.postings

-- A transaction that ends leaves no event queued, and with none queued every entry balances.
pub quiet-AllBalanced : (d : Database) → IsCovered d → d.queue ≡ [] → AllBalanced d
quiet-AllBalanced d c e t m = elim (c.due t m) [
  | inl b ↦ b
  | inr (inl p) ↦ absurd (subst (Has (Event.transaction_inserted t)) e p)
  | inr (inr p) ↦ absurd (subst (Has (Event.check_inserted t)) e p)
]

pub record IsQuiet (d : Database) : Type 0 where
  pub covered : IsCovered d
  pub queue : d.queue ≡ []
  pub modes : d.modes ≡ initially_deferred

modes_of-IsCovered : (d : Database) (m : Modes) → IsCovered d → IsCovered (record d { modes = m })
modes_of-IsCovered d m c = record { due = c.due; queued = c.queued }

-- COMMIT, where nothing refuses it.
pub commit-IsQuiet : (d : Database) → IsCovered d → Yields IsQuiet (commit d)
unfolding commit
commit-IsQuiet d c = record {
  at = λ d' h.
      let now : Database = record d { modes = all_immediate } in
      let (d₁, p, q) = >>=-done (settle now) _ h in
      let c₁ = (settle-IsCovered now (modes_of-IsCovered d all_immediate c)).at d₁ p in
      let f = settle-Fired now d₁ p in
      subst IsQuiet (done-injective q) (record {
        covered = modes_of-IsCovered d₁ initially_deferred c₁;
        queue = f.same.queue ∙ keep-immediate d.queue;
        modes = refl;
      });
}
