-- ===== src/Schema/Balance/Firing.antt =====
-- What a run of queued trigger events has checked and what it leaves alone.
use pacioli.Prelude.{
  ◌<◌, ◌≡◌, refl, subst, inl, inr, Bool, true, false, not, List, [], ◌∷◌, arith, ◌==◌, keep, Has,
  if◌then◌else◌,
}
use pacioli.Prelude.Int.{pos, zero_of_is_zero}
use pacioli.Failure.{PgError}
use pacioli.Schema.Server.{Uuid}
use pacioli.Schema.Tables.{
  Database, Event, PostingRow, Answer, done, refused, ◌>>◌, ◌>>=◌, contains_check, count_legs,
  sum_legs,
}
use pacioli.Schema.Triggers.{
  assert_transaction_balances, idempotency_key_names_a_transaction, fire, fire_all,
}

-- The entry has legs, and they cancel.
abbrev pub Balanced : Uuid → List PostingRow → Type 0
Balanced t ps = (0 < count_legs t ps) × (sum_legs t ps ≡ pos 0)

pub assert-Balanced :
    (t : Uuid) (d : Database) → assert_transaction_balances t d ≡ done tt → Balanced t d.postings
unfolding assert_transaction_balances
assert-Balanced t d h = ground (arith, zero_of_is_zero (sum_legs t d.postings))

pub contains_check-keep :
    (u t : Uuid) (us : List Uuid)
    → contains_check u (keep (λ v. not (v == t)) us) ≡ true
    → (contains_check u us ≡ true) × ¬ (t ≡ u)
unfolding contains_check
contains_check-keep u t [] h = cc
contains_check-keep u t (v ∷ us) h = ground (arith, contains_check-keep u t us)

-- The tables on which no trigger writes are the same, and so are the queue and the modes.
pub record SameBook (d d' : Database) : Type 0 where
  pub accounts : d'.accounts ≡ d.accounts
  pub transactions : d'.transactions ≡ d.transactions
  pub postings : d'.postings ≡ d.postings
  pub idempotency_keys : d'.idempotency_keys ≡ d.idempotency_keys
  pub queue : d'.queue ≡ d.queue
  pub modes : d'.modes ≡ d.modes

-- What one event has checked.
abbrev pub Checked : Event → Database → Type 0
Checked (Event.transaction_inserted t) d = Balanced t d.postings
Checked (Event.check_inserted t) d = Balanced t d.postings
Checked (Event.key_written k) d = idempotency_key_names_a_transaction k d ≡ done tt

abbrev pub AllChecked : List Event → Database → Type 0
AllChecked es d = (e : Event) → Has e es → Checked e d

-- A row of the queue table that is left was there before, and no event fired on it.
abbrev pub Left : List Event → Database → Database → Type 0
Left es d d' =
    (t : Uuid)
    → contains_check t d'.balance_checks ≡ true
    → (contains_check t d.balance_checks ≡ true) × ¬ Has (Event.check_inserted t) es

pub >>-done :
    {A : Type 0} (m : Answer (Unit {0})) (k : Answer A) {a : A}
    → (m >> k) ≡ done a
    → (m ≡ done tt) × (k ≡ done a)
>>-done (done tt) k h = (refl, h)
>>-done (refused e) k h = cc

pub same-SameBook : (d : Database) → SameBook d d
same-SameBook d = ground arith

fire-SameBook : (e : Event) (d d' : Database) → fire e d ≡ done d' → SameBook d d'
unfolding fire
fire-SameBook (Event.transaction_inserted t) d d' h =
    ground (arith, >>-done (assert_transaction_balances t d) (done d) h)
fire-SameBook (Event.check_inserted t) d d' h = ground arith
fire-SameBook (Event.key_written k) d d' h = ground arith

fire-Checked : (e : Event) (d d' : Database) → fire e d ≡ done d' → Checked e d
unfolding fire
fire-Checked (Event.transaction_inserted t) d d' h = assert-Balanced t d (>>-done _ _ h).0
fire-Checked (Event.check_inserted t) d d' h = assert-Balanced t d (>>-done _ _ h).0
fire-Checked (Event.key_written k) d d' h = (>>-done _ _ h).0

fire-Left : (e : Event) (d d' : Database) → fire e d ≡ done d' → Left (e ∷ []) d d'
unfolding fire
fire-Left (Event.transaction_inserted t) d d' h u c = ground arith
fire-Left (Event.check_inserted t) d d' h u c =
    ground (arith, contains_check-keep u t d.balance_checks)
fire-Left (Event.key_written k) d d' h u c = ground arith

SameBook-trans : {a b c : Database} → SameBook a b → SameBook b c → SameBook a c
SameBook-trans p q = ground arith

Checked-SameBook : (e : Event) {d d' : Database} → SameBook d d' → Checked e d' → Checked e d
unfolding idempotency_key_names_a_transaction
Checked-SameBook (Event.transaction_inserted t) s h = subst (Balanced t) s.postings h
Checked-SameBook (Event.check_inserted t) s h = subst (Balanced t) s.postings h
Checked-SameBook (Event.key_written k) s h = rw s.idempotency_keys at h

pub >>=-done :
    {A B : Type 0} (m : Answer A) (f : A → Answer B) {b : B}
    → (m >>= f) ≡ done b
    → (a : A) × (m ≡ done a) × (f a ≡ done b)
>>=-done (done a) f h = (a, refl, h)
>>=-done (refused e) f h = cc

-- A run of events that nothing refuses.
pub record Fired (es : List Event) (d d' : Database) : Type 0 where
  pub same : SameBook d d'
  pub checked : AllChecked es d
  pub left : Left es d d'

Fired-cons :
    {e : Event} {es : List Event} {a b c : Database}
    → SameBook a b
    → Checked e a
    → Left (e ∷ []) a b
    → Fired es b c
    → Fired (e ∷ es) a c
Fired-cons {e} {a = a} s h l f = record {
  same = SameBook-trans s f.same;
  checked = λ x m. elim m [
    | inl p ↦ subst (λ y. Checked y a) p h
    | inr m' ↦ Checked-SameBook x s (f.checked x m')
  ];
  left = λ t c.
      let p = f.left t c in
      let q = l t p.0 in (q.0, λ m. elim m [ inl r ↦ q.1 (inl r) | inr r ↦ p.1 r ]);
}

pub fire_all-Fired : (es : List Event) (d d' : Database) → fire_all es d ≡ done d' → Fired es d d'
unfolding fire_all
fire_all-Fired [] d d' h = record {
  same = ground arith;
  checked = λ e m. elim m [ ];
  left = λ t c. (ground arith, λ m. m);
}
fire_all-Fired (e ∷ es) d d' h =
    let (a, p, q) = >>=-done (fire e d) (fire_all es) h in
    Fired-cons (fire-SameBook e d a p) (fire-Checked e d a p) (fire-Left e d a p)
      (fire_all-Fired es a d' q)

-- What the answer is, if it is no refusal, satisfies `P`.
pub record Yields {A : Type 0} (P : A → Type 0) (m : Answer A) : Type 0 where
  pub at : (a : A) → m ≡ done a → P a

module _ {A : Type 0} {P : A → Type 0} where
  pub Yields-refused : (e : PgError) → Yields P (refused e)
  Yields-refused e = record { at = λ a h. cc }

  pub Yields-if :
      (b : Bool) (m n : Answer A) → Yields P m → Yields P n → Yields P (if b then m else n)
  Yields-if true m n p q = p
  Yields-if false m n p q = q

  pub Yields-bind :
      {B : Type 0} (m : Answer B) (f : B → Answer A)
      → ((b : B) → Yields P (f b))
      → Yields P (m >>= f)
  Yields-bind (done b) f k = k b
  Yields-bind (refused e) f k = Yields-refused e

pub ruleset yields_rules = (Yields-refused, Yields-if, Yields-bind)

pub done-injective : {A : Type 0} {a b : A} → done a ≡ done b → a ≡ b
done-injective h = cc
