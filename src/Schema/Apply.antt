-- ===== src/Schema/Apply.antt =====
-- Apply of internal/schema/schema.go: the schema installed once, in one transaction under a lock.
use pacioli.Prelude.{
  ◌≡◌, ◌⊎◌, inl, inr, refl, Bool, true, false, Option, none, some, [], if◌then◌else◌,
}
use pacioli.Failure.{Failure, DriverError, Result, ok, err}
use pacioli.Schema.Tables.{Database, initially_deferred}

-- What each step of Apply is answered: BEGIN, the lock, the probe, the DDL and COMMIT. `committed`
-- is whether the server did commit where its answer was lost.
pub record Steps : Type 0 where
  pub begins : Option DriverError
  pub locks : Option DriverError
  pub probes : Option DriverError
  pub runs : Option DriverError
  pub commits : Option DriverError
  pub committed : Bool

-- The tables that 0001_ledger.sql creates.
abbrev pub installed : Database
installed = record {
  accounts = [];
  transactions = [];
  postings = [];
  balance_checks = [];
  idempotency_keys = [];
  queue = [];
  modes = initially_deferred;
}

-- What the database holds: whether there is a public.postings, which is what the probe asks, and the
-- tables of the schema. A postings that is not the schema's is a catalog as well.
pub record Catalog : Type 0 where
  pub postings : Bool
  pub tables : Option Database

-- The schema is in the database.
abbrev pub complete : Catalog
complete = record { postings = true; tables = some installed }

abbrev pub step :
    Option DriverError
    → Catalog
    → (DriverError → Failure)
    → Result Bool × Catalog
    → Result Bool × Catalog
step none cat f rest = rest
step (some e) cat f rest = (err (f e), cat)

abbrev pub committing : Steps → Catalog → Result Bool × Catalog
committing s cat = elim s.commits [
  | none ↦ (ok true, complete)
  | some e ↦ (err (Failure.wrap "commit" (Failure.driver e)), if s.committed then complete else cat)
]

abbrev pub probed : Steps → Catalog → Bool → Result Bool × Catalog
probed s cat true = step s.commits cat Failure.driver (ok false, cat)
probed s cat false =
    step s.runs cat (λ e. Failure.wrap "apply 0001_ledger.sql" (Failure.driver e))
      (committing s cat)

unfoldable pub apply : Steps → Catalog → Result Bool × Catalog
apply s cat =
    step s.begins cat (λ e. Failure.wrap "begin" (Failure.driver e))
      (step s.locks cat (λ e. Failure.wrap "lock" (Failure.driver e))
        (step s.probes cat (λ e. Failure.wrap "probe for public.postings" (Failure.driver e))
          (probed s cat cat.postings)))

-- What Apply can come to.
pub record IsApplied (s : Steps) (cat : Catalog) (r : Result Bool) (cat' : Catalog) : Type 0 where
  -- where a postings is there nothing is written
  pub keeps : cat.postings ≡ true → cat' ≡ cat
  -- true is the answer where there was none and the schema is there now, and false where there was one
  pub fresh : r ≡ ok true → (cat.postings ≡ false) × (cat' ≡ complete)
  pub found : r ≡ ok false → cat.postings ≡ true
  -- an error leaves the database as it was, unless the answer to a COMMIT that was taken was lost
  pub failed :
      (e : Failure)
      → r ≡ err e
      → (cat' ≡ cat)
        ⊎ ((cat' ≡ complete) × (s.committed ≡ true) × ((x : DriverError) × (s.commits ≡ some x)))

refused-IsApplied : (s : Steps) (cat : Catalog) (e : Failure) → IsApplied s cat (err e) cat
refused-IsApplied s cat e = record {
  keeps = λ h. refl;
  fresh = λ h. cc;
  found = λ h. cc;
  failed = λ x h. inl refl;
}

step-IsApplied :
    (s : Steps) (o : Option DriverError) (cat : Catalog) (f : DriverError → Failure)
    (rest : Result Bool × Catalog)
    → IsApplied s cat rest.0 rest.1
    → IsApplied s cat (step o cat f rest).0 (step o cat f rest).1
step-IsApplied s none cat f rest h = h
step-IsApplied s (some e) cat f rest h = refused-IsApplied s cat (f e)

committing-IsApplied :
    (s : Steps) (cat : Catalog) (o : Option DriverError) (b : Bool)
    → cat.postings ≡ false
    → s.commits ≡ o
    → s.committed ≡ b
    → let r = elim o as (λ x. Result Bool × Catalog) [
      | none ↦ (ok true, complete)
      | some e ↦ (err (Failure.wrap "commit" (Failure.driver e)), if b then complete else cat)
    ] in
      IsApplied s cat r.0 r.1
committing-IsApplied s cat none b p c k = record {
  keeps = λ h. cc;
  fresh = λ h. (p, refl);
  found = λ h. cc;
  failed = λ x h. cc;
}
committing-IsApplied s cat (some e) true p c k = record {
  keeps = λ h. cc;
  fresh = λ h. cc;
  found = λ h. cc;
  failed = λ x h. inr (refl, k, (e, c));
}
committing-IsApplied s cat (some e) false p c k = record {
  keeps = λ h. cc;
  fresh = λ h. cc;
  found = λ h. cc;
  failed = λ x h. inl refl;
}

probed-IsApplied :
    (s : Steps) (cat : Catalog) (b : Bool)
    → cat.postings ≡ b
    → IsApplied s cat (probed s cat b).0 (probed s cat b).1
probed-IsApplied s cat true p =
    step-IsApplied s s.commits cat _ _
      (record { keeps = λ h. refl; fresh = λ h. cc; found = λ h. p; failed = λ x h. cc })
probed-IsApplied s cat false p =
    step-IsApplied s s.runs cat _ _ (committing-IsApplied s cat s.commits s.committed p refl refl)

-- However its steps are answered, Apply writes nothing where there is a public.postings. It answers
-- true only where there was none and the schema is there now, and false only where there was one. An
-- error leaves the database as it was, unless COMMIT was taken and its answer was lost, and then the
-- whole schema is there.
pub apply-IsApplied : (s : Steps) (cat : Catalog) → IsApplied s cat (apply s cat).0 (apply s cat).1
unfolding apply
apply-IsApplied s cat = step-IsApplied s s.begins cat _ _ (
    step-IsApplied s s.locks cat _ _
      (step-IsApplied s s.probes cat _ _ (probed-IsApplied s cat cat.postings refl)))
