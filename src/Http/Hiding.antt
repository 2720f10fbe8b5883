-- ===== src/Http/Hiding.antt =====
-- What a 500 says, and how long a client that is told to wait has to wait.
use pacioli.Prelude.{
  ℕ, ◌+◌, ◌-◌, ◌*◌, ◌^◌, ◌≤◌, ◌<◌, ◌≡◌, ◌≢◌, refl, sym, ◌∙◌, Bool, true, false, Option, none, some,
  String, arith, some-eq, subst, if◌then◌else◌,
}
use pacioli.Failure.{Failure, Sentinel, is}
use pacioli.Ledger.Open.{Account}
use pacioli.Http.Wire.{Library, ErrorBody, Reply, internal_error, retry_seconds, second}
use pacioli.Http.Refusals.{
  fail, refuse, refuse_account, TransactionRequest, if_reached, not_reached, busy, gave_up,
  cancelled, as_overload,
}

-- A 500 carries the two words and no more.
abbrev pub Hides : Reply → Type 0
Hides r = r.status ≡ 500 → r ≡ internal_error

Hides-if : (b : Bool) (r r' : Reply) → Hides r → Hides r' → Hides (if b then r else r')
Hides-if true r r' h h' = h
Hides-if false r r' h h' = h'

-- A reply under another status hides nothing and is not asked to.
Hides-other : (n : ℕ) (r : Reply) → r.status ≡ n → n ≢ 500 → Hides r
Hides-other n r e h s = absurd (h (sym e ∙ s))

Hides-internal : Hides internal_error
Hides-internal s = refl

Hides-given :
    (o : Option Reply) (r : Reply)
    → ((g : Reply) → o ≡ some g → Hides g)
    → Hides r
    → Hides (elim o [ none ↦ r | some given ↦ given ])
Hides-given none r hg h = h
Hides-given (some g) r hg h = hg g refl

Hides-wait :
    (lib : Library) (o : Option ℕ) (b : Bool) (g : Reply)
    → elim o [ some c ↦ some (busy lib c) | none ↦ if b then some gave_up else none ] ≡ some g
    → Hides g
unfolding busy
Hides-wait lib (some c) b g h = subst Hides (some-eq h) (Hides-other 503 _ refl (omega arith))
Hides-wait lib none true g h = subst Hides (some-eq h) (Hides-other 503 _ refl (omega arith))
Hides-wait lib none false g h = cc

not_reached-Hides : (lib : Library) (e : Failure) (g : Reply) → not_reached lib e ≡ some g → Hides g
unfolding not_reached
not_reached-Hides lib e g h = Hides-wait lib (as_overload e) (cancelled e) g h

Hides-if_reached : (lib : Library) (e : Failure) (r : Reply) → Hides r → Hides (if_reached lib e r)
Hides-if_reached lib e r h = Hides-given (not_reached lib e) r (not_reached-Hides lib e) h

-- Whatever the error, a 500 from fail, refuse or refuseAccount says `internal error` and carries
-- nothing of the error or of the request.
pub refusals-Hides :
    (lib : Library) (e : Failure) (named : ErrorBody) (req : TransactionRequest) (key : String)
    (a : Account)
    → Hides (fail lib e named) × Hides (refuse lib e req key) × Hides (refuse_account lib e a)
unfolding fail refuse refuse_account
refusals-Hides lib e named req key a = (
  Hides-if_reached lib e _ (
      Hides-if (is Sentinel.unknown_account e) _ _ (Hides-other _ _ refl (omega arith)) (
        Hides-if (is Sentinel.unknown_kind e) _ _ (Hides-other _ _ refl (omega arith)) (
          Hides-if (is Sentinel.bad_transaction_id e) _ _ (Hides-other _ _ refl (omega arith)) (
            Hides-if (is Sentinel.unknown_transaction e) _ _ (Hides-other _ _ refl (omega arith))
              Hides-internal)))),
  Hides-if_reached lib e _ (
      Hides-if (is Sentinel.key_reused e) _ _ (Hides-other _ _ refl (omega arith)) (
        Hides-if (is Sentinel.bad_key e) _ _ (Hides-other _ _ refl (omega arith)) (
          Hides-if (is Sentinel.unbalanced e) _ _ (Hides-other _ _ refl (omega arith)) (
            Hides-if (is Sentinel.unknown_account e) _ _ (Hides-other _ _ refl (omega arith)) (
              Hides-if (is Sentinel.currency_mismatch e) _ _ (Hides-other _ _ refl (omega arith)) (
                Hides-if (is Sentinel.rejected e) _ _ (Hides-other _ _ refl (omega arith))
                  Hides-internal)))))),
  Hides-if_reached lib e _ (
      Hides-if (is Sentinel.account_exists e) _ _ (Hides-other _ _ refl (omega arith)) (
        Hides-if (is Sentinel.unknown_kind e) _ _ (Hides-other _ _ refl (omega arith)) (
          Hides-if (is Sentinel.rejected e) _ _ (Hides-other _ _ refl (omega arith))
            Hides-internal))),
)

-- Below the ceiling at which the sum of retryAfter wraps around an int64, Retry-After is at least one
-- second and covers the ceiling, and a second less does not cover a ceiling that is not zero.
pub retry_seconds_lem :
    (d : ℕ)
    → d + 999999999 < 2 ^ 63
    → (1 ≤ retry_seconds d)
      × (d ≤ retry_seconds d * second)
      × (0 < d → (retry_seconds d - 1) * second < d)
unfolding retry_seconds
retry_seconds_lem d h = ground arith
