-- ===== src/Ledger/Entry.antt =====
-- The data of internal/ledger/ledger.go, and how a server's refusal of an entry is classified.
use pacioli.Prelude.{
  ℕ, Bool, true, false, not, ◌&&◌, ◌||◌, Option, none, some, List, [], ◌∷◌, String, str_eq, ◌==◌,
  length, if◌then◌else◌,
}
use pacioli.Prelude.Int.{ℤ, negsuc, is_negative}
use pacioli.Failure.{Failure, Sentinel, PgError, as_server}
use pacioli.Schema.Server.{codes}
use pacioli.Ledger.Minor.{Minor, no_units, minor_of, add}

pub record Leg : Type 0 where
  pub account : String
  pub amount_minor : ℤ

-- `occurred_at` is no instant where Go's time is zero.
pub record Entry : Type 0 where
  pub currency : String
  pub description : String
  pub legs : List Leg
  pub occurred_at : Option ℕ

-- The loop of `net`.
unfoldable pub sum_from : Minor → List Leg → Minor
sum_from sum [] = sum
sum_from sum (leg ∷ legs) = sum_from (add sum (minor_of leg.amount_minor)) legs

unfoldable pub net : Entry → Minor × ℕ
unfolding sum_from
net e = (sum_from no_units e.legs, length e.legs)

-- strings.Contains, on code points
abbrev pub starts_with : List ℕ → List ℕ → Bool
starts_with [] s = true
starts_with (c ∷ p) [] = false
starts_with (c ∷ p) (d ∷ s) = c == d && starts_with p s

abbrev pub contains : List ℕ → List ℕ → Bool
contains [] p = starts_with p []
contains (c ∷ s) p = starts_with p (c ∷ s) || contains s p

-- Leg{}, and the index that stands for no leg
abbrev pub no_leg : Leg
no_leg = record { account = ""; amount_minor = no_units }

abbrev pub no_index : ℤ
no_index = negsuc 0

-- fmt.Errorf("%w: …: %w", reason, pgErr)
abbrev pub refusal_of : Sentinel → PgError → Failure
refusal_of reason e = Failure.join (Failure.sentinel reason) (Failure.server e)

unfoldable pub leg_err : ℤ → Leg → Sentinel → PgError → Failure
leg_err index leg reason e =
    Failure.leg
      (record { index = index; account = leg.account; amount_minor = leg.amount_minor; holds = "" })
      (refusal_of reason e)

unfoldable pub unbalanced : Entry → PgError → Failure
unbalanced e p =
    if (net e).1 == 0
    then Failure.wrap "the entry carried no postings, and an entry needs at least two that cancel"
        (refusal_of Sentinel.unbalanced p)
    else refusal_of Sentinel.unbalanced p

unfoldable pub classify_server : PgError → Entry → ℤ → Leg → Failure
unfolding leg_err unbalanced
classify_server p e index leg =
    if str_eq p.code "LB001"
    then unbalanced e p
    else if str_eq p.code "23502" && str_eq p.column_name "account_id"
    then leg_err index leg Sentinel.unknown_account p
    else if str_eq p.code "23503" && contains (codes p.constraint_name) (codes "transaction_id")
    then leg_err index leg Sentinel.currency_mismatch p
    else if not (is_negative index)
    then leg_err index leg Sentinel.rejected p
    else refusal_of Sentinel.rejected p

unfoldable pub classify : Entry → ℤ → Leg → Failure → Failure
unfolding classify_server
classify e index leg err = elim (as_server err) [
  | none ↦ err
  | some p ↦ classify_server p e index leg
]
