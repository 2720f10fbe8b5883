-- ===== src/Ledger/Minor.antt =====
-- internal/ledger/minor.go: amounts in minor units, over math/big's integers.
pub mod Text
use pacioli.Prelude.{Bool, ◌==◌, ◌&&◌, if◌then◌else◌}
use pacioli.Prelude.Int.{
  ℤ, pos, negsuc, pos_part, neg_part, ◌+ℤ◌, -ℤ◌, is_positive, is_negative, is_zero as int_is_zero,
}

abbrev pub Minor : Type 0
Minor = ℤ

-- The zero value.
abbrev pub no_units : Minor
no_units = pos 0

-- MinorOf takes an int64 to the same number.
abbrev pub minor_of : ℤ → Minor
minor_of v = v

unfoldable pub add : Minor → Minor → Minor
add m o = m +ℤ o

unfoldable pub neg : Minor → Minor
neg m = -ℤ◌ m

-- -1, 0 or +1
unfoldable pub sign : Minor → ℤ
sign m = if is_negative m then negsuc 0 else if is_positive m then pos 1 else pos 0

unfoldable pub is_zero : Minor → Bool
unfolding sign
is_zero m = int_is_zero (sign m)

unfoldable pub equal : Minor → Minor → Bool
equal m o = pos_part m == pos_part o && neg_part m == neg_part o
