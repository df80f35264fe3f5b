-- ===== src/Money.antt =====
-- Money in minor units: billing/money.py, and the largest amount of billing/models.py.
pub mod Exact
pub mod Format
use supersurf_billing_phase.Common.{
  ℕ, zero, suc, ◌+◌, ◌*◌, ◌/◌, ◌%◌, ◌^◌, Bool, true, false, not, ◌||◌, Option, none, some, Text,
  codes, ltb, ◌==◌, if◌then◌else◌,
}
use supersurf_billing_phase.Exec.{Result, ok, err}
use supersurf_billing_phase.Errors.{Error}

-- `MAX_MONEY_MINOR`, also the largest value of a `PositiveIntegerField`.
abbrev pub max_money_minor : ℕ
max_money_minor = 2147483647

abbrev pub kes : Text
kes = codes "KES"

-- The exponent of a `Decimal`: ten to the `k`, or `k` places after the point.
pub data Exponent : Type 0 where
  tens decimals : ℕ → Exponent

-- What `Decimal(str(value))` gives: a text that it does not parse, a NaN that signals or not, an
-- infinity, or a finite number with its sign, its coefficient and its exponent.
pub data Decimal : Type 0 where
  unparsable signaling_nan quiet_nan infinite : Decimal
  finite : Bool → ℕ → Exponent → Decimal

-- ROUND_HALF_EVEN
unfoldable pub round_half_even : ℕ → ℕ → ℕ
round_half_even n m =
    if ltb (2 * (n % m)) m
    then n / m
    else if ltb m (2 * (n % m))
    then n / m + 1
    else n / m + (n / m) % 2

-- The coefficient that `quantize(Decimal("0.01"))` gives a finite number.
unfoldable pub cents : ℕ → Exponent → ℕ
unfolding round_half_even
cents coefficient (Exponent.tens k) = coefficient * 10 ^ (k + 2)
cents coefficient (Exponent.decimals zero) = coefficient * 100
cents coefficient (Exponent.decimals (suc zero)) = coefficient * 10
cents coefficient (Exponent.decimals (suc (suc k))) = round_half_even coefficient (10 ^ k)

-- `Decimal(str(value)) == amount`, for the quantized amount.
unfoldable pub is_exact : ℕ → Exponent → ℕ → Bool
is_exact coefficient (Exponent.tens k) c = c == coefficient * 10 ^ (k + 2)
is_exact coefficient (Exponent.decimals zero) c = c == coefficient * 100
is_exact coefficient (Exponent.decimals (suc zero)) c = c == coefficient * 10
is_exact coefficient (Exponent.decimals (suc (suc k))) c = c * 10 ^ k == coefficient

-- The precision of the decimal context: no result has more than 28 digits.
abbrev pub precision_bound : ℕ
precision_bound = 10 ^ 28

-- The rest of `ksh_to_minor_units`, from the quantized amount.
unfoldable pub checked_cents : Bool → ℕ → Exponent → ℕ → Result Error ℕ
unfolding is_exact
checked_cents negative coefficient exponent c =
    if negative || c == 0
    then err Error.price_not_positive
    else if not (is_exact coefficient exponent c)
    then err Error.too_many_decimals
    else ok c

-- `ksh_to_minor_units`. A quiet NaN passes `quantize`, and the comparison with 0 raises.
unfoldable pub ksh_to_minor_units : Decimal → Result Error ℕ
unfolding cents checked_cents
ksh_to_minor_units Decimal.unparsable = err Error.invalid_amount
ksh_to_minor_units Decimal.signaling_nan = err Error.invalid_amount
ksh_to_minor_units Decimal.infinite = err Error.invalid_amount
ksh_to_minor_units Decimal.quiet_nan = err Error.invalid_operation
ksh_to_minor_units (Decimal.finite negative coefficient exponent) =
    if ltb (cents coefficient exponent) precision_bound
    then checked_cents negative coefficient exponent (cents coefficient exponent)
    else err Error.invalid_amount

-- `Decimal(value) / Decimal(100)`: exact, with no more decimals than it needs. (A quotient of more than
-- 28 digits is rounded, and `quantize` raises for it then, as for the exact one.)
unfoldable pub hundredth : ℕ → Decimal
hundredth value =
    if value % 100 == 0
    then Decimal.finite false (value / 100) (Exponent.decimals 0)
    else if value % 10 == 0
    then Decimal.finite false (value / 10) (Exponent.decimals 1)
    else Decimal.finite false value (Exponent.decimals 2)

-- `quantize(KES_QUANTUM)`
unfoldable pub quantize : Decimal → Result Error Decimal
unfolding cents
quantize (Decimal.finite negative coefficient exponent) =
    if ltb (cents coefficient exponent) precision_bound
    then ok (Decimal.finite negative (cents coefficient exponent) (Exponent.decimals 2))
    else err Error.invalid_operation
quantize Decimal.quiet_nan = ok Decimal.quiet_nan
quantize _ = err Error.invalid_operation

-- `minor_units_to_ksh` of a value that is not negative.
unfoldable pub minor_units_to_ksh : ℕ → Result Error Decimal
unfolding hundredth quantize
minor_units_to_ksh value = quantize (hundredth value)

-- The value of a `DecimalField` with two places, by its hundredths.
abbrev pub amount_column : ℕ → Decimal
amount_column value = Decimal.finite false value (Exponent.decimals 2)

-- `_normalize_ledger_amount`
unfoldable pub normalize_ledger_amount : Decimal → Result Error ℕ
unfolding ksh_to_minor_units
normalize_ledger_amount amount = elim (ksh_to_minor_units amount) [
  | ok n ↦ if ltb max_money_minor n then err Error.amount_too_large else ok n
  | err e ↦ err e
]
