-- ===== src/Money/Format.antt =====
-- `format_ksh` of billing/money.py: an amount in minor units as people read it.
use Prim.Native.Nat.{ℕ, zero, suc, ◌+◌, ◌-◌, ◌*◌, ◌/◌, ◌%◌, ◌≤◌, ◌<◌}
use supersurf_billing_phase.Exec.{Result, ok, err}
use supersurf_billing_phase.Errors.{Error}
use supersurf_billing_phase.Money.{Decimal, cents, precision_bound, minor_units_to_ksh}
use supersurf_billing_phase.Money.Exact.{minor_units_to_ksh_lem, round_one}
use supersurf_billing_phase.Common.{
  refl, sym, ap, ◌≡◌, ◌∙◌, inl, inr, [], ◌∷◌, ◌++◌, append_assoc, append-nil, arith, Text, codes,
  ltb, ◌==◌, if◌then◌else◌, Bool-cases, digit, digits, zero_padded, read, false,
}

-- `f"{n:,}"`: the digits in groups of three. The number itself is enough fuel.
unfoldable pub grouped : ℕ → ℕ → Text
unfolding digits zero_padded
grouped zero n = zero_padded 1 n
grouped (suc fuel) n =
    let rest = grouped fuel (n / 1000) in
    if ltb n 1000
    then zero_padded 1 n
    else rest ++ b',' ∷ digit (n / 100) ∷ digit (n / 10) ∷ digit n ∷ []

-- The text of an amount of hundredths: whole shillings without decimals, others with two.
unfoldable pub format_amount : ℕ → Text
unfolding grouped digits zero_padded
format_amount value =
    if value % 100 == 0
    then codes "KSh " ++ grouped (value / 100) (value / 100)
    else codes "KSh " ++ grouped (value / 100) (value / 100) ++ b'.' ∷ zero_padded 2 (value % 100)

-- The texts of `amount`: `int` and the comparison raise for what is no finite number.
unfoldable pub format_decimal : Decimal → Result Error Text
unfolding format_amount cents
format_decimal (Decimal.finite _ coefficient exponent) =
    ok (format_amount (cents coefficient exponent))
format_decimal _ = err Error.invalid_operation

unfoldable pub format_result : Result Error Decimal → Result Error Text
unfolding format_decimal
format_result (ok amount) = format_decimal amount
format_result (err e) = err e

-- `format_ksh` of a value that is not negative.
unfoldable pub format_ksh : ℕ → Result Error Text
unfolding format_result minor_units_to_ksh
format_ksh value = format_result (minor_units_to_ksh value)

-- What a text of shillings says in minor units, behind the shillings read before: commas are passed
-- over, and what follows a point is decimals.
abbrev pub shillings_read : ℕ → Text → ℕ
shillings_read n [] = n * 100
shillings_read n (c ∷ t) =
    let rest = shillings_read (if c == b',' then n else n * 10 + (c - b'0')) t in
    if c == b'.' then read n t else rest

abbrev pub amount_read : Text → ℕ
amount_read (_ ∷ _ ∷ _ ∷ _ ∷ t) = shillings_read 0 t
amount_read _ = 0

no_point : (n : ℕ) → (digit n == b'.') ≡ false
no_point n = ground arith

no_comma : (n : ℕ) → (digit n == b',') ≡ false
no_comma n = ground arith

digit_value : (n : ℕ) → digit n - b'0' ≡ n % 10
digit_value n = omega arith

-- One digit more.
read_on : (w n : ℕ) (t : Text) → w ≡ n / 10 → shillings_read w (digit n ∷ t) ≡ shillings_read n t
read_on w n t h =
    rw (no_point n)
      (rw (no_comma n) (rw (digit_value n) (ap (λ m. shillings_read m t) (omega (arith, h)))))

read_digits :
    (fuel n : ℕ) (t : Text) → n ≤ fuel → shillings_read 0 (digits fuel n ++ t) ≡ shillings_read n t
unfolding digits
read_digits zero n t h = ap (λ m. shillings_read m t) (omega (arith, h))
read_digits (suc fuel) n t h = elim (Bool-cases (n == 0)) [
  | inl done ↦ rw done (ap (λ m. shillings_read m t) (ground (arith, done)))
  | inr more ↦ rw more (
      rw (append_assoc (digits fuel (n / 10)) (digit n ∷ []) t) (
        read_digits fuel (n / 10) (digit n ∷ t) (ground (arith, more)) ∙ read_on (n / 10) n t refl))
]

read_one : (n : ℕ) (t : Text) → shillings_read 0 (zero_padded 1 n ++ t) ≡ shillings_read n t
unfolding zero_padded
read_one n t =
    rw (append_assoc (digits (n / 10) (n / 10)) (digit n ∷ []) t)
      (read_digits (n / 10) (n / 10) (digit n ∷ t) (omega arith) ∙ read_on (n / 10) n t refl)

read_three :
    (n : ℕ) (t : Text)
    → shillings_read (n / 1000) (b',' ∷ digit (n / 100) ∷ digit (n / 10) ∷ digit n ∷ t)
      ≡ shillings_read n t
read_three n t =
    read_on (n / 1000) (n / 100) (digit (n / 10) ∷ digit n ∷ t) (omega arith)
    ∙ read_on (n / 100) (n / 10) (digit n ∷ t) (omega arith)
    ∙ read_on (n / 10) n t refl

read_grouped :
    (fuel n : ℕ) (t : Text) → n ≤ fuel → shillings_read 0 (grouped fuel n ++ t) ≡ shillings_read n t
unfolding grouped
read_grouped zero n t h = read_one n t
read_grouped (suc fuel) n t h = elim (Bool-cases (ltb n 1000)) [
  | inl small ↦ rw small (read_one n t)
  | inr large ↦ rw large (
      rw
        (append_assoc (grouped fuel (n / 1000))
          (b',' ∷ digit (n / 100) ∷ digit (n / 10) ∷ digit n ∷ []) t)
        (read_grouped fuel (n / 1000) _ (ground (arith, large)) ∙ read_three n t))
]

-- The two decimals of a value that has some.
read_decimals : (n : ℕ) → read (n / 100) (zero_padded 2 (n % 100)) ≡ n
unfolding digits zero_padded
read_decimals n =
    let none_before : (n % 100) / 10 / 10 ≡ 0 = omega arith in rw none_before (omega arith)

format_amount-read : (value : ℕ) → amount_read (format_amount value) ≡ value
unfolding format_amount
format_amount-read value = elim (Bool-cases (value % 100 == 0)) [
  | inl whole ↦ rw whole (
      ap (shillings_read 0) (sym (append-nil (grouped (value / 100) (value / 100))))
      ∙ read_grouped (value / 100) (value / 100) [] (omega arith)
      ∙ ground (arith, whole))
  | inr parts ↦
      rw parts (read_grouped (value / 100) (value / 100) _ (omega arith) ∙ read_decimals value)
]

-- What `format_ksh` shows is the value: read as a person reads it, with the commas between groups of
-- three digits passed over and the decimals behind the point taken as cents, the text of every value
-- of at most 28 digits that is not negative gives that value back, whether it has decimals or is whole
-- shillings.
pub format_ksh-read :
    (value : ℕ)
    → value < precision_bound
    → (t : Text) × (format_ksh value ≡ ok t) × (amount_read t ≡ value)
unfolding format_ksh format_result format_decimal cents
format_ksh-read value fits = (
  format_amount value,
  ap format_result (minor_units_to_ksh_lem value fits)
      ∙ ap (λ n. ok (format_amount n)) (round_one value),
  format_amount-read value,
)
