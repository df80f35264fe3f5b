-- ===== src/Money/Exact.antt =====
-- `ksh_to_minor_units` accepts exactly the positive amounts of whole cents, and loses nothing.
use supersurf_billing_phase.Common.{
  refl, ℕ, zero, suc, ◌+◌, ◌*◌, ◌/◌, ◌%◌, ◌^◌, ◌<◌, ◌≡◌, Bool, true, false, arith, inl, inr,
  Bool-cases, ltb, ◌==◌, if◌then◌else◌, sym, ap, ◌∙◌, ◌↔◌, ==_iff,
}
use native.Mathlib.Nat.{pow-suc}
use supersurf_billing_phase.Exec.{ok, err}
use supersurf_billing_phase.Errors.{Error}
use supersurf_billing_phase.Money.{
  Exponent, Decimal, round_half_even, cents, is_exact, precision_bound, ksh_to_minor_units,
  minor_units_to_ksh, hundredth, quantize, amount_column,
}

-- The number is `n` cents, exactly.
abbrev pub IsCents : ℕ → ℕ → Exponent → Type 0
IsCents n coefficient (Exponent.tens k) = n ≡ coefficient * 10 ^ (k + 2)
IsCents n coefficient (Exponent.decimals zero) = n ≡ coefficient * 100
IsCents n coefficient (Exponent.decimals (suc zero)) = n ≡ coefficient * 10
IsCents n coefficient (Exponent.decimals (suc (suc k))) = n * 10 ^ k ≡ coefficient

pow10_pos : (k : ℕ) → 0 < 10 ^ k
pow10_pos zero = omega arith
pow10_pos (suc k) = simp pow-suc (omega (arith, pow10_pos k))

round-mul : (n m : ℕ) → 0 < m → round_half_even (n * m) m ≡ n
unfolding round_half_even
round-mul n m h =
    let r : (n * m) % m ≡ 0 = grind arith in
    let q : (n * m) / m ≡ n = grind arith in ground (arith, r, q)

cents-IsCents :
    (n coefficient : ℕ) (x : Exponent) → IsCents n coefficient x → cents coefficient x ≡ n
unfolding cents
cents-IsCents n c (Exponent.tens k) h = sym h
cents-IsCents n c (Exponent.decimals zero) h = sym h
cents-IsCents n c (Exponent.decimals (suc zero)) h = sym h
cents-IsCents n c (Exponent.decimals (suc (suc k))) h =
    ap (λ (t : ℕ). round_half_even t (10 ^ k)) (sym h) ∙ round-mul n (10 ^ k) (pow10_pos k)

is_exact-IsCents :
    (n coefficient : ℕ) (x : Exponent) → (is_exact coefficient x n ≡ true) ↔ IsCents n coefficient x
unfolding is_exact
is_exact-IsCents n c (Exponent.tens k) = ==_iff n (c * 10 ^ (k + 2))
is_exact-IsCents n c (Exponent.decimals zero) = ==_iff n (c * 100)
is_exact-IsCents n c (Exponent.decimals (suc zero)) = ==_iff n (c * 10)
is_exact-IsCents n c (Exponent.decimals (suc (suc k))) = ==_iff (n * 10 ^ k) c

-- The result is `n` exactly when the value is finite, positive, and `n` cents of at most 28 digits.
pub ksh_to_minor_units_iff :
    (negative : Bool) (coefficient : ℕ) (x : Exponent) (n : ℕ)
    → (ksh_to_minor_units (Decimal.finite negative coefficient x) ≡ ok n)
      ↔ ((negative ≡ false) × (0 < n) × (n < precision_bound) × IsCents n coefficient x)
unfolding ksh_to_minor_units
ksh_to_minor_units_iff negative c x n = (
  λ h. ground (arith, is_exact-IsCents (cents c x) c x),
  λ h. ground (arith, is_exact-IsCents n c x, cents-IsCents n c x h.3),
)

pub round_one : (n : ℕ) → round_half_even n 1 ≡ n
unfolding round_half_even
round_one n = ground arith

-- The division by 100 is undone by the quantization.
cents-hundredth :
    (value : ℕ)
    → quantize (hundredth value) ≡ (
        if ltb value precision_bound then ok (amount_column value) else err Error.invalid_operation)
unfolding hundredth quantize cents
cents-hundredth value = elim (Bool-cases (value % 100 == 0)) [
  | inl whole ↦
      let back : (value / 100) * 100 ≡ value = ground (arith, whole) in rw (whole, back) refl
  | inr parts ↦ elim (Bool-cases (value % 10 == 0)) [
    | inl tenths ↦
        let back : (value / 10) * 10 ≡ value = ground (arith, tenths) in
        rw (parts, tenths, back) refl
    | inr cents_left ↦ rw (parts, cents_left, round_one value) refl
  ]
]

-- Up to 28 digits, `minor_units_to_ksh` gives the amount with two decimals.
pub minor_units_to_ksh_lem :
    (value : ℕ) → value < precision_bound → minor_units_to_ksh value ≡ ok (amount_column value)
unfolding minor_units_to_ksh
minor_units_to_ksh_lem value fits =
    let small : ltb value precision_bound ≡ true = ground arith in
    cents-hundredth value ∙ rw small refl

-- Every positive amount up to 28 digits survives the way to shillings and back: the division by 100
-- and its quantization return, and `ksh_to_minor_units` makes the amount of the quotient again.
pub ksh_to_minor_units-minor_units_to_ksh :
    (n : ℕ)
    → 0 < n
    → n < precision_bound
    → (d : Decimal) × (minor_units_to_ksh n ≡ ok d) × (ksh_to_minor_units d ≡ ok n)
ksh_to_minor_units-minor_units_to_ksh n positive fits = (
  amount_column n,
  minor_units_to_ksh_lem n fits,
  (ksh_to_minor_units_iff false n (Exponent.decimals 2) n).1 (refl, positive, fits, omega arith),
)
