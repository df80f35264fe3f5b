-- ===== src/Common/Decimals.antt =====
-- Python's `f"{n:0wd}"`: a number in decimal digits, with zeros before it up to the width.
use Prim.Native.Nat.{ℕ, zero, suc, ◌+◌, ◌-◌, ◌*◌, ◌/◌, ◌%◌, ◌≤◌}
use mathlib.Core.Path.{◌≡◌, refl, sym, ap, ◌∙◌}
use mathlib.Core.Logic.{inl, inr}
use mathlib.Core.List.{[], ◌∷◌, ◌++◌}
use native.Mathlib.Omega.{arith}
use supersurf_billing_phase.Common.Tests.{◌==◌, if◌then◌else◌, Bool-cases}
use supersurf_billing_phase.Common.Texts.{Text}

abbrev pub digit : ℕ → ℕ
digit n = b'0' + n % 10

-- The digits of a positive number, and no digit of zero. The number itself is enough fuel.
unfoldable pub digits : ℕ → ℕ → Text
digits zero n = []
digits (suc fuel) n = let rest = digits fuel (n / 10) in if n == 0 then [] else rest ++ digit n ∷ []

unfoldable pub zero_padded : ℕ → ℕ → Text
unfolding digits
zero_padded zero n = digits n n
zero_padded (suc width) n = zero_padded width (n / 10) ++ digit n ∷ []

-- The number that a text of digits stands for, behind one that was read before.
abbrev pub read : ℕ → Text → ℕ
read n [] = n
read n (c ∷ t) = read (n * 10 + (c - b'0')) t

read-append : (n : ℕ) (s t : Text) → read n (s ++ t) ≡ read (read n s) t
read-append n [] t = refl
read-append n (c ∷ s) t = read-append (n * 10 + (c - b'0')) s t

read-digit : (n : ℕ) (s : Text) → read 0 s ≡ n / 10 → read 0 (s ++ digit n ∷ []) ≡ n
read-digit n s h = read-append 0 s (digit n ∷ []) ∙ omega (arith, h)

read-digits : (fuel n : ℕ) → n ≤ fuel → read 0 (digits fuel n) ≡ n
unfolding digits
read-digits zero n h = omega arith
read-digits (suc fuel) n h = elim (Bool-cases (n == 0)) [
  | inl done ↦ ground (arith, done)
  | inr more ↦
      let before : read 0 (digits fuel (n / 10)) ≡ n / 10 =
        read-digits fuel (n / 10) (ground (arith, more)) in
      rw more (read-digit n (digits fuel (n / 10)) before)
]

read-zero_padded : (width n : ℕ) → read 0 (zero_padded width n) ≡ n
unfolding zero_padded
read-zero_padded zero n = read-digits n n (omega arith)
read-zero_padded (suc width) n =
    read-digit n (zero_padded width (n / 10)) (read-zero_padded width (n / 10))

-- Different numbers are written differently.
pub zero_padded-inj : (width m n : ℕ) → zero_padded width m ≡ zero_padded width n → m ≡ n
zero_padded-inj width m n h =
    sym (read-zero_padded width m) ∙ ap (read 0) h ∙ read-zero_padded width n
