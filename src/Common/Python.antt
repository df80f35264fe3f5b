-- ===== src/Common/Python.antt =====
-- The parts of Python's Unicode database that the code reads.
use Prim.Native.Nat.{ℕ}
use mathlib.Core.Bool.{Bool}
use supersurf_billing_phase.Common.Texts.{Text}

-- `str.upper` of one code point, the class `\d` of the regular expressions, `str.isdigit` of one code
-- point, and `str.lower` of a text.
pub record Unicode : Type 0 where
  pub upper : ℕ → Text
  pub is_decimal : ℕ → Bool
  pub is_digit : ℕ → Bool
  pub lower : Text → Text
