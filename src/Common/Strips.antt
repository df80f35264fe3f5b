-- ===== src/Common/Strips.antt =====
-- `str.strip` of a text that is stripped.
use Prim.Native.Nat.{ℕ}
use mathlib.Core.Bool.{true, false}
use mathlib.Core.Path.{◌≡◌, refl, ap, ◌∙◌}
use mathlib.Core.List.{[], ◌∷◌, ◌++◌}
use native.Mathlib.Omega.{arith}
use supersurf_billing_phase.Common.Texts.{
  Text, is_blank, is_space, all_codes, is_lower_hex, ascii_lower, lstrip, rstrip, strip,
}

rstrip_idem : (t : Text) → rstrip (rstrip t) ≡ rstrip t
unfolding rstrip
rstrip_idem [] = refl
rstrip_idem (c ∷ t) = ground (arith, rstrip_idem t)

lstrip-rstrip : (t : Text) → lstrip (rstrip (lstrip t)) ≡ rstrip (lstrip t)
unfolding lstrip rstrip
lstrip-rstrip [] = refl
lstrip-rstrip (c ∷ t) = ground (arith, lstrip-rstrip t)

pub strip_idem : (t : Text) → strip (strip t) ≡ strip t
unfolding strip
strip_idem t = ap rstrip (lstrip-rstrip t) ∙ rstrip_idem (lstrip t)

pub rstrip-strip : (t : Text) → rstrip (strip t) ≡ strip t
unfolding strip
rstrip-strip t = rstrip_idem (lstrip t)

rstrip-∷ : (c : ℕ) (t : Text) → rstrip t ≡ t → is_blank t ≡ false → rstrip (c ∷ t) ≡ c ∷ t
unfolding rstrip is_space
rstrip-∷ c [] h filled = cc
rstrip-∷ c (d ∷ t) h filled = ground (arith, h)

-- What stands before a text without a space at its end keeps it so.
pub rstrip-++ : (a t : Text) → rstrip t ≡ t → is_blank t ≡ false → rstrip (a ++ t) ≡ a ++ t
rstrip-++ [] t h filled = h
rstrip-++ (c ∷ []) t h filled = rstrip-∷ c t h filled
rstrip-++ (c ∷ d ∷ a) t h filled = rstrip-∷ c (d ∷ a ++ t) (rstrip-++ (d ∷ a) t h filled) refl

pub rstrip-hex : (t : Text) → all_codes is_lower_hex t ≡ true → rstrip t ≡ t
unfolding rstrip all_codes is_space
rstrip-hex [] h = refl
rstrip-hex (c ∷ t) h = ground (arith, h, rstrip-hex t)

pub ascii_lower-hex : (t : Text) → all_codes is_lower_hex t ≡ true → ascii_lower t ≡ t
unfolding all_codes
ascii_lower-hex [] h = refl
ascii_lower-hex (c ∷ t) h = ground (arith, h, ascii_lower-hex t)

lstrip-hex : (t : Text) → all_codes is_lower_hex t ≡ true → lstrip t ≡ t
unfolding lstrip all_codes is_space
lstrip-hex [] h = refl
lstrip-hex (c ∷ t) h = ground (arith, h)

pub strip-hex : (t : Text) → all_codes is_lower_hex t ≡ true → strip t ≡ t
unfolding strip
strip-hex t h = ap rstrip (lstrip-hex t h) ∙ rstrip-hex t h
