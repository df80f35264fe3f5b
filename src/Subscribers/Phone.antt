-- ===== src/Subscribers/Phone.antt =====
-- `normalize_kenyan_phone` of subscribers/phone.py.
use supersurf_billing_phase.Common.{
  ℕ, Bool, false, ◌&&◌, ◌||◌, Option, none, some, [], ◌∷◌, ◌++◌, ◌==◌, if◌then◌else◌, length, Text,
  codes, is_blank, strip, all_codes, Unicode,
}
use supersurf_billing_phase.Exec.{Result, ok, err}
use supersurf_billing_phase.Errors.{Issue}

-- The characters of `" -()"`.
abbrev pub is_separator : ℕ → Bool
is_separator c = c == b' ' || c == b'-' || c == b'(' || c == b')'

unfoldable pub without_separators : Text → Text
without_separators [] = []
without_separators (c ∷ t) =
    if is_separator c then without_separators t else c ∷ without_separators t

-- `text[len(prefix):]` if `text.startswith(prefix)`
unfoldable pub after_prefix : Text → Text → Option Text
after_prefix [] t = some t
after_prefix (p ∷ prefix) [] = none
after_prefix (p ∷ prefix) (c ∷ t) = if c == p then after_prefix prefix t else none

abbrev pub country : Text
country = codes "+254"

-- The number behind its country code or its trunk zero.
unfoldable pub national_part : Text → Result Issue Text
unfolding after_prefix
national_part t = elim (after_prefix country t) [
  | some national ↦ ok national
  | none ↦ elim (after_prefix (codes "254") t) [
    | some national ↦ ok national
    | none ↦ elim (after_prefix (codes "0") t) [
      | some national ↦ ok national
      | none ↦ err Issue.phone_prefix_invalid
    ]
  ]
]

abbrev pub starts_mobile : Text → Bool
starts_mobile [] = false
starts_mobile (c ∷ t) = c == b'1' || c == b'7'

-- `len(national) == 9 and national.isdigit() and national[0] in {"1", "7"}`
unfoldable pub is_national : Unicode → Text → Bool
unfolding all_codes
is_national u t = length t == 9 && all_codes u.is_digit t && starts_mobile t

unfoldable pub checked_national : Unicode → Text → Result Issue Text
unfolding is_national
checked_national u t = if is_national u t then ok (country ++ t) else err Issue.phone_invalid

unfoldable pub international : Unicode → Result Issue Text → Result Issue Text
unfolding checked_national
international u (ok t) = checked_national u t
international u (err issue) = err issue

unfoldable pub normalize_kenyan_phone : Unicode → Text → Result Issue Text
unfolding without_separators national_part international strip
normalize_kenyan_phone u value =
    if is_blank (without_separators (strip value))
    then err Issue.phone_required
    else international u (national_part (without_separators (strip value)))
