-- ===== src/Payments/References.antt =====
-- The texts of a payment: account references and digests (billing/services.py).
use supersurf_billing_phase.Common.{
  Unicode, Bool, false, ◌&&◌, Option, none, some, [], ◌∷◌, ◌++◌, ◌==◌, if◌then◌else◌, length, Text,
  is_blank, strip, all_codes, ascii_lower, is_lower_hex,
}
use supersurf_billing_phase.Exec.{Result, ok, err}
use supersurf_billing_phase.Errors.{Error}
use supersurf_billing_phase.Schema.Choices.{ReasonCode}

abbrev pub upper_text : Unicode → Text → Text
upper_text u [] = []
upper_text u (c ∷ t) = u.upper c ++ upper_text u t

-- `_normalize_account_reference`
unfoldable pub normalize_account_reference : Unicode → Option Text → Text
normalize_account_reference u none = []
normalize_account_reference u (some t) = upper_text u (strip t)

-- `ACCOUNT_REFERENCE_RE.fullmatch`
unfoldable pub is_account_reference : Unicode → Text → Bool
is_account_reference u (a ∷ b ∷ digits) =
    a == b'S' && b == b'S' && length digits == 6 && all_codes u.is_decimal digits
is_account_reference u _ = false

-- `re.fullmatch(r"[0-9a-f]{64}", digest)`
unfoldable pub is_sha256 : Text → Bool
is_sha256 t = length t == 64 && all_codes is_lower_hex t

-- `_normalize_payload_digest`
unfoldable pub normalize_payload_digest : Text → Result Error Text
unfolding is_sha256
normalize_payload_digest t =
    if is_blank (ascii_lower (strip t))
    then ok []
    else if is_sha256 (ascii_lower (strip t))
    then ok (ascii_lower (strip t))
    else err Error.invalid_digest

-- `_unmatched_reason_code`
unfoldable pub unmatched_reason_code : Unicode → Text → ReasonCode
unfolding is_account_reference
unmatched_reason_code u reference =
    if is_blank reference
    then ReasonCode.missing_reference
    else if is_account_reference u reference
    then ReasonCode.subscriber_not_found
    else ReasonCode.invalid_reference
