-- ===== src/Service/Inputs.antt =====
-- The normalising of arguments in billing/services.py.
use supersurf_billing_phase.Common.{
  ℕ, Option, none, some, ltb, if◌then◌else◌, length, Text, codes, text_eq, is_blank, strip,
}
use supersurf_billing_phase.Exec.{Result, ok, err}
use supersurf_billing_phase.Errors.{Error}
use supersurf_billing_phase.Schema.Choices.{Direction}

-- An identifier as it arrives: empty or `None`, a UUID or its text, or something else.
pub data RawId : Type 0 where
  blank malformed : RawId
  uuid : ℕ → RawId

-- A datetime with or without a time zone, by its instant.
pub data Timestamp : Type 0 where
  aware naive : ℕ → Timestamp

-- `_normalize_operation_id`
unfoldable pub normalize_operation_id : RawId → Result Error ℕ
normalize_operation_id (uuid k) = ok k
normalize_operation_id blank = err Error.invalid_operation_id
normalize_operation_id malformed = err Error.invalid_operation_id

-- `_normalize_expected_previous_period_id`
unfoldable pub normalize_previous_period_id : RawId → Result Error (Option ℕ)
normalize_previous_period_id (uuid k) = ok (some k)
normalize_previous_period_id blank = ok none
normalize_previous_period_id malformed = err Error.invalid_previous_period

-- `_normalize_ledger_direction`
unfoldable pub normalize_direction : Text → Result Error Direction
normalize_direction t =
    if text_eq (strip t) (codes "credit")
    then ok Direction.credit
    else if text_eq (strip t) (codes "debit")
    then ok Direction.debit
    else err Error.invalid_direction

-- `_validate_reason`
unfoldable pub validate_reason : Text → Result Error Text
validate_reason reason =
    if is_blank (strip reason) then err Error.reason_required else ok (strip reason)

-- `_validate_ledger_reason`
unfoldable pub validate_ledger_reason : Text → Result Error Text
validate_ledger_reason reason =
    if is_blank (strip reason)
    then err Error.reason_required
    else if ltb 240 (length (strip reason))
    then err Error.reason_too_long
    else ok (strip reason)

-- `_validate_aware_timestamp`
unfoldable pub validate_aware : Timestamp → Result Error ℕ
validate_aware (aware t) = ok t
validate_aware (naive t) = err Error.timestamp_naive

-- `effective_at or timezone.now()`
abbrev pub or_now : Option Timestamp → ℕ → Timestamp
or_now none now = aware now
or_now (some t) now = t
