-- ===== src/Webhook.antt =====
-- The callback endpoint of billing/views.py: `_mpesa_callback` and the helpers it calls.
-- `loads` reads the JSON of a request's body, and is `none` where the body is not UTF-8, not JSON, nested
-- too deeply, or has a constant such as NaN. `int_of` is `int` of a text, 0 for a negative number, and
-- `none` where it raises `ValueError`.
pub mod Handled
pub mod Answered
use supersurf_billing_phase.Common.{
  ℕ, Bool, true, false, not, ◌&&◌, Option, none, some, List, [], ◌∷◌, ltb, length, Text, codes,
  text_eq, strip, all_codes, if◌then◌else◌,
}
use supersurf_billing_phase.Exec.{Result, ok, err}
use supersurf_billing_phase.Errors.{Error}
use supersurf_billing_phase.Schema.Choices.{EventType, is_confirmation}
use supersurf_billing_phase.Schema.Json.{Json}
use supersurf_billing_phase.Schema.Database.{Db}
use supersurf_billing_phase.Callbacks.Extract.{Python}
use supersurf_billing_phase.Callbacks.Capture.{CapturedCallback, capture_mpesa_callback}
use supersurf_billing_phase.Paybill.Settings.{Settings}
use supersurf_billing_phase.Paybill.Process.{PaybillResult, record_failure, process_confirmation}

abbrev pub max_callback_body_bytes : ℕ
max_callback_body_bytes = 65536

pub record Request : Type 0 where
  pub is_post : Bool
  pub token : Text
  pub content_length : Text
  pub body : List ℕ

-- The answer's status: 405, 404, 413, 400, two kinds of 500, and 200. `crashed` is the exception that
-- leaves the view.
pub data Response : Type 0 where
  method_not_allowed not_found request_entity_too_large malformed_json : Response
  callback_capture_failed callback_processing_failed accepted crashed : Response

abbrev is_ascii : ℕ → Bool
is_ascii c = ltb c 128

-- `secrets.compare_digest` of two texts; `none` for the `TypeError` of a text that is not ASCII.
unfoldable pub compare_digest : Text → Text → Option Bool
unfolding all_codes text_eq
compare_digest a b =
    if all_codes is_ascii a && all_codes is_ascii b then some (text_eq a b) else none

-- `_valid_callback_token`
unfoldable pub valid_callback_token : Settings → Text → Option Bool
unfolding compare_digest strip
valid_callback_token settings token =
    let configured = strip settings.callback_token in
    if ltb (length configured) 32 then some false else compare_digest token configured

abbrev too_long : List ℕ → Bool
too_long body = ltb max_callback_body_bytes (length body)

abbrev body_or_length : List ℕ → Option ℕ → Bool
body_or_length body none = false
body_or_length body (some n) = if ltb max_callback_body_bytes n then true else too_long body

abbrev body_or_header : (Text → Option ℕ) → List ℕ → Text → Bool
body_or_header int_of body [] = too_long body
body_or_header int_of body (c ∷ t) = body_or_length body (int_of (c ∷ t))

-- `_request_body_too_large`
unfoldable pub request_body_too_large : (Text → Option ℕ) → Request → Bool
request_body_too_large int_of request = body_or_header int_of request.body request.content_length

-- The reason that the view records for an exception of the processing: of the configuration, a
-- `ValidationError`, or another one.
unfoldable pub failure_reason : Error → Text
failure_reason Error.configuration_invalid = codes "profile_unavailable"
failure_reason Error.profile_unavailable = codes "profile_unavailable"
failure_reason Error.not_authenticated = codes "unexpected_failure"
failure_reason Error.permission_denied = codes "unexpected_failure"
failure_reason Error.period_permission_denied = codes "unexpected_failure"
failure_reason Error.does_not_exist = codes "unexpected_failure"
failure_reason Error.date_overflow = codes "unexpected_failure"
failure_reason Error.invalid_operation = codes "unexpected_failure"
failure_reason Error.immutable_row = codes "unexpected_failure"
failure_reason Error.ended_reactivated = codes "unexpected_failure"
failure_reason _ = codes "canonical_conflict"

unfoldable pub after_processing : ℕ → Result Error PaybillResult × Db → Response × Db
unfolding record_failure failure_reason
after_processing event (ok result, db) = (Response.accepted, db)
after_processing event (err e, db) =
    (Response.callback_processing_failed, (record_failure event (failure_reason e) db).1)

module _ (p : Python) (digest : Json → Text) (operation_of : ℕ → ℕ) (loads : List ℕ → Option Json)
    (int_of : Text → Option ℕ) (settings : Settings) where
  unfoldable pub after_capture : EventType → Result Error CapturedCallback × Db → Response × Db
  unfolding after_processing process_confirmation
  after_capture t (err e, db) = (Response.callback_capture_failed, db)
  after_capture t (ok c, db) =
      if c.conflicting_duplicate
      then (Response.accepted, db)
      else if settings.ingestion_enabled && is_confirmation t
      then after_processing c.event.id
          (process_confirmation p.unicode settings operation_of c.event.id db)
      else (Response.accepted, db)

  unfoldable pub after_loads : EventType → Option Json → ℕ → Db → Response × Db
  unfolding after_capture capture_mpesa_callback
  after_loads t none now db = (Response.malformed_json, db)
  after_loads t (some payload) now db =
      after_capture t (capture_mpesa_callback p digest t payload now db)

  unfoldable pub after_token : Request → EventType → Option Bool → ℕ → Db → Response × Db
  unfolding after_loads request_body_too_large
  after_token request t none now db = (Response.crashed, db)
  after_token request t (some false) now db = (Response.not_found, db)
  after_token request t (some true) now db =
      if request_body_too_large int_of request
      then (Response.request_entity_too_large, db)
      else after_loads t (loads request.body) now db

  -- `_mpesa_callback`
  unfoldable pub mpesa_callback : Request → EventType → ℕ → Db → Response × Db
  unfolding after_token valid_callback_token
  mpesa_callback request t now db =
      if not request.is_post
      then (Response.method_not_allowed, db)
      else after_token request t (valid_callback_token settings request.token) now db
