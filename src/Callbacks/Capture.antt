-- ===== src/Callbacks/Capture.antt =====
-- `capture_mpesa_callback` of billing/mpesa_callbacks.py, with `MpesaCallbackEvent.save` of a new row.
-- `digest` is `payload_digest`: the SHA-256 of the payload's canonical JSON.
use supersurf_billing_phase.Common.{
  ℕ, Bool, true, false, not, ◌&&◌, Option, none, some, List, [], ◌∷◌, ◌++◌, ◌==◌, if◌then◌else◌,
  ltb, length, find, Text, codes, text_eq, is_blank, strip, all_codes, ascii_lower,
}
use supersurf_billing_phase.Exec.{Result, ok, err, pure, atomic, ◌>>=◌, ◌>>◌}
use supersurf_billing_phase.Errors.{Issue, Error}
use supersurf_billing_phase.Schema.Choices.{EventType}
use supersurf_billing_phase.Schema.Json.{Json, Items, Fields}
use supersurf_billing_phase.Schema.Rows.{MpesaCallbackEvent, AuditAction}
use supersurf_billing_phase.Schema.Database.{Db, Action}
use supersurf_billing_phase.Validation.{Checks, complaints, first_complaint}
use supersurf_billing_phase.Payments.References.{is_sha256}
use supersurf_billing_phase.Service.Lookup.{fresh, record_event}
use supersurf_billing_phase.Callbacks.Sanitize.{sanitize_payload}
use supersurf_billing_phase.Callbacks.Extract.{
  Python, coalesce, first_value, metadata_value, normalize_text, normalize_provider_identifier,
  normalize_decimal, is_ascii_digit,
}

-- `_extract_callback_fields`
pub record Extracted : Type 0 where
  pub provider_external_identifier : Option Text
  pub provider_transaction_id : Option Text
  pub merchant_request_id : Option Text
  pub checkout_request_id : Option Text
  pub account_reference : Option Text
  pub amount : Option ℕ
  pub result_code : Option Text
  pub result_description : Option Text

abbrev pub event_name : EventType → Text
event_name EventType.c2b_validation = codes "c2b_validation"
event_name EventType.c2b_confirmation = codes "c2b_confirmation"
event_name EventType.stk_result = codes "stk_result"

-- The identifier that the provider repeats when it sends an event again.
abbrev stable_value : EventType → Extracted → Option Text
stable_value EventType.stk_result x = x.checkout_request_id
stable_value _ x = x.provider_transaction_id

abbrev pub key_with : EventType → Text → Option Text → Text
key_with t digest (some (c ∷ value)) = event_name t ++ b':' ∷ c ∷ value
key_with t digest _ = event_name t ++ codes ":sha256:" ++ digest

-- `_idempotency_key`
abbrev pub idempotency_key : EventType → Extracted → Text → Text
idempotency_key t x digest = key_with t digest (stable_value t x)

abbrev text_or_empty : Option Text → Text
text_or_empty none = []
text_or_empty (some t) = t

-- `MpesaCallbackEvent._clean_provider_identifier`
abbrev provider_or_empty : Text → Text
provider_or_empty t =
    if all_codes is_ascii_digit t && not (ltb (length t) 5) && not (ltb 12 (length t))
    then t
    else []

-- `None`, "", [] and {} are refused by a column that may not be blank.
abbrev is_empty_json : Json → Bool
is_empty_json Json.null = true
is_empty_json (Json.text []) = true
is_empty_json (Json.arr Items.nil) = true
is_empty_json (Json.obj Fields.end) = true
is_empty_json _ = false

abbrev event_field_checks : MpesaCallbackEvent → Checks
event_field_checks e =
    (is_blank e.payload_sha256, Issue.text_blank)
    ∷ (ltb 64 (length e.payload_sha256), Issue.text_too_long)
    ∷ (is_blank e.idempotency_key, Issue.text_blank)
    ∷ (ltb 160 (length e.idempotency_key), Issue.text_too_long)
    ∷ (is_empty_json e.sanitized_payload, Issue.text_blank)
    ∷ (ltb 64 (length e.provider_external_identifier), Issue.text_too_long)
    ∷ (ltb 128 (length e.provider_transaction_id), Issue.text_too_long)
    ∷ (ltb 128 (length e.merchant_request_id), Issue.text_too_long)
    ∷ (ltb 128 (length e.checkout_request_id), Issue.text_too_long)
    ∷ (ltb 64 (length e.account_reference), Issue.text_too_long)
    ∷ (ltb 16 (length e.result_code), Issue.text_too_long)
    ∷ (ltb 240 (length e.result_description), Issue.text_too_long)
    ∷ []

-- What `MpesaCallbackEvent.clean` leaves in the row.
abbrev pub cleaned_event : MpesaCallbackEvent → MpesaCallbackEvent
cleaned_event e = record e {
  payload_sha256 = ascii_lower (strip e.payload_sha256);
  idempotency_key = strip e.idempotency_key;
  provider_external_identifier = provider_or_empty (strip e.provider_external_identifier);
  provider_transaction_id = strip e.provider_transaction_id;
  merchant_request_id = strip e.merchant_request_id;
  checkout_request_id = strip e.checkout_request_id;
  account_reference = strip e.account_reference;
  result_code = strip e.result_code;
  result_description = strip e.result_description;
}

abbrev is_zero : Option ℕ → Bool
is_zero (some n) = n == 0
is_zero none = false

-- `MpesaCallbackEvent.clean`
abbrev event_clean_checks : MpesaCallbackEvent → Checks
event_clean_checks e =
    (not (is_sha256 e.payload_sha256), Issue.digest_not_sha256)
    ∷ (is_blank e.idempotency_key, Issue.text_blank)
    ∷ (is_zero e.amount, Issue.amount_not_positive)
    ∷ []

-- `full_clean(validate_unique=False)`; the constraints repeat what `clean` tests.
unfoldable pub event_full_clean : MpesaCallbackEvent → List Issue
unfolding all_codes is_sha256 strip
event_full_clean e =
    complaints (event_field_checks e) ++ first_complaint (event_clean_checks (cleaned_event e))

abbrev pub find_event : Text → Db → Option MpesaCallbackEvent
find_event key db = find (λ e. text_eq e.idempotency_key key) db.events

abbrev pub insert_event : MpesaCallbackEvent → Db → Db
insert_event e db = record db { events = e ∷ db.events }

-- The event, and whether it was created.
abbrev pub got : Option MpesaCallbackEvent → Result Error (MpesaCallbackEvent × Bool)
got (some old) = ok (old, false)
got none = err Error.does_not_exist

unfoldable pub insert_or_get :
    MpesaCallbackEvent → Text → Option MpesaCallbackEvent → Action (MpesaCallbackEvent × Bool)
insert_or_get e key (some taken) db = (got (find_event key db), db)
insert_or_get e key none db = (ok (e, true), insert_event e db)

unfoldable pub create_event_with :
    MpesaCallbackEvent → Text → List Issue → Action (MpesaCallbackEvent × Bool)
unfolding insert_or_get
create_event_with e key (issue ∷ issues) db = (err (Error.invalid_row issue), db)
create_event_with e key [] db = insert_or_get e key (find_event e.idempotency_key db) db

-- `objects.create(...)`, and the row with the key where the key is taken.
unfoldable pub create_event : MpesaCallbackEvent → Action (MpesaCallbackEvent × Bool)
unfolding create_event_with event_full_clean
create_event e db = create_event_with (cleaned_event e) e.idempotency_key (event_full_clean e) db

pub record CapturedCallback : Type 0 where
  pub event : MpesaCallbackEvent
  pub created : Bool
  pub conflicting_duplicate : Bool

-- A duplicate with another payload is a conflict, which is recorded.
unfoldable pub report : Text → MpesaCallbackEvent × Bool → Action CapturedCallback
report d (event, true) =
    pure (record { event = event; created = true; conflicting_duplicate = false })
report d (event, false) =
    let answer : CapturedCallback = record {
      event = event;
      created = false;
      conflicting_duplicate = not (text_eq event.payload_sha256 d);
    } in
    if text_eq event.payload_sha256 d
    then pure answer
    else record_event none AuditAction.mpesa_callback_conflict event.id
        (codes "duplicate_payload_conflict")
      >> pure answer

module _ (p : Python) where
  unfoldable pub extract_callback_fields : Json → Extracted
  unfolding first_value metadata_value normalize_text normalize_provider_identifier
      normalize_decimal
  extract_callback_fields payload = record {
    provider_external_identifier =
        normalize_provider_identifier p (first_value p (codes "BusinessShortCode") payload);
    provider_transaction_id = normalize_text p 128 false (
        coalesce (first_value p (codes "TransID") payload)
          (metadata_value p (codes "MpesaReceiptNumber") payload));
    merchant_request_id =
        normalize_text p 128 false (first_value p (codes "MerchantRequestID") payload);
    checkout_request_id =
        normalize_text p 128 false (first_value p (codes "CheckoutRequestID") payload);
    account_reference = normalize_text p 64 false (
        coalesce (first_value p (codes "BillRefNumber") payload)
          (first_value p (codes "AccountReference") payload));
    amount = normalize_decimal p (
        coalesce (first_value p (codes "TransAmount") payload)
          (metadata_value p (codes "Amount") payload));
    result_code = normalize_text p 16 false (
        coalesce (first_value p (codes "ResultCode") payload)
          (first_value p (codes "ResponseCode") payload));
    result_description = normalize_text p 240 true (
        coalesce (first_value p (codes "ResultDesc") payload)
          (first_value p (codes "ResultDescription") payload));
  }

module _ (p : Python) (digest : Json → Text) where
  abbrev pub event_row : EventType → Json → Extracted → ℕ → ℕ → MpesaCallbackEvent
  event_row t payload x now k = record {
    id = k;
    event_type = t;
    payload_sha256 = digest payload;
    idempotency_key = idempotency_key t x (digest payload);
    sanitized_payload = sanitize_payload p.unicode payload;
    provider_external_identifier = text_or_empty x.provider_external_identifier;
    provider_transaction_id = text_or_empty x.provider_transaction_id;
    merchant_request_id = text_or_empty x.merchant_request_id;
    checkout_request_id = text_or_empty x.checkout_request_id;
    account_reference = text_or_empty x.account_reference;
    amount = x.amount;
    result_code = text_or_empty x.result_code;
    result_description = text_or_empty x.result_description;
    received_at = now;
  }

  -- `capture_mpesa_callback`
  unfoldable pub capture_mpesa_callback : EventType → Json → ℕ → Action CapturedCallback
  unfolding extract_callback_fields create_event report
  capture_mpesa_callback t payload now = do
    saved ←
        atomic
          do k ← fresh; create_event (event_row t payload (extract_callback_fields p payload) now k)
    report (digest payload) saved
