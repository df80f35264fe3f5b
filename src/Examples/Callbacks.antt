-- ===== src/Examples/Callbacks.antt =====
-- A Paybill confirmation that is captured, and captured again.
use supersurf_billing_phase.Common.{
  ◌≡◌, ◌⊎◌, ◌↔◌, refl, true, false, not, none, some, [], ◌∷◌, Text, codes, text_eq, strip, lstrip,
  rstrip, is_space, all_codes,
}
use supersurf_billing_phase.Exec.{ok, atomic, ◌>>=◌}
use supersurf_billing_phase.Schema.Choices.{EventType}
use supersurf_billing_phase.Schema.Json.{Json, Fields}
use supersurf_billing_phase.Schema.Rows.{MpesaCallbackEvent}
use supersurf_billing_phase.Schema.Database.{Db}
use supersurf_billing_phase.Money.{Decimal, Exponent, cents, is_exact}
use supersurf_billing_phase.Validation.{complaints, first_complaint, collect}
use supersurf_billing_phase.Service.Lookup.{fresh, record_event}
use supersurf_billing_phase.Payments.References.{is_sha256}
use supersurf_billing_phase.Calls.Reach.{empty}
use supersurf_billing_phase.Callbacks.Sanitize.{
  starts_with, contains, any_part, get, is_sensitive_key, names_sensitive, sanitize, sanitize_items,
  sanitize_fields, sanitize_payload,
}
use supersurf_billing_phase.Callbacks.Hidden.{Hidden, sanitize_payload_lem}
use supersurf_billing_phase.Callbacks.Extract.{
  Python, direct, first_value, first_in_fields, first_in_items, item_value, metadata_value,
  metadata_in_fields, metadata_in_items, normalize_text, normalize_provider_identifier,
  normalize_decimal,
}
use supersurf_billing_phase.Callbacks.Capture.{
  event_full_clean, find_event, insert_or_get, create_event_with, create_event, CapturedCallback,
  report, extract_callback_fields, capture_mpesa_callback,
}
use supersurf_billing_phase.Callbacks.Captured.{key_of, kept, capture_mpesa_callback_ok}
use supersurf_billing_phase.Callbacks.Again.{capture_mpesa_callback-again}
use supersurf_billing_phase.Examples.Data.{ascii}

-- `Decimal` of the one amount that occurs.
abbrev pub python : Python
python = record {
  unicode = ascii;
  show = λ value. [];
  decimal = λ t. Decimal.finite false 500 (Exponent.decimals 0);
}

abbrev pub digest : Json → Text
digest payload = codes "0123456789abcdef0123456789abcdef0123456789abcdef0123456789abcdef"

abbrev pub confirmation : Json
confirmation = Json.obj (
    Fields.field (codes "TransID") (Json.text (codes "T1")) (
      Fields.field (codes "TransAmount") (Json.text (codes "500")) (
        Fields.field (codes "BusinessShortCode") (Json.text (codes "600000")) (
          Fields.field (codes "BillRefNumber") (Json.text (codes "SS000001"))
            (Fields.field (codes "MSISDN") (Json.text (codes "254712345678")) Fields.end)))))

sanitize_payload_lem_example :
    Hidden ascii (sanitize_payload ascii confirmation)
    × ((sanitize_payload ascii confirmation ≡ confirmation) ↔ Hidden ascii confirmation)
unfolding is_sensitive_key any_part contains starts_with
sanitize_payload_lem_example = sanitize_payload_lem ascii confirmation refl refl

abbrev captured : Db
captured =
    (capture_mpesa_callback python digest EventType.c2b_confirmation confirmation 1000 empty).1

abbrev pub event : MpesaCallbackEvent
event = record {
  id = 0;
  event_type = EventType.c2b_confirmation;
  payload_sha256 = codes "0123456789abcdef0123456789abcdef0123456789abcdef0123456789abcdef";
  idempotency_key = codes "c2b_confirmation:T1";
  sanitized_payload = Json.obj (
      Fields.field (codes "TransID") (Json.text (codes "T1")) (
        Fields.field (codes "TransAmount") (Json.text (codes "500")) (
          Fields.field (codes "BusinessShortCode") (Json.text (codes "600000")) (
            Fields.field (codes "BillRefNumber") (Json.text (codes "SS000001"))
              (Fields.field (codes "MSISDN") (Json.text (codes "[REDACTED]")) Fields.end)))));
  provider_external_identifier = codes "600000";
  provider_transaction_id = codes "T1";
  merchant_request_id = [];
  checkout_request_id = [];
  account_reference = codes "SS000001";
  amount = some 50000;
  result_code = [];
  result_description = [];
  received_at = 1000;
}

abbrev first : CapturedCallback
first = record { event = event; created = true; conflicting_duplicate = false }

capture_mpesa_callback_ok_example :
    (((first.created ≡ true)
        × (first.conflicting_duplicate ≡ false)
        × (captured.events ≡ first.event ∷ empty.events)
        × (find_event first.event.idempotency_key empty ≡ none)
        × (first.event.event_type ≡ EventType.c2b_confirmation)
        × Hidden ascii first.event.sanitized_payload)
      ⊎ ((first.created ≡ false)
          × (first.conflicting_duplicate
              ≡ not (text_eq first.event.payload_sha256 (digest confirmation)))
          × (captured.events ≡ empty.events)
          × (find_event (key_of python digest EventType.c2b_confirmation confirmation) empty
              ≡ some first.event)))
    × (captured.payments ≡ empty.payments)
    × (captured.allocations ≡ empty.allocations)
    × (captured.entries ≡ empty.entries)
unfolding is_sensitive_key any_part contains starts_with atomic ◌>>=◌ text_eq strip lstrip rstrip
    is_space all_codes complaints first_complaint collect fresh record_event is_sha256 get
    names_sensitive sanitize sanitize_items sanitize_fields direct first_value first_in_fields
    first_in_items item_value metadata_value metadata_in_fields metadata_in_items normalize_text
    normalize_provider_identifier normalize_decimal cents is_exact event_full_clean insert_or_get
    create_event_with create_event report extract_callback_fields capture_mpesa_callback
capture_mpesa_callback_ok_example =
    capture_mpesa_callback_ok python digest EventType.c2b_confirmation confirmation 1000 empty
      captured first refl refl

capture_mpesa_callback-again_example :
    ((capture_mpesa_callback python digest EventType.c2b_confirmation confirmation 2000 captured).0
      ≡ ok (record first { created = false }))
    × (kept
          (capture_mpesa_callback python digest EventType.c2b_confirmation confirmation 2000
            captured).1
        ≡ kept captured)
unfolding is_sensitive_key any_part contains starts_with atomic ◌>>=◌ text_eq strip lstrip rstrip
    is_space all_codes complaints first_complaint collect fresh record_event is_sha256 get
    names_sensitive sanitize sanitize_items sanitize_fields direct first_value first_in_fields
    first_in_items item_value metadata_value metadata_in_fields metadata_in_items normalize_text
    normalize_provider_identifier normalize_decimal cents is_exact event_full_clean insert_or_get
    create_event_with create_event report extract_callback_fields capture_mpesa_callback
capture_mpesa_callback-again_example =
    capture_mpesa_callback-again python digest EventType.c2b_confirmation confirmation 1000 2000
      empty captured first refl refl
