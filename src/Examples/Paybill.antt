-- ===== src/Examples/Paybill.antt =====
-- A Paybill confirmation that is processed, processed again, and sent to the endpoint.
use supersurf_billing_phase.Common.{
  ℕ, ◌+◌, ◌≡◌, refl, true, Option, none, some, List, [], ◌∷◌, Text, codes, text_eq, strip, lstrip,
  rstrip, is_space, all_codes,
}
use supersurf_billing_phase.Exec.{ok, atomic, ◌>>=◌}
use supersurf_billing_phase.Schema.Choices.{EventType, Provider, Product, ProfileEnvironment}
use supersurf_billing_phase.Schema.Json.{Json}
use supersurf_billing_phase.Schema.Rows.{
  MpesaCallbackEvent, MpesaCallbackPaymentLink, Payment, PaymentProviderProfile,
}
use supersurf_billing_phase.Schema.Database.{Db}
use supersurf_billing_phase.Money.{
  normalize_ledger_amount, ksh_to_minor_units, checked_cents, cents, is_exact, round_half_even,
}
use supersurf_billing_phase.Validation.{complaints, first_complaint, collect}
use supersurf_billing_phase.Ledger.Clean as LedgerClean
use supersurf_billing_phase.Ledger.Save.{
  save_valid, latest_entry, resulting_balance, save_ledger_entry,
}
use supersurf_billing_phase.Service.Lookup.{
  fresh, lock_subscriber, wallet_checks, get_or_create_wallet, save_wallet, lock_wallet,
  lock_existing_wallet, record_event,
}
use supersurf_billing_phase.Payments.Clean.{
  payment_full_clean, allocation_full_clean, case_full_clean,
}
use supersurf_billing_phase.Payments.References.{
  normalize_account_reference, is_account_reference, is_sha256, normalize_payload_digest,
  unmatched_reason_code,
}
use supersurf_billing_phase.Payments.Save.{
  create_payment, save_allocation, save_case, credit_wallet, reject_conflicts,
}
use supersurf_billing_phase.Payments.Ingest.{equivalent, referenced, ingest_payment_core}
use supersurf_billing_phase.Calls.Reach.{empty}
use supersurf_billing_phase.Paybill.Settings.{Settings, is_identifier, is_approved}
use supersurf_billing_phase.Paybill.Link.{event_at, amounts_to, link_full_clean, save_link}
use supersurf_billing_phase.Paybill.Process.{
  Outcome, PaybillResult, record_skip, skip, ingest_linked, process_amount, process_approved,
  process_unlinked, process_event, process_confirmation,
}
use supersurf_billing_phase.Paybill.Confirmed.{IsProcessed, process_confirmation_ok}
use supersurf_billing_phase.Paybill.Again.{already_linked, process_confirmation-again}
use supersurf_billing_phase.Webhook.{Request, mpesa_callback}
use supersurf_billing_phase.Webhook.Answered.{IsAnswered, mpesa_callback_ok}
use supersurf_billing_phase.Examples.Data.{ascii, subscriber}
use supersurf_billing_phase.Examples.Callbacks.{python, digest, confirmation, event}

abbrev pub settings : Settings
settings = record {
  ingestion_enabled = true;
  environment = codes "LAB";
  public_deployment = true;
  callback_token = codes "0123456789abcdef0123456789abcdef";
  external_identifier = codes "600000";
}

abbrev pub operation_of : ℕ → ℕ
operation_of k = k + 500

abbrev pub paybill : PaymentProviderProfile
paybill = record {
  id = 5;
  name = codes "M-PESA Sandbox Paybill";
  provider = Provider.mpesa;
  product_type = Product.paybill;
  environment = ProfileEnvironment.sandbox;
  external_identifier = codes "600000";
  is_active = true;
}

abbrev awaiting : Db
awaiting = record empty {
  next_id = 10;
  subscribers = subscriber ∷ [];
  profiles = paybill ∷ [];
  events = event ∷ [];
}

abbrev settled : Db
settled = (process_confirmation ascii settings operation_of 0 awaiting).1

abbrev payment : Payment
payment = record {
  id = 10;
  provider_profile_id = 5;
  provider_transaction_id = codes "T1";
  amount_minor = 50000;
  currency = codes "KES";
  received_at = 1000;
  account_reference = codes "SS000001";
  payload_digest = codes "0123456789abcdef0123456789abcdef0123456789abcdef0123456789abcdef";
}

abbrev link : MpesaCallbackPaymentLink
link = record { id = 14; callback_event_id = 0; payment_id = 10 }

abbrev done : PaybillResult
done = record { outcome = Outcome.processed; payment = some payment; link = some link }

process_confirmation_ok_example :
    (e : MpesaCallbackEvent) × (event_at 0 awaiting.events ≡ some e)
    × IsProcessed ascii settings operation_of e done awaiting settled
unfolding atomic ◌>>=◌ text_eq strip lstrip rstrip is_space all_codes complaints first_complaint
    collect normalize_ledger_amount ksh_to_minor_units checked_cents cents is_exact round_half_even
    LedgerClean.full_clean save_valid latest_entry resulting_balance save_ledger_entry fresh
    lock_subscriber wallet_checks get_or_create_wallet save_wallet lock_wallet lock_existing_wallet
    record_event payment_full_clean allocation_full_clean case_full_clean
    normalize_account_reference is_account_reference is_sha256 normalize_payload_digest
    unmatched_reason_code create_payment save_allocation save_case credit_wallet reject_conflicts
    equivalent referenced ingest_payment_core is_identifier is_approved amounts_to link_full_clean
    save_link record_skip skip ingest_linked process_amount process_approved process_unlinked
    process_event process_confirmation
process_confirmation_ok_example =
    process_confirmation_ok ascii settings operation_of 0 awaiting settled done refl

process_confirmation-again_example :
    process_confirmation ascii settings operation_of 0 settled
    ≡ (ok (already_linked ascii settings operation_of settled link), settled)
unfolding atomic ◌>>=◌ text_eq strip lstrip rstrip is_space all_codes complaints first_complaint
    collect normalize_ledger_amount ksh_to_minor_units checked_cents cents is_exact round_half_even
    LedgerClean.full_clean save_valid latest_entry resulting_balance save_ledger_entry fresh
    lock_subscriber wallet_checks get_or_create_wallet save_wallet lock_wallet lock_existing_wallet
    record_event payment_full_clean allocation_full_clean case_full_clean
    normalize_account_reference is_account_reference is_sha256 normalize_payload_digest
    unmatched_reason_code create_payment save_allocation save_case credit_wallet reject_conflicts
    equivalent referenced ingest_payment_core is_identifier is_approved amounts_to link_full_clean
    save_link record_skip skip ingest_linked process_amount process_approved process_unlinked
    process_event process_confirmation
process_confirmation-again_example =
    process_confirmation-again ascii settings operation_of 0 awaiting settled done link refl refl

abbrev request : Request
request = record {
  is_post = true;
  token = codes "0123456789abcdef0123456789abcdef";
  content_length = [];
  body = 123 ∷ 125 ∷ [];
}

abbrev loads : List ℕ → Option Json
loads body = some confirmation

abbrev int_of : Text → Option ℕ
int_of t = none

mpesa_callback_ok_example :
    IsAnswered python digest operation_of loads int_of settings EventType.c2b_confirmation 1000
      request empty
      (mpesa_callback python digest operation_of loads int_of settings request
        EventType.c2b_confirmation 1000 empty)
mpesa_callback_ok_example =
    mpesa_callback_ok python digest operation_of loads int_of settings EventType.c2b_confirmation
      1000 request empty
