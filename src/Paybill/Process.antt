-- ===== src/Paybill/Process.antt =====
-- `process_mpesa_paybill_confirmation_event` of billing/services.py. `operation_of` is the UUID that
-- `uuid5` makes of the event's key.
use supersurf_billing_phase.Common.{
  ℕ, Bool, true, false, not, ◌&&◌, ◌||◌, Option, none, some, ◌==◌, if◌then◌else◌, ltb, find, exists,
  Text, codes, text_eq, is_blank, Unicode,
}
use supersurf_billing_phase.Exec.{ok, pure, lift, gets, require, refuse, atomic, ◌>>=◌, ◌>>◌}
use supersurf_billing_phase.Errors.{Error}
use supersurf_billing_phase.Schema.Choices.{Source, is_confirmation}
use supersurf_billing_phase.Schema.Rows.{
  AuditAction, AuditEvent, Target, MpesaCallbackEvent, MpesaCallbackPaymentLink, Payment,
  PaymentProviderProfile,
}
use supersurf_billing_phase.Schema.Database.{Db, Action}
use supersurf_billing_phase.Money.{max_money_minor, ksh_to_minor_units, amount_column}
use supersurf_billing_phase.Service.Lookup.{fresh, record_event}
use supersurf_billing_phase.Payments.References.{normalize_account_reference}
use supersurf_billing_phase.Payments.Clean.{payment_at}
use supersurf_billing_phase.Payments.Ingest.{Ingestion, ingest_payment_core}
use supersurf_billing_phase.Paybill.Settings.{Settings, is_approved, is_sandbox_paybill_profile}
use supersurf_billing_phase.Paybill.Link.{event_at, save_link}

pub data Outcome : Type 0 where
  already_processed ingestion_disabled unsupported_event_type missing_transaction_id : Outcome
  invalid_amount provider_identifier_mismatch processed : Outcome

-- `PaybillProcessingResult`
pub record PaybillResult : Type 0 where
  pub outcome : Outcome
  pub payment : Option Payment
  pub link : Option MpesaCallbackPaymentLink

abbrev pub without_payment : Outcome → PaybillResult
without_payment o = record { outcome = o; payment = none; link = none }

abbrev pub is_skip : AuditAction → Bool
is_skip AuditAction.mpesa_paybill_processing_skipped = true
is_skip _ = false

abbrev pub is_keyed : ℕ → Target → Bool
is_keyed k (Target.keyed j) = j == k
is_keyed k (Target.labelled t) = false

abbrev pub was_skipped : ℕ → Text → AuditEvent → Bool
was_skipped k reason e =
    is_skip e.action && is_keyed k e.target_identifier && text_eq e.reason reason

abbrev pub record_once : Bool → ℕ → Text → Action Unit
record_once true k reason db = (ok tt, db)
record_once false k reason db =
    record_event none AuditAction.mpesa_paybill_processing_skipped k reason db

-- `_record_paybill_processing_skip`
unfoldable pub record_skip : ℕ → Text → Action Unit
unfolding text_eq record_event
record_skip k reason db = record_once (exists (was_skipped k reason) db.audit) k reason db

unfoldable pub skip : ℕ → Text → Outcome → Action PaybillResult
unfolding record_skip
skip k reason o = record_skip k reason >> pure (without_payment o)

-- `record_mpesa_paybill_processing_failure`
unfoldable pub record_failure : ℕ → Text → Action Unit
unfolding record_event
record_failure k reason = record_event none AuditAction.mpesa_paybill_processing_failed k reason

abbrev pub no_amount : Option ℕ → Bool
no_amount none = true
no_amount (some cents) = cents == 0

abbrev pub cents_or_0 : Option ℕ → ℕ
cents_or_0 none = 0
cents_or_0 (some cents) = cents

module _ (u : Unicode) (settings : Settings) (operation_of : ℕ → ℕ) where
  abbrev pub confirmation : MpesaCallbackEvent → ℕ → ℕ → Ingestion
  confirmation e profile amount = record {
    profile = profile;
    transaction = e.provider_transaction_id;
    amount = amount;
    received_at = e.received_at;
    reference = normalize_account_reference u (some e.account_reference);
    operation = operation_of e.id;
    digest = e.payload_sha256;
    actor = none;
    source = Source.system;
    audit_reason = codes "sandbox_paybill_confirmation";
    callback = true;
  }

  abbrev pub link_row : MpesaCallbackEvent → Payment → ℕ → MpesaCallbackPaymentLink
  link_row e p k = record { id = k; callback_event_id = e.id; payment_id = p.id }

  -- The active profile of the sandbox Paybill with the configured identifier.
  abbrev pub is_configured : PaymentProviderProfile → Bool
  is_configured p =
      is_sandbox_paybill_profile p
      && text_eq p.external_identifier settings.external_identifier
      && p.is_active

  -- The ingestion of the payment, and its link to the event.
  unfoldable pub ingest_linked : MpesaCallbackEvent → ℕ → Action PaybillResult
  unfolding save_link ingest_payment_core fresh record_event text_eq
  ingest_linked e amount = do
    profile ← require (λ db. find is_configured db.profiles) Error.profile_unavailable
    payment ← ingest_payment_core u (confirmation e profile.id amount)
    k ← fresh
    link ← save_link u (link_row e payment k)
    record_event none AuditAction.mpesa_callback_payment_linked link.id
        (codes "sandbox_paybill_confirmation")
    pure (record { outcome = Outcome.processed; payment = some payment; link = some link })

  unfoldable pub process_amount : MpesaCallbackEvent → ℕ → Action PaybillResult
  unfolding ingest_linked skip
  process_amount e amount =
      if amount == 0 || ltb max_money_minor amount
      then skip e.id (codes "invalid_amount") Outcome.invalid_amount
      else ingest_linked e amount

  unfoldable pub process_approved : MpesaCallbackEvent → Action PaybillResult
  unfolding process_amount skip text_eq
  process_approved e =
      if not (is_confirmation e.event_type)
      then skip e.id (codes "unsupported_event_type") Outcome.unsupported_event_type
      else if is_blank e.provider_transaction_id
      then skip e.id (codes "missing_transaction_id") Outcome.missing_transaction_id
      else if no_amount e.amount
      then skip e.id (codes "invalid_amount") Outcome.invalid_amount
      else if not (text_eq e.provider_external_identifier settings.external_identifier)
      then skip e.id (codes "provider_identifier_mismatch") Outcome.provider_identifier_mismatch
      else do
        amount ← lift (ksh_to_minor_units (amount_column (cents_or_0 e.amount)))
        process_amount e amount

  unfoldable pub process_unlinked : MpesaCallbackEvent → Action PaybillResult
  unfolding process_approved is_approved
  process_unlinked e =
      if not settings.ingestion_enabled
      then pure (without_payment Outcome.ingestion_disabled)
      else refuse (not (is_approved settings)) Error.configuration_invalid (process_approved e)

  abbrev already : Db → MpesaCallbackPaymentLink → PaybillResult
  already db l = record {
    outcome = Outcome.already_processed;
    payment = payment_at l.payment_id db.payments;
    link = some l;
  }

  unfoldable pub process_event :
      MpesaCallbackEvent → Option MpesaCallbackPaymentLink → Action PaybillResult
  unfolding process_unlinked
  process_event e (some l) = gets (λ db. already db l)
  process_event e none = process_unlinked e

  abbrev pub link_of : ℕ → Db → Option MpesaCallbackPaymentLink
  link_of event db = find (λ l. l.callback_event_id == event) db.links

  -- `process_mpesa_paybill_confirmation_event`
  unfoldable pub process_confirmation : ℕ → Action PaybillResult
  unfolding process_event
  process_confirmation event = atomic do
    locked ← require (λ db. event_at event db.events) Error.does_not_exist
    link ← gets (link_of locked.id)
    process_event locked link
