-- ===== src/Payments/Ingest.antt =====
-- `_ingest_payment_core` and `ingest_fake_payment` of billing/services.py.
use supersurf_billing_phase.Common.{
  ℕ, Bool, true, false, not, ◌&&◌, Option, none, some, [], ◌==◌, if◌then◌else◌, find, Text, codes,
  text_eq, is_blank, strip,
}
use supersurf_billing_phase.Exec.{
  Result, ok, err, pure, lift, gets, ask, require, refuse, atomic, ◌>>=◌, ◌>>◌,
}
use supersurf_billing_phase.Errors.{Error}
use supersurf_billing_phase.Schema.Choices.{
  Source, CaseStatus, is_fake, is_fake_product, is_production,
}
use supersurf_billing_phase.Schema.Rows.{
  Payment, PaymentProviderProfile, Subscriber, UnmatchedPaymentCase, AuditAction,
}
use supersurf_billing_phase.Schema.Database.{Db, Action}
use supersurf_billing_phase.Money.{Decimal, kes, normalize_ledger_amount}
use supersurf_billing_phase.Common.{Unicode}
use supersurf_billing_phase.Payments.References.{
  normalize_account_reference, is_account_reference, normalize_payload_digest,
  unmatched_reason_code,
}
use supersurf_billing_phase.Payments.Clean.{profile_at}
use supersurf_billing_phase.Payments.Save.{
  find_payment, create_payment, save_case, credit_wallet, reject_conflicts,
}
use supersurf_billing_phase.Service.Access.{Actor, require_permission, payment_permissions}
use supersurf_billing_phase.Service.Inputs.{
  RawId, Timestamp, normalize_operation_id, validate_aware,
}
use supersurf_billing_phase.Service.Lookup.{fresh, record_event}

-- The arguments of `_ingest_payment_core`; `callback` says whether a callback event is given, which
-- goes with the source, the actor and the names of the audit events.
pub record Ingestion : Type 0 where
  pub profile : ℕ
  pub transaction : Text
  pub amount : ℕ
  pub received_at : ℕ
  pub reference : Text
  pub operation : ℕ
  pub digest : Text
  pub actor : Option ℕ
  pub source : Source
  pub audit_reason : Text
  pub callback : Bool

-- `_assert_payment_equivalent`
abbrev pub is_equivalent : Ingestion → Payment → Bool
is_equivalent r p =
    p.amount_minor == r.amount
    && text_eq p.currency kes
    && p.received_at == r.received_at
    && text_eq p.account_reference r.reference
    && text_eq p.payload_digest r.digest

unfoldable pub equivalent : Ingestion → Payment → Result Error Payment
equivalent r p = if is_equivalent r p then ok p else err Error.payment_used_differently

abbrev pub payment_row : Ingestion → ℕ → Payment
payment_row r k = record {
  id = k;
  provider_profile_id = r.profile;
  provider_transaction_id = r.transaction;
  amount_minor = r.amount;
  currency = kes;
  received_at = r.received_at;
  account_reference = r.reference;
  payload_digest = r.digest;
}

abbrev pub by_source : Ingestion → AuditAction → AuditAction → AuditAction
by_source r operator_action system_action = if r.callback then system_action else operator_action

module _ (u : Unicode) (r : Ingestion) where
  abbrev pub open_case : Payment → ℕ → UnmatchedPaymentCase
  open_case p k = record {
    id = k;
    payment_id = p.id;
    status = CaseStatus.opened;
    reason_code = unmatched_reason_code u r.reference;
    resolved_wallet_id = none;
    resolution_allocation_id = none;
    resolution_reason = [];
    resolved_by_id = none;
    resolved_at = none;
  }

  -- The subscriber whose account number the reference is, if it has the form of one.
  unfoldable pub referenced : Db → Option Subscriber
  referenced db =
      if is_account_reference u r.reference
      then find (λ s. text_eq s.account_number r.reference) db.subscribers
      else none

  -- A new payment is allocated to its subscriber's wallet, or gets an open case.
  unfoldable pub place : Payment → Option Subscriber → Action Payment
  place p none = do
    k ← fresh
    opened ← save_case (open_case p k)
    record_event r.actor
        (by_source r AuditAction.payment_unmatched AuditAction.mpesa_paybill_payment_unmatched)
        opened.id r.audit_reason
    pure p
  place p (some s) = do
    allocation ← credit_wallet p s.id r.operation r.actor r.source
    record_event r.actor
        (by_source r AuditAction.payment_allocated AuditAction.mpesa_paybill_payment_allocated)
        allocation.id r.audit_reason
    record_event r.actor
        (by_source r AuditAction.wallet_payment_credit AuditAction.mpesa_paybill_wallet_credited)
        allocation.ledger_entry_id r.audit_reason
    pure p

  unfoldable pub place_new : Payment × Bool → Action Payment
  unfolding place
  place_new (p, false) = lift (equivalent r p)
  place_new (p, true) = do
    record_event r.actor
        (by_source r AuditAction.payment_received AuditAction.mpesa_paybill_payment_received) p.id
        r.audit_reason
    subscriber ← gets referenced
    place p subscriber

  unfoldable pub ingest_new : Action Payment
  unfolding place_new
  ingest_new = do
    ask (reject_conflicts r.operation)
    k ← fresh
    created ← create_payment u (payment_row r k)
    place_new created

  unfoldable pub ingest_existing : Option Payment → Action Payment
  unfolding ingest_new
  ingest_existing (some p) = lift (equivalent r p)
  ingest_existing none = ingest_new

  -- `_ingest_payment_core`
  unfoldable pub ingest_payment_core : Action Payment
  unfolding ingest_existing
  ingest_payment_core = do
    existing ← gets (find_payment r.profile r.transaction)
    ingest_existing existing

-- `_assert_fake_profile_can_ingest`; `production` says that the deployment is one.
unfoldable pub fake_can_ingest : Bool → PaymentProviderProfile → Result Error Unit
fake_can_ingest production profile =
    if production
    then err Error.production_forbidden
    else if not profile.is_active
    then err Error.profile_inactive
    else if not (is_fake profile.provider)
    then err Error.provider_not_fake
    else if not (is_fake_product profile.product_type)
    then err Error.product_not_fake
    else if is_production profile.environment
    then err Error.environment_not_allowed
    else ok tt

module _ (u : Unicode) (production : Bool) (profile : ℕ) (transaction : Text) (amount : Decimal)
    (received_at : Timestamp) (reference : Option Text) (operation_id : RawId)
    (actor : Option Actor) (digest : Text) where
  abbrev pub fake_ingestion : ℕ → ℕ → ℕ → Text → ℕ → Ingestion
  fake_ingestion operation amount_minor received digest actor_id = record {
    profile = profile;
    transaction = strip transaction;
    amount = amount_minor;
    received_at = received;
    reference = normalize_account_reference u reference;
    operation = operation;
    digest = digest;
    actor = some actor_id;
    source = Source.operator;
    audit_reason = codes "Fake payment ingestion";
    callback = false;
  }

  -- `ingest_fake_payment`
  unfoldable pub ingest_fake_payment : Action Payment
  unfolding ingest_payment_core
  ingest_fake_payment = atomic do
    operator ← lift (require_permission actor payment_permissions)
    operation ← lift (normalize_operation_id operation_id)
    amount_minor ← lift (normalize_ledger_amount amount)
    received ← lift (validate_aware received_at)
    refuse (is_blank (strip transaction)) Error.transaction_id_required do
      digest ← lift (normalize_payload_digest digest)
      locked ← require (λ db. profile_at profile db.profiles) Error.does_not_exist
      lift (fake_can_ingest production locked)
      ingest_payment_core u (fake_ingestion operation amount_minor received digest operator.id)
