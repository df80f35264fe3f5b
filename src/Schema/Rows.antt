-- ===== src/Schema/Rows.antt =====
-- The rows, named as the models of billing/models.py, subscribers/models.py and audit/models.py.
use supersurf_billing_phase.Common.{ℕ, Option, Bool, Text}
use supersurf_billing_phase.Schema.Json.{Json}
use supersurf_billing_phase.Schema.Choices.{
  EntryType, Direction, Source, PeriodType, SubscriptionStatus, Provider, Product, EventType,
  ProfileEnvironment, CaseStatus, ReasonCode, CustomerType,
}

pub record Subscriber : Type 0 where
  pub id : ℕ
  pub account_number : Text
  pub customer_type : CustomerType
  pub display_name : Text
  pub primary_phone : Text
  pub email : Text
  pub is_active : Bool

pub record Service : Type 0 where
  pub id : ℕ
  pub subscriber_id : ℕ
  pub service_number : ℕ
  pub service_reference : Text
  pub label : Text
  pub is_active : Bool

-- The keys `subscriber_account` and `subscriber:<key of the subscriber>:service`.
pub data SequenceKey : Type 0 where
  account : SequenceKey
  services_of : ℕ → SequenceKey

pub record SubscriberSequence : Type 0 where
  pub key : SequenceKey
  pub next_value : ℕ

pub record Plan : Type 0 where
  pub id : ℕ
  pub name : Text
  pub download_speed_mbps : ℕ
  pub price_minor : ℕ
  pub currency : Text
  pub duration_days : ℕ
  pub grace_period_hours : ℕ
  pub description : Text
  pub is_active : Bool

-- The six snapshot columns that subscriptions and billing periods share.
pub record Snapshot : Type 0 where
  pub plan_name : Text
  pub download_speed_mbps : ℕ
  pub price_minor : ℕ
  pub currency : Text
  pub duration_days : ℕ
  pub grace_period_hours : ℕ

pub record Subscription : Type 0 where
  pub id : ℕ
  pub service_id : ℕ
  pub plan_id : ℕ
  pub status : SubscriptionStatus
  pub starts_at : ℕ
  pub ended_at : Option ℕ
  pub snapshot : Snapshot
  pub open snapshot use *

pub record BillingPeriod : Type 0 where
  pub id : ℕ
  pub service_id : ℕ
  pub subscription_id : ℕ
  pub sequence_number : ℕ
  pub period_type : PeriodType
  pub operation_id : ℕ
  pub previous_period_id : Option ℕ
  pub effective_at : ℕ
  pub starts_at : ℕ
  pub expires_at : ℕ
  pub grace_until : ℕ
  pub snapshot : Snapshot
  pub open snapshot use *

pub record Wallet : Type 0 where
  pub id : ℕ
  pub subscriber_id : ℕ
  pub currency : Text

pub record LedgerEntry : Type 0 where
  pub id : ℕ
  pub wallet_id : ℕ
  pub sequence_number : ℕ
  pub operation_id : ℕ
  pub entry_type : EntryType
  pub direction : Direction
  pub amount_minor : ℕ
  pub balance_after_minor : ℕ
  pub currency : Text
  pub previous_entry_id : Option ℕ
  pub reverses_entry_id : Option ℕ
  pub reason : Text
  pub creation_source : Source
  pub created_by_id : Option ℕ

pub record BillingCharge : Type 0 where
  pub id : ℕ
  pub service_id : ℕ
  pub subscription_id : ℕ
  pub billing_period_id : ℕ
  pub wallet_id : ℕ
  pub ledger_entry_id : ℕ
  pub operation_id : ℕ
  pub charge_type : PeriodType
  pub amount_minor : ℕ
  pub currency : Text
  pub reason : Text
  pub created_by_id : Option ℕ

pub record PaymentProviderProfile : Type 0 where
  pub id : ℕ
  pub name : Text
  pub provider : Provider
  pub product_type : Product
  pub environment : ProfileEnvironment
  pub external_identifier : Text
  pub is_active : Bool

pub record Payment : Type 0 where
  pub id : ℕ
  pub provider_profile_id : ℕ
  pub provider_transaction_id : Text
  pub amount_minor : ℕ
  pub currency : Text
  pub received_at : ℕ
  pub account_reference : Text
  pub payload_digest : Text

pub record PaymentAllocation : Type 0 where
  pub id : ℕ
  pub payment_id : ℕ
  pub wallet_id : ℕ
  pub ledger_entry_id : ℕ
  pub operation_id : ℕ
  pub amount_minor : ℕ
  pub currency : Text
  pub creation_source : Source
  pub created_by_id : Option ℕ

pub record UnmatchedPaymentCase : Type 0 where
  pub id : ℕ
  pub payment_id : ℕ
  pub status : CaseStatus
  pub reason_code : ReasonCode
  pub resolved_wallet_id : Option ℕ
  pub resolution_allocation_id : Option ℕ
  pub resolution_reason : Text
  pub resolved_by_id : Option ℕ
  pub resolved_at : Option ℕ

-- `amount` is a decimal with two places: its cents.
pub record MpesaCallbackEvent : Type 0 where
  pub id : ℕ
  pub event_type : EventType
  pub payload_sha256 : Text
  pub idempotency_key : Text
  pub sanitized_payload : Json
  pub provider_external_identifier : Text
  pub provider_transaction_id : Text
  pub merchant_request_id : Text
  pub checkout_request_id : Text
  pub account_reference : Text
  pub amount : Option ℕ
  pub result_code : Text
  pub result_description : Text
  pub received_at : ℕ

pub record MpesaCallbackPaymentLink : Type 0 where
  pub id : ℕ
  pub callback_event_id : ℕ
  pub payment_id : ℕ

-- `action` of an audit event, with the kind of its target.
pub data AuditAction : Type 0 where
  wallet_manual_credit wallet_manual_debit wallet_entry_reversed wallet_billing_charge : AuditAction
  wallet_payment_credit : AuditAction
  billing_period_activated billing_period_renewed billing_charge_posted : AuditAction
  payment_received payment_allocated payment_unmatched payment_unmatched_resolved : AuditAction
  subscription_assigned subscription_package_changed subscription_ended : AuditAction
  mpesa_paybill_payment_received mpesa_paybill_payment_unmatched : AuditAction
  mpesa_paybill_payment_allocated mpesa_paybill_wallet_credited : AuditAction
  subscriber_created subscriber_updated subscriber_reactivated subscriber_deactivated : AuditAction
  mpesa_callback_conflict mpesa_paybill_processing_skipped mpesa_paybill_processing_failed :
      AuditAction
  mpesa_paybill_profile_created mpesa_paybill_profile_activated mpesa_callback_payment_linked :
      AuditAction
  service_created service_updated service_reactivated service_deactivated : AuditAction
  package_created package_updated package_reactivated package_deactivated : AuditAction

-- What an audit event names its target by: the key of a row, or an account number or reference.
pub data Target : Type 0 where
  keyed : ℕ → Target
  labelled : Text → Target

pub record AuditEvent : Type 0 where
  pub actor_id : Option ℕ
  pub action : AuditAction
  pub target_identifier : Target
  pub reason : Text
