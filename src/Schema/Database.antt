-- ===== src/Schema/Database.antt =====
-- The database: its tables, newest row first, and the supply of keys.
use supersurf_billing_phase.Common.{ℕ, List}
use supersurf_billing_phase.Exec.{Exec}
use supersurf_billing_phase.Errors.{Error}
use supersurf_billing_phase.Schema.Rows.{
  Subscriber, Service, SubscriberSequence, Plan, Subscription, BillingPeriod, Wallet, LedgerEntry,
  BillingCharge, PaymentProviderProfile, Payment, PaymentAllocation, UnmatchedPaymentCase,
  AuditEvent, MpesaCallbackEvent, MpesaCallbackPaymentLink,
}

pub record Db : Type 0 where
  pub next_id : ℕ
  pub subscribers : List Subscriber
  pub services : List Service
  pub sequences : List SubscriberSequence
  pub plans : List Plan
  pub subscriptions : List Subscription
  pub periods : List BillingPeriod
  pub wallets : List Wallet
  pub entries : List LedgerEntry
  pub charges : List BillingCharge
  pub profiles : List PaymentProviderProfile
  pub payments : List Payment
  pub allocations : List PaymentAllocation
  pub cases : List UnmatchedPaymentCase
  pub events : List MpesaCallbackEvent
  pub links : List MpesaCallbackPaymentLink
  pub audit : List AuditEvent

-- A service function.
abbrev pub Action : Type 0 → Type 0
Action A = Exec Db Error A
