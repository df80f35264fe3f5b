-- ===== src/Calls.antt =====
-- The callers of billing/services.py: any sequence of service calls, and of changes to the registry
-- tables (subscribers, services, plans, payment provider profiles), which other code writes.
pub mod Stable
pub mod Reach
pub mod History
use supersurf_billing_phase.Common.{ℕ, Bool, Option, none, some, List, [], ◌∷◌, Text}
use supersurf_billing_phase.Exec.{Result, ok, err}
use supersurf_billing_phase.Errors.{Error}
use supersurf_billing_phase.Schema.Rows.{Subscriber, Service, Plan, PaymentProviderProfile}
use supersurf_billing_phase.Schema.Database.{Db}
use supersurf_billing_phase.Money.{Decimal}
use supersurf_billing_phase.Common.{Unicode}
use supersurf_billing_phase.Service.Access.{Actor}
use supersurf_billing_phase.Service.Inputs.{RawId, Timestamp}
use supersurf_billing_phase.Wallets.Adjust.{post_manual_wallet_adjustment}
use supersurf_billing_phase.Wallets.Reverse.{reverse_ledger_entry}
use supersurf_billing_phase.Periods.Renew.{activate_billing_period, renew_billing_period}
use supersurf_billing_phase.Charges.Post.{activate_service_from_wallet, renew_service_from_wallet}
use supersurf_billing_phase.Payments.Ingest.{ingest_fake_payment}
use supersurf_billing_phase.Payments.Resolve.{resolve_unmatched_payment}
use supersurf_billing_phase.Subscriptions.Assign.{
  assign_package, change_subscription_package, end_subscription,
}
use supersurf_billing_phase.Schema.Choices.{EventType}
use supersurf_billing_phase.Schema.Json.{Json}
use supersurf_billing_phase.Callbacks.Extract.{Python}
use supersurf_billing_phase.Callbacks.Capture.{capture_mpesa_callback}
use supersurf_billing_phase.Paybill.Settings.{Settings}
use supersurf_billing_phase.Paybill.Process.{record_failure, process_confirmation}

-- A call of a service with its arguments, or a new content of the registry tables.
pub data Call : Type 0 where
  adjust :
      (subscriber : ℕ) (direction : Text) (amount : Decimal) (operation_id : RawId) (reason : Text)
      (actor : Option Actor)
      → Call
  reverse : (entry : ℕ) (operation_id : RawId) (reason : Text) (actor : Option Actor) → Call
  activate renew activate_from_wallet renew_from_wallet :
      (service : ℕ) (operation_id expected : RawId) (reason : Text) (actor : Option Actor)
      (effective_at : Option Timestamp) (now : ℕ)
      → Call
  ingest :
      (production : Bool) (profile : ℕ) (transaction : Text) (amount : Decimal)
      (received_at : Timestamp) (reference : Option Text) (operation_id : RawId)
      (actor : Option Actor) (digest : Text)
      → Call
  resolve :
      (unmatched_case subscriber : ℕ) (operation_id : RawId) (reason : Text) (actor : Option Actor)
      (now : ℕ)
      → Call
  assign : (service plan : ℕ) (reason : Text) (actor : Option Actor) (now : ℕ) → Call
  change : (subscription plan : ℕ) (reason : Text) (actor : Option Actor) (now : ℕ) → Call
  capture : (p : Python) (digest : Json → Text) (t : EventType) (payload : Json) (now : ℕ) → Call
  confirm : (settings : Settings) (operation_of : ℕ → ℕ) (event : ℕ) → Call
  fail : (event : ℕ) (reason : Text) → Call
  end : (subscription : ℕ) (reason : Text) (actor : Option Actor) (now : ℕ) → Call
  registry :
      (subscribers : List Subscriber) (services : List Service) (plans : List Plan)
      (profiles : List PaymentProviderProfile)
      → Call

-- The error that a service raised, if it raised, and the database after it.
abbrev pub outcome : {A : Type 0} → Result Error A × Db → Option Error × Db
outcome (ok a, db) = (none, db)
outcome (err e, db) = (some e, db)

abbrev pub attempt : Unicode → Call → Db → Option Error × Db
attempt u (Call.adjust subscriber direction amount operation_id reason actor) db =
    outcome (post_manual_wallet_adjustment subscriber direction amount operation_id reason actor db)
attempt u (Call.reverse entry operation_id reason actor) db =
    outcome (reverse_ledger_entry entry operation_id reason actor db)
attempt u (Call.activate service operation_id expected reason actor effective_at now) db =
    outcome (activate_billing_period service operation_id expected reason actor effective_at now db)
attempt u (Call.renew service operation_id expected reason actor effective_at now) db =
    outcome (renew_billing_period service operation_id expected reason actor effective_at now db)
attempt u (Call.activate_from_wallet service operation_id expected reason actor effective_at now)
      db =
    outcome
      (activate_service_from_wallet service operation_id expected reason actor effective_at now db)
attempt u (Call.renew_from_wallet service operation_id expected reason actor effective_at now) db =
    outcome
      (renew_service_from_wallet service operation_id expected reason actor effective_at now db)
attempt u
      (Call.ingest production profile transaction amount received_at reference operation_id actor
        digest)
      db =
    outcome (
      ingest_fake_payment u production profile transaction amount received_at reference operation_id
        actor digest db)
attempt u (Call.resolve unmatched_case subscriber operation_id reason actor now) db =
    outcome (resolve_unmatched_payment unmatched_case subscriber operation_id reason actor now db)
attempt u (Call.assign service plan reason actor now) db =
    outcome (assign_package service plan reason actor now db)
attempt u (Call.change subscription plan reason actor now) db =
    outcome (change_subscription_package subscription plan reason actor now db)
attempt u (Call.end subscription reason actor now) db =
    outcome (end_subscription subscription reason actor now db)
attempt u (Call.capture p digest t payload now) db =
    outcome (capture_mpesa_callback p digest t payload now db)
attempt u (Call.confirm settings operation_of event) db =
    outcome (process_confirmation u settings operation_of event db)
attempt u (Call.fail event reason) db = outcome (record_failure event reason db)
attempt u (Call.registry subscribers services plans profiles) db = (
  none,
  record db { subscribers = subscribers; services = services; plans = plans; profiles = profiles },
)

-- The database after a call, whether the call returned or raised.
abbrev pub perform : Unicode → Call → Db → Db
perform u call db = (attempt u call db).1

-- The calls in their order.
abbrev pub run : Unicode → List Call → Db → Db
run u [] db = db
run u (call ∷ calls) db = run u calls (perform u call db)
