-- ===== src/Calls/Stable.antt =====
-- What every accepted row and every registry change keeps is kept by every sequence of calls.
use supersurf_billing_phase.Exec.{Result, ok, err}
use supersurf_billing_phase.Exec.Keeps.{Keeps}
use supersurf_billing_phase.Errors.{Error}
use supersurf_billing_phase.Common.{◌≡◌, refl, List, [], ◌∷◌}
use supersurf_billing_phase.Schema.Rows.{Subscriber, Service, Plan, PaymentProviderProfile}
use supersurf_billing_phase.Schema.Database.{Db, Action}
use supersurf_billing_phase.Common.{Unicode}
use supersurf_billing_phase.Charges.Post.{activate_service_from_wallet, renew_service_from_wallet}
use supersurf_billing_phase.Schema.Choices.{PeriodType}
use supersurf_billing_phase.Stable.{IsCallbackStable}
use supersurf_billing_phase.Stable.Services.Wallets.{
  post_manual_wallet_adjustment-Keeps, reverse_ledger_entry-Keeps,
}
use supersurf_billing_phase.Stable.Services.Periods.{
  activate_billing_period-Keeps, renew_billing_period-Keeps, post_wallet_funded_period-Keeps,
}
use supersurf_billing_phase.Stable.Services.Payments.{
  ingest_fake_payment-Keeps, resolve_unmatched_payment-Keeps,
}
use supersurf_billing_phase.Stable.Services.Subscriptions.{
  assign_package-Keeps, change_subscription_package-Keeps, end_subscription-Keeps,
}
use supersurf_billing_phase.Stable.Services.Callbacks.{
  capture_mpesa_callback-Keeps, process_confirmation-Keeps, record_failure-Keeps,
}
use supersurf_billing_phase.Calls.{Call, outcome, perform, run}

pub outcome_db : {A : Type 0} (x : Result Error A × Db) → (outcome x).1 ≡ x.1
outcome_db (ok a, db) = refl
outcome_db (err e, db) = refl

outcome-keeps :
    {P : Db → Type 0} {A : Type 0} (m : Action A)
    → Keeps P m
    → (db : Db) → P db
    → P (outcome (m db)).1
outcome-keeps m k db h = rw (outcome_db (m db)) (k.at db h)

-- `P` does not read the registry tables.
abbrev pub IgnoresRegistry : (Db → Type 0) → Type 0
IgnoresRegistry P =
    (subscribers : List Subscriber) (services : List Service) (plans : List Plan)
    (profiles : List PaymentProviderProfile) (db : Db)
    → P db
    → P (record db {
      subscribers = subscribers;
      services = services;
      plans = plans;
      profiles = profiles;
    })

module _ {P : Db → Type 0} (all : IsCallbackStable P) (ignores : IgnoresRegistry P)
    (u : Unicode) where
  perform-keeps : (call : Call) (db : Db) → P db → P (perform u call db)
  unfolding activate_service_from_wallet renew_service_from_wallet
  perform-keeps (Call.adjust subscriber direction amount operation reason actor) = outcome-keeps _ (
      post_manual_wallet_adjustment-Keeps all.stable subscriber direction amount operation reason
        actor)
  perform-keeps (Call.reverse entry operation reason actor) =
      outcome-keeps _ (reverse_ledger_entry-Keeps all.stable entry operation reason actor)
  perform-keeps (Call.activate service operation expected reason actor at now) =
      outcome-keeps _
        (activate_billing_period-Keeps all.stable service operation expected reason actor at now)
  perform-keeps (Call.renew service operation expected reason actor at now) =
      outcome-keeps _
        (renew_billing_period-Keeps all.stable service operation expected reason actor at now)
  perform-keeps (Call.activate_from_wallet service operation expected reason actor at now) =
      outcome-keeps _ (
        post_wallet_funded_period-Keeps all.stable service operation expected reason actor at now
          PeriodType.activation)
  perform-keeps (Call.renew_from_wallet service operation expected reason actor at now) =
      outcome-keeps _ (
        post_wallet_funded_period-Keeps all.stable service operation expected reason actor at now
          PeriodType.renewal)
  perform-keeps
        (Call.ingest production profile transaction amount at reference operation actor digest) =
      outcome-keeps _ (
        ingest_fake_payment-Keeps all.stable u production profile transaction amount at reference
          operation actor digest)
  perform-keeps (Call.resolve unmatched subscriber operation reason actor now) =
      outcome-keeps _
        (resolve_unmatched_payment-Keeps all.stable unmatched subscriber operation reason actor now)
  perform-keeps (Call.assign service plan reason actor now) =
      outcome-keeps _ (assign_package-Keeps all.stable service plan reason actor now)
  perform-keeps (Call.change subscription plan reason actor now) =
      outcome-keeps _
        (change_subscription_package-Keeps all.stable subscription plan reason actor now)
  perform-keeps (Call.end subscription reason actor now) =
      outcome-keeps _ (end_subscription-Keeps all.stable subscription reason actor now)
  perform-keeps (Call.capture p digest t payload now) =
      outcome-keeps _ (capture_mpesa_callback-Keeps all p digest t payload now)
  perform-keeps (Call.confirm settings operation_of event) =
      outcome-keeps _ (process_confirmation-Keeps all u settings operation_of event)
  perform-keeps (Call.fail event reason) = outcome-keeps _ (record_failure-Keeps all event reason)
  perform-keeps (Call.registry subscribers services plans profiles) =
      ignores subscribers services plans profiles

  pub run-keeps : (calls : List Call) (db : Db) → P db → P (run u calls db)
  run-keeps [] db h = h
  run-keeps (call ∷ calls) db h = run-keeps calls (perform u call db) (perform-keeps call db h)
