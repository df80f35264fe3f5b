-- ===== src/Periods/Save.antt =====
-- `_save_billing_period` with `BillingPeriod.save` of a new row, and the period queries of
-- billing/services.py.
use supersurf_billing_phase.Common.{
  ℕ, Bool, not, ◌&&◌, Option, none, some, List, [], ◌∷◌, ltb, ◌==◌, opt_eq, if◌then◌else◌, find,
  strip,
}
use supersurf_billing_phase.Exec.{Result, ok, err, lift, ◌>>=◌}
use supersurf_billing_phase.Errors.{Issue, Error}
use supersurf_billing_phase.Schema.Choices.{PeriodType, period_type_eq, is_active_status}
use supersurf_billing_phase.Schema.Rows.{BillingPeriod, Subscription, Snapshot}
use supersurf_billing_phase.Schema.Database.{Db, Action}
use supersurf_billing_phase.Ledger.Save.{save_valid}
use supersurf_billing_phase.Periods.Clean.{full_clean}
use supersurf_billing_phase.Periods.Dates.{Dates, period_dates}
use supersurf_billing_phase.Service.Lookup.{LockedService, fresh}

abbrev pub later_period : BillingPeriod → Option BillingPeriod → BillingPeriod
later_period p none = p
later_period p (some m) = if ltb p.sequence_number m.sequence_number then m else p

-- `_lock_latest_billing_period`
unfoldable pub latest_period : ℕ → List BillingPeriod → Option BillingPeriod
latest_period s [] = none
latest_period s (p ∷ periods) =
    if p.service_id == s
    then some (later_period p (latest_period s periods))
    else latest_period s periods

-- `_lock_current_active_subscription`
abbrev pub active_subscription : ℕ → List Subscription → Option Subscription
active_subscription s subscriptions =
    find (λ r. r.service_id == s && is_active_status r.status) subscriptions

abbrev pub strip_name : Snapshot → Snapshot
strip_name s = record s { plan_name = strip s.plan_name }

abbrev pub cleaned_period : BillingPeriod → BillingPeriod
cleaned_period p = record p { snapshot = strip_name p.snapshot }

abbrev pub insert_period : BillingPeriod → Db → Db
insert_period p db = record db { periods = p ∷ db.periods }

-- `_save_billing_period`
unfoldable pub save_billing_period : BillingPeriod → Action BillingPeriod
unfolding save_valid
save_billing_period p db =
    save_valid (Error.invalid_row Issue.operation_id_taken) (full_clean db p)
      (insert_period (cleaned_period p)) (cleaned_period p) db

-- `_assert_billing_period_eligibility`
unfoldable pub eligible : LockedService → Option Subscription → Result Error Subscription
eligible locked subscription =
    if not locked.service.is_active
    then err Error.service_inactive
    else if not locked.subscriber.is_active
    then err Error.subscriber_inactive
    else elim subscription [ none ↦ err Error.subscription_required | some s ↦ ok s ]

abbrev pub period_id_of : Option BillingPeriod → Option ℕ
period_id_of none = none
period_id_of (some p) = some p.id

-- The row that `_create_billing_period` builds.
abbrev pub period_row :
    ℕ → Subscription → ℕ → PeriodType → ℕ → Option BillingPeriod → ℕ → Dates → ℕ → BillingPeriod
period_row service subscription sequence period_type operation previous effective dates k = record {
  id = k;
  service_id = service;
  subscription_id = subscription.id;
  sequence_number = sequence;
  period_type = period_type;
  operation_id = operation;
  previous_period_id = period_id_of previous;
  effective_at = effective;
  starts_at = dates.starts_at;
  expires_at = dates.expires_at;
  grace_until = dates.grace_until;
  snapshot = subscription.snapshot;
}

-- `_create_billing_period` and `_save_billing_period`
unfoldable pub open_period :
    ℕ → Subscription → ℕ → PeriodType → ℕ → Option BillingPeriod → ℕ → Action BillingPeriod
unfolding period_dates save_billing_period
open_period service subscription sequence period_type operation previous effective = do
  dates ←
      lift
        (period_dates previous effective subscription.duration_days subscription.grace_period_hours)
  k ← fresh
  save_billing_period
      (period_row service subscription sequence period_type operation previous effective dates k)

abbrev pub same_period : ℕ → PeriodType → Option ℕ → BillingPeriod → Bool
same_period service period_type previous p =
    p.service_id == service
    && period_type_eq p.period_type period_type
    && opt_eq p.previous_period_id previous

-- `_existing_operation_result`
unfoldable pub existing_period :
    ℕ → ℕ → PeriodType → Option ℕ → Db → Result Error (Option BillingPeriod)
existing_period service operation period_type previous db =
    elim (find (λ p. p.operation_id == operation) db.periods) [
      | none ↦ ok none
      | some p ↦
          if same_period service period_type previous p
          then ok (some p)
          else err Error.operation_used_for_period
    ]
