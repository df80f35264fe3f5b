-- ===== src/Periods/Renew.antt =====
-- `activate_billing_period` and `renew_billing_period` of billing/services.py.
use supersurf_billing_phase.Common.{ℕ, ◌+◌, Option, none, some, ◌==◌, is_some, if◌then◌else◌, Text}
use supersurf_billing_phase.Exec.{
  Result, ok, err, pure, raise, lift, gets, ask, reuse, refuse, atomic, ◌>>=◌, ◌>>◌,
}
use supersurf_billing_phase.Errors.{Error}
use supersurf_billing_phase.Schema.Choices.{PeriodType}
use supersurf_billing_phase.Schema.Rows.{BillingPeriod, Subscription, AuditAction}
use supersurf_billing_phase.Schema.Database.{Action}
use supersurf_billing_phase.Periods.Save.{
  latest_period, active_subscription, eligible, open_period, existing_period,
}
use supersurf_billing_phase.Service.Access.{
  Permission, Actor, require_permission, period_permissions,
}
use supersurf_billing_phase.Service.Inputs.{
  RawId, Timestamp, normalize_operation_id, normalize_previous_period_id, validate_reason,
  validate_aware, or_now,
}
use supersurf_billing_phase.Service.Lookup.{lock_service, record_event}

-- The normalised arguments of an activation or a renewal.
pub record PeriodRequest : Type 0 where
  pub service : ℕ
  pub operation : ℕ
  pub reason : Text
  pub actor : ℕ
  pub effective : Timestamp

abbrev pub period_action : PeriodType → AuditAction
period_action PeriodType.activation = AuditAction.billing_period_activated
period_action PeriodType.renewal = AuditAction.billing_period_renewed

-- The end of both services: the period and its audit event.
unfoldable pub post_period :
    PeriodRequest → Subscription → ℕ → PeriodType → Option BillingPeriod → Action BillingPeriod
post_period r subscription sequence period_type previous = do
  effective ← lift (validate_aware r.effective)
  period ← open_period r.service subscription sequence period_type r.operation previous effective
  record_event (some r.actor) (period_action period_type) period.id r.reason
  pure period

-- The latest period must be the one that the caller has seen.
unfoldable pub expect_latest : Option BillingPeriod → ℕ → Result Error BillingPeriod
expect_latest none expected = err Error.history_missing
expect_latest (some p) expected = if p.id == expected then ok p else err Error.stale_period

unfoldable pub activate_locked : PeriodRequest → Action BillingPeriod
unfolding post_period
activate_locked r = do
  locked ← lock_service r.service
  current ← gets (λ db. active_subscription r.service db.subscriptions)
  subscription ← lift (eligible locked current)
  latest ← gets (λ db. latest_period r.service db.periods)
  existing ← ask (existing_period r.service r.operation PeriodType.activation none)
  reuse existing (
      refuse (is_some latest) Error.history_exists
        (post_period r subscription 1 PeriodType.activation none))

unfoldable pub renew_locked : PeriodRequest → ℕ → Action BillingPeriod
unfolding post_period expect_latest
renew_locked r expected = do
  locked ← lock_service r.service
  current ← gets (λ db. active_subscription r.service db.subscriptions)
  subscription ← lift (eligible locked current)
  latest ← gets (λ db. latest_period r.service db.periods)
  existing ← ask (existing_period r.service r.operation PeriodType.renewal (some expected))
  reuse existing do
    previous ← lift (expect_latest latest expected)
    post_period r subscription (previous.sequence_number + 1) PeriodType.renewal (some previous)

-- `_require_permission` and the test of `billing.view_subscription` after it.
unfoldable pub require_period_permission : Option Actor → Result Error Actor
unfolding require_permission
require_period_permission actor = elim (require_permission actor period_permissions) [
  | err e ↦ err e
  | ok operator ↦
      if operator.has_perm Permission.view_subscription
      then ok operator
      else err Error.period_permission_denied
]

unfoldable pub activate_expecting : PeriodRequest → Option ℕ → Action BillingPeriod
unfolding activate_locked
activate_expecting r (some expected) = raise Error.activation_has_previous
activate_expecting r none = do
  existing ← ask (existing_period r.service r.operation PeriodType.activation none)
  reuse existing (activate_locked r)

unfoldable pub renew_expecting : PeriodRequest → Option ℕ → Action BillingPeriod
unfolding renew_locked
renew_expecting r none = raise Error.renewal_needs_previous
renew_expecting r (some expected) = do
  existing ← ask (existing_period r.service r.operation PeriodType.renewal (some expected))
  reuse existing (renew_locked r expected)

module _ (service : ℕ) (operation_id expected_previous_period_id : RawId) (reason : Text)
    (actor : Option Actor) (effective_at : Option Timestamp) (now : ℕ) where
  -- The arguments, checked in the order of both services, and the expected previous period.
  unfoldable pub with_request :
      (PeriodRequest → Option ℕ → Action BillingPeriod) → Action BillingPeriod
  with_request body = do
    operator ← lift (require_period_permission actor)
    reason ← lift (validate_reason reason)
    operation ← lift (normalize_operation_id operation_id)
    expected ← lift (normalize_previous_period_id expected_previous_period_id)
    body
        (record {
          service = service;
          operation = operation;
          reason = reason;
          actor = operator.id;
          effective = or_now effective_at now;
        })
        expected

  -- `activate_billing_period`
  unfoldable pub activate_billing_period : Action BillingPeriod
  unfolding with_request activate_expecting
  activate_billing_period = atomic (with_request activate_expecting)

  -- `renew_billing_period`
  unfoldable pub renew_billing_period : Action BillingPeriod
  unfolding with_request renew_expecting
  renew_billing_period = atomic (with_request renew_expecting)
