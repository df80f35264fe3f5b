-- ===== src/Subscriptions/Assign.antt =====
-- `assign_package`, `change_subscription_package` and `end_subscription` of billing/services.py.
use supersurf_billing_phase.Common.{
  ℕ, not, Option, none, some, List, [], ◌∷◌, ◌==◌, is_some, find, Text, is_blank, strip,
  if◌then◌else◌,
}
use supersurf_billing_phase.Exec.{
  Result, ok, err, pure, lift, gets, require, refuse, atomic, ◌>>=◌, ◌>>◌,
}
use supersurf_billing_phase.Errors.{Error}
use supersurf_billing_phase.Schema.Choices.{SubscriptionStatus}
use supersurf_billing_phase.Schema.Rows.{Plan, Snapshot, Subscription, AuditAction}
use supersurf_billing_phase.Schema.Database.{Action}
use supersurf_billing_phase.Periods.Save.{active_subscription}
use supersurf_billing_phase.Subscriptions.Clean.{save_new_subscription, save_status}
use supersurf_billing_phase.Service.Access.{Permission, Actor, require_permission}
use supersurf_billing_phase.Service.Lookup.{LockedService, fresh, lock_service, record_event}

-- `_snapshot_from_plan`
abbrev pub snapshot_of : Plan → Snapshot
snapshot_of plan = record {
  plan_name = plan.name;
  download_speed_mbps = plan.download_speed_mbps;
  price_minor = plan.price_minor;
  currency = plan.currency;
  duration_days = plan.duration_days;
  grace_period_hours = plan.grace_period_hours;
}

-- `_create_active_subscription`
abbrev pub active_row : ℕ → Plan → ℕ → ℕ → Subscription
active_row service plan now k = record {
  id = k;
  service_id = service;
  plan_id = plan.id;
  status = SubscriptionStatus.active;
  starts_at = now;
  ended_at = none;
  snapshot = snapshot_of plan;
}

abbrev pub ended_row : ℕ → Subscription → Subscription
ended_row now s = record s { status = SubscriptionStatus.ended; ended_at = some now }

-- `_lock_selected_plan`
unfoldable pub lock_plan : ℕ → Action Plan
lock_plan k = require (λ db. find (λ p. p.id == k) db.plans) Error.does_not_exist

abbrev pub assign_permissions : List Permission
assign_permissions = Permission.view_service ∷ Permission.add_subscription ∷ []

abbrev pub change_permissions : List Permission
change_permissions = Permission.view_service ∷ Permission.change_subscription ∷ []

-- The new subscription of a service.
unfoldable pub start_subscription : ℕ → Plan → ℕ → Action Subscription
start_subscription service plan now = do
  k ← fresh
  save_new_subscription (active_row service plan now k)

unfoldable pub assign_locked : LockedService → ℕ → Text → ℕ → ℕ → Action Subscription
unfolding start_subscription
assign_locked locked plan reason actor now = refuse (is_blank reason) Error.reason_required (
    refuse (not locked.service.is_active) Error.service_inactive (
      refuse (not locked.subscriber.is_active) Error.subscriber_inactive do
        current ← gets (λ db. active_subscription locked.service.id db.subscriptions)
        refuse (is_some current) Error.already_subscribed do
          selected ← lock_plan plan
          refuse (not selected.is_active) Error.plan_inactive do
            subscription ← start_subscription locked.service.id selected now
            record_event (some actor) AuditAction.subscription_assigned subscription.id reason
            pure subscription))

-- `assign_package`
unfoldable pub assign_package : ℕ → ℕ → Text → Option Actor → ℕ → Action Subscription
unfolding assign_locked
assign_package service plan reason actor now = atomic do
  operator ← lift (require_permission actor assign_permissions)
  locked ← lock_service service
  assign_locked locked plan (strip reason) operator.id now

-- The current subscription of the service must be the one that the caller has selected.
unfoldable pub current_or_stale : ℕ → Option Subscription → Result Error Subscription
current_or_stale k none = err Error.subscription_not_current
current_or_stale k (some s) = if s.id == k then ok s else err Error.subscription_not_current

unfoldable pub locked_current : ℕ → LockedService → Action Subscription
unfolding current_or_stale
locked_current k locked = do
  current ← gets (λ db. active_subscription locked.service.id db.subscriptions)
  s ← lift (current_or_stale k current)
  refuse (not (s.service_id == locked.service.id)) Error.subscription_not_current (pure s)

unfoldable pub change_checked :
    LockedService → Subscription → Plan → Text → ℕ → ℕ → Action Subscription
unfolding start_subscription
change_checked locked s plan reason actor now = refuse (s.plan_id == plan.id) Error.same_plan (
    refuse (not plan.is_active) Error.plan_inactive (
      refuse (not locked.service.is_active) Error.service_inactive (
        refuse (not locked.subscriber.is_active) Error.subscriber_inactive do
          save_status (ended_row now s)
          subscription ← start_subscription locked.service.id plan now
          record_event (some actor) AuditAction.subscription_package_changed subscription.id reason
          pure subscription)))

unfoldable pub change_locked : ℕ → LockedService → ℕ → Text → ℕ → ℕ → Action Subscription
unfolding locked_current change_checked
change_locked k locked plan reason actor now = refuse (is_blank reason) Error.reason_required do
  s ← locked_current k locked
  selected ← lock_plan plan
  change_checked locked s selected reason actor now

-- `_lookup_subscription_service_id`
unfoldable pub lookup_service : ℕ → Action Subscription
lookup_service k = require (λ db. find (λ s. s.id == k) db.subscriptions) Error.does_not_exist

-- `change_subscription_package`
unfoldable pub change_subscription_package : ℕ → ℕ → Text → Option Actor → ℕ → Action Subscription
unfolding change_locked
change_subscription_package k plan reason actor now = atomic do
  operator ← lift (require_permission actor change_permissions)
  row ← lookup_service k
  locked ← lock_service row.service_id
  change_locked k locked plan (strip reason) operator.id now

unfoldable pub end_locked : ℕ → LockedService → Text → ℕ → ℕ → Action Subscription
unfolding locked_current
end_locked k locked reason actor now = refuse (is_blank reason) Error.reason_required do
  s ← locked_current k locked
  saved ← save_status (ended_row now s)
  record_event (some actor) AuditAction.subscription_ended saved.id reason
  pure saved

-- `end_subscription`
unfoldable pub end_subscription : ℕ → Text → Option Actor → ℕ → Action Subscription
unfolding end_locked
end_subscription k reason actor now = atomic do
  operator ← lift (require_permission actor change_permissions)
  row ← lookup_service k
  locked ← lock_service row.service_id
  end_locked k locked (strip reason) operator.id now
