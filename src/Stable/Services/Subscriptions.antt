-- ===== src/Stable/Services/Subscriptions.antt =====
-- The subscription services keep the invariant of the database.
use supersurf_billing_phase.Common.{ℕ, Option, Text}
use supersurf_billing_phase.Exec.Keeps.{Keeps}
use supersurf_billing_phase.Schema.Rows.{Plan, Subscription}
use supersurf_billing_phase.Service.Access.{Actor}
use supersurf_billing_phase.Service.Lookup.{LockedService}
use supersurf_billing_phase.Subscriptions.Assign.{
  lock_plan, start_subscription, assign_locked, assign_package, locked_current, change_checked,
  change_locked, lookup_service, change_subscription_package, end_locked, end_subscription,
}
use supersurf_billing_phase.Schema.Database.{Db}
use supersurf_billing_phase.Stable.{IsStable}
use supersurf_billing_phase.Stable.Parts.{base_rules}
use supersurf_billing_phase.Stable.Saves.{save_new_subscription-Keeps, ended_row-Keeps}

module _ {P : Db → Type 0} (stable : IsStable P) where
  lock_plan-Keeps : (k : ℕ) → Keeps P (lock_plan k)
  unfolding lock_plan
  lock_plan-Keeps k = search base_rules

  lookup_service-Keeps : (k : ℕ) → Keeps P (lookup_service k)
  unfolding lookup_service
  lookup_service-Keeps k = search base_rules

  locked_current-Keeps : (k : ℕ) (locked : LockedService) → Keeps P (locked_current k locked)
  unfolding locked_current
  locked_current-Keeps k locked = search base_rules

  ruleset rules = (
    base_rules, lock_plan-Keeps, lookup_service-Keeps, locked_current-Keeps,
    save_new_subscription-Keeps, ended_row-Keeps,
  )

  start_subscription-Keeps :
      (service : ℕ) (plan : Plan) (now : ℕ) → Keeps P (start_subscription service plan now)
  unfolding start_subscription
  start_subscription-Keeps service plan now = search rules

  assign_locked-Keeps :
      (locked : LockedService) (plan : ℕ) (reason : Text) (actor now : ℕ)
      → Keeps P (assign_locked locked plan reason actor now)
  unfolding assign_locked
  assign_locked-Keeps locked plan reason actor now =
      search (rules, start_subscription-Keeps) depth 14

  -- The assignment of a package leaves a valid database valid, whatever its outcome.
  pub assign_package-Keeps :
      (service plan : ℕ) (reason : Text) (actor : Option Actor) (now : ℕ)
      → Keeps P (assign_package service plan reason actor now)
  unfolding assign_package
  assign_package-Keeps service plan reason actor now = search (rules, assign_locked-Keeps) depth 7

  change_checked-Keeps :
      (locked : LockedService) (s : Subscription) (plan : Plan) (reason : Text) (actor now : ℕ)
      → Keeps P (change_checked locked s plan reason actor now)
  unfolding change_checked
  change_checked-Keeps locked s plan reason actor now =
      search (rules, start_subscription-Keeps) depth 12

  change_locked-Keeps :
      (k : ℕ) (locked : LockedService) (plan : ℕ) (reason : Text) (actor now : ℕ)
      → Keeps P (change_locked k locked plan reason actor now)
  unfolding change_locked
  change_locked-Keeps k locked plan reason actor now = search (rules, change_checked-Keeps) depth 8

  -- The change of a package leaves a valid database valid, whatever its outcome.
  pub change_subscription_package-Keeps :
      (k plan : ℕ) (reason : Text) (actor : Option Actor) (now : ℕ)
      → Keeps P (change_subscription_package k plan reason actor now)
  unfolding change_subscription_package
  change_subscription_package-Keeps k plan reason actor now =
      search (rules, change_locked-Keeps) depth 8

  end_locked-Keeps :
      (k : ℕ) (locked : LockedService) (reason : Text) (actor now : ℕ)
      → Keeps P (end_locked k locked reason actor now)
  unfolding end_locked
  end_locked-Keeps k locked reason actor now = search rules depth 9

  -- The ending of a subscription leaves a valid database valid, whatever its outcome.
  pub end_subscription-Keeps :
      (k : ℕ) (reason : Text) (actor : Option Actor) (now : ℕ)
      → Keeps P (end_subscription k reason actor now)
  unfolding end_subscription
  end_subscription-Keeps k reason actor now = search (rules, end_locked-Keeps) depth 8
