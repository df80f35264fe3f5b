-- ===== src/Stable/Services/Periods.antt =====
-- The services that open billing periods, with a charge or without, keep the invariant.
use supersurf_billing_phase.Common.{ℕ, none, some, Option, Text}
use supersurf_billing_phase.Exec.Keeps.{Keeps}
use supersurf_billing_phase.Schema.Choices.{PeriodType}
use supersurf_billing_phase.Schema.Rows.{BillingPeriod, LedgerEntry, Subscription, Wallet}
use supersurf_billing_phase.Service.Access.{Actor}
use supersurf_billing_phase.Service.Inputs.{RawId, Timestamp}
use supersurf_billing_phase.Periods.Save.{open_period}
use supersurf_billing_phase.Periods.Renew.{
  PeriodRequest, post_period, activate_locked, renew_locked, activate_expecting, renew_expecting,
  with_request, activate_billing_period, renew_billing_period,
}
use supersurf_billing_phase.Charges.Post.{
  ChargeRequest, write_charge, charge_checked, charge_locked, post_wallet_funded_period,
}
use supersurf_billing_phase.Schema.Database.{Db}
use supersurf_billing_phase.Stable.{IsStable}
use supersurf_billing_phase.Stable.Parts.{base_rules}
use supersurf_billing_phase.Stable.Saves.{save_billing_period-Keeps, save_billing_charge-Keeps}

module _ {P : Db → Type 0} (stable : IsStable P) where
  ruleset rules = (base_rules, save_billing_period-Keeps, save_billing_charge-Keeps)

  open_period-Keeps :
      (service : ℕ) (s : Subscription) (sequence : ℕ) (t : PeriodType) (operation : ℕ)
      (previous : Option BillingPeriod) (effective : ℕ)
      → Keeps P (open_period service s sequence t operation previous effective)
  unfolding open_period
  open_period-Keeps service s sequence t operation previous effective = search rules

  post_period-Keeps :
      (r : PeriodRequest) (s : Subscription) (sequence : ℕ) (t : PeriodType)
      (previous : Option BillingPeriod)
      → Keeps P (post_period r s sequence t previous)
  unfolding post_period
  post_period-Keeps r s sequence t previous = search (rules, open_period-Keeps)

  activate_locked-Keeps : (r : PeriodRequest) → Keeps P (activate_locked r)
  unfolding activate_locked
  activate_locked-Keeps r = search (rules, post_period-Keeps) depth 9

  renew_locked-Keeps : (r : PeriodRequest) (expected : ℕ) → Keeps P (renew_locked r expected)
  unfolding renew_locked
  renew_locked-Keeps r expected = search (rules, post_period-Keeps) depth 9

  activate_expecting-Keeps :
      (r : PeriodRequest) (expected : Option ℕ) → Keeps P (activate_expecting r expected)
  unfolding activate_expecting
  activate_expecting-Keeps r none = search (rules, activate_locked-Keeps)
  activate_expecting-Keeps r (some expected) = search rules

  renew_expecting-Keeps :
      (r : PeriodRequest) (expected : Option ℕ) → Keeps P (renew_expecting r expected)
  unfolding renew_expecting
  renew_expecting-Keeps r none = search rules
  renew_expecting-Keeps r (some expected) = search (rules, renew_locked-Keeps)

  write_charge-Keeps :
      (r : ChargeRequest) (s : Subscription) (w : Wallet) (latest : Option LedgerEntry)
      (next : ℕ × Option BillingPeriod) (balance effective : ℕ)
      → Keeps P (write_charge r s w latest next balance effective)
  unfolding write_charge
  write_charge-Keeps r s w latest (sequence, previous) balance effective =
      search (rules, open_period-Keeps) depth 10

  charge_checked-Keeps :
      (r : ChargeRequest) (s : Subscription) (w : Wallet) (period : Option BillingPeriod)
      (entry : Option LedgerEntry)
      → Keeps P (charge_checked r s w period entry)
  unfolding charge_checked
  charge_checked-Keeps r s w period entry = search (rules, write_charge-Keeps)

  charge_locked-Keeps : (r : ChargeRequest) → Keeps P (charge_locked r)
  unfolding charge_locked
  charge_locked-Keeps r = search (rules, charge_checked-Keeps) depth 10

  module _ (service : ℕ) (operation_id expected : RawId) (reason : Text) (actor : Option Actor)
      (effective_at : Option Timestamp) (now : ℕ) where
    -- An activation without a charge leaves a valid database valid, whatever its outcome.
    pub activate_billing_period-Keeps :
        Keeps P
          (activate_billing_period service operation_id expected reason actor effective_at now)
    unfolding activate_billing_period with_request
    activate_billing_period-Keeps = search (rules, activate_expecting-Keeps) depth 8

    -- A renewal without a charge leaves a valid database valid, whatever its outcome.
    pub renew_billing_period-Keeps :
        Keeps P (renew_billing_period service operation_id expected reason actor effective_at now)
    unfolding renew_billing_period with_request
    renew_billing_period-Keeps = search (rules, renew_expecting-Keeps) depth 8

    -- A charge for a period leaves a valid database valid, whatever its outcome.
    pub post_wallet_funded_period-Keeps :
        (charge_type : PeriodType)
        → Keeps P (
            post_wallet_funded_period service operation_id expected reason actor effective_at now
              charge_type)
    unfolding post_wallet_funded_period
    post_wallet_funded_period-Keeps charge_type = search (rules, charge_locked-Keeps) depth 10
