-- ===== src/Periods/Clean.antt =====
-- `BillingPeriod.full_clean`.
use supersurf_billing_phase.Common.{
  ℕ, Bool, false, not, ◌&&◌, ◌||◌, Option, none, some, List, [], ◌∷◌, ltb, leb, ◌==◌, opt_eq,
  is_some, find, exists, length, text_eq, is_blank, strip,
}
use supersurf_billing_phase.Errors.{Issue}
use supersurf_billing_phase.Schema.Choices.{PeriodType, period_type_eq}
use supersurf_billing_phase.Schema.Rows.{BillingPeriod, Snapshot, Subscription}
use supersurf_billing_phase.Schema.Database.{Db}
use supersurf_billing_phase.Money.{max_money_minor, kes}
use supersurf_billing_phase.Validation.{Checks, collect}

abbrev pub out_of_range : ℕ → ℕ → Bool
out_of_range least n = ltb n least || ltb max_money_minor n

abbrev pub period_at : Option ℕ → List BillingPeriod → Option BillingPeriod
period_at none periods = none
period_at (some k) periods = find (λ p. p.id == k) periods

abbrev pub subscription_at : ℕ → List Subscription → Option Subscription
subscription_at k subscriptions = find (λ s. s.id == k) subscriptions

-- The columns of the snapshot, which subscriptions have too.
abbrev pub snapshot_field_checks : Snapshot → Checks
snapshot_field_checks s =
    (is_blank s.plan_name, Issue.plan_name_required)
    ∷ (ltb 120 (length s.plan_name), Issue.text_too_long)
    ∷ (out_of_range 1 s.download_speed_mbps, Issue.speed_out_of_range)
    ∷ (out_of_range 1 s.price_minor, Issue.price_out_of_range)
    ∷ (out_of_range 1 s.duration_days, Issue.duration_out_of_range)
    ∷ (out_of_range 0 s.grace_period_hours, Issue.grace_out_of_range)
    ∷ []

-- The tests of the snapshot at the end of `clean`.
abbrev pub snapshot_clean_checks : Snapshot → Checks
snapshot_clean_checks s =
    (not (text_eq s.currency kes), Issue.currency_not_kes)
    ∷ (s.price_minor == 0, Issue.price_out_of_range)
    ∷ (s.download_speed_mbps == 0, Issue.speed_out_of_range)
    ∷ (s.duration_days == 0, Issue.duration_out_of_range)
    ∷ []

abbrev pub other_service : ℕ → Option BillingPeriod → Bool
other_service service_id none = false
other_service service_id (some p) = not (p.service_id == service_id)

abbrev pub subscribed_elsewhere : ℕ → Option Subscription → Bool
subscribed_elsewhere service_id none = false
subscribed_elsewhere service_id (some s) = not (s.service_id == service_id)

module _ (db : Db) (p : BillingPeriod) where
  abbrev pub field_checks : Checks
  field_checks =
      (out_of_range 1 p.sequence_number, Issue.sequence_out_of_range)
      ∷ (not (exists (λ s. s.id == p.service_id) db.services), Issue.row_missing)
      ∷ (not (is_some (subscription_at p.subscription_id db.subscriptions)), Issue.row_missing)
      ∷ (
        is_some p.previous_period_id && not (is_some (period_at p.previous_period_id db.periods)),
        Issue.row_missing,
      )
      ∷ snapshot_field_checks p.snapshot

  abbrev pub clean_checks : Checks
  clean_checks =
      (is_blank (strip p.plan_name), Issue.plan_name_required)
      ∷ (
        period_type_eq p.period_type PeriodType.activation && is_some p.previous_period_id,
        Issue.previous_forbidden,
      )
      ∷ (
        period_type_eq p.period_type PeriodType.renewal && not (is_some p.previous_period_id),
        Issue.previous_required,
      )
      ∷ (
        subscribed_elsewhere p.service_id (subscription_at p.subscription_id db.subscriptions),
        Issue.subscription_other_service,
      )
      ∷ (
        other_service p.service_id (period_at p.previous_period_id db.periods),
        Issue.previous_other_service,
      )
      ∷ (leb p.expires_at p.starts_at, Issue.expires_not_after_start)
      ∷ (ltb p.grace_until p.expires_at, Issue.grace_before_expiry)
      ∷ snapshot_clean_checks p.snapshot

  abbrev pub constraint_checks : Checks
  constraint_checks =
      (exists (λ r. r.operation_id == p.operation_id) db.periods, Issue.operation_id_taken)
      ∷ (exists (λ r. r.id == p.id) db.periods, Issue.id_taken)
      ∷ (
        exists (λ r. r.service_id == p.service_id && r.sequence_number == p.sequence_number)
            db.periods,
        Issue.service_sequence_taken,
      )
      ∷ (
        is_some p.previous_period_id
            && exists (λ r. opt_eq r.previous_period_id p.previous_period_id) db.periods,
        Issue.previous_has_successor,
      )
      ∷ []

  unfoldable pub full_clean : List Issue
  full_clean = collect field_checks clean_checks constraint_checks
