-- ===== src/Periods/Opened.antt =====
-- What `_create_billing_period` has done when it returned.
use supersurf_billing_phase.Common.{ℕ, suc, ◌≡◌, ap, Option, ◌∷◌}
use supersurf_billing_phase.Exec.{ok}
use supersurf_billing_phase.Exec.Runs.{bind_then, lift_ok}
use supersurf_billing_phase.Schema.Choices.{PeriodType}
use supersurf_billing_phase.Schema.Rows.{BillingPeriod, Subscription}
use supersurf_billing_phase.Schema.Database.{Db}
use supersurf_billing_phase.Ledger.Save.{save_valid_ok}
use supersurf_billing_phase.Periods.Dates.{Dates, period_dates}
use supersurf_billing_phase.Periods.Save.{
  cleaned_period, period_row, save_billing_period, open_period,
}
use supersurf_billing_phase.Service.Lookup.{fresh}

pub open_period_ok :
    (service : ℕ) (s : Subscription) (sequence : ℕ) (t : PeriodType) (operation : ℕ)
    (previous : Option BillingPeriod) (effective : ℕ) (db db' : Db) (p : BillingPeriod)
    → open_period service s sequence t operation previous effective db ≡ (ok p, db')
    → (dates : Dates) × (k : ℕ) × (period_dates previous effective s.duration_days
          s.grace_period_hours
        ≡ ok dates)
      × (cleaned_period (period_row service s sequence t operation previous effective dates k) ≡ p)
      × (record db {
        next_id = suc db.next_id;
        periods =
            cleaned_period (period_row service s sequence t operation previous effective dates k)
            ∷ db.periods;
      }
          ≡ db')
unfolding open_period fresh save_billing_period
open_period_ok service s sequence t operation previous effective db db' p h =
    bind_then _ _ db h λ dates s1 dated h1. bind_then _ _ s1 h1 λ k s2 drawn h2.
      let (is, same1) = lift_ok _ dates db s1 dated in
      let same2 : record s1 { next_id = suc s1.next_id } ≡ s2 = ap (λ x. x.1) drawn in
      let (row, same3) = save_valid_ok _ _ _ _ p s2 db' h2 in
      (dates, k, is, row, rw (← same3, ← same2, ← same1))
