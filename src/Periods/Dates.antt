-- ===== src/Periods/Dates.antt =====
-- The arithmetic of `_create_billing_period` and `_billing_period_state`. Instants are microseconds
-- of UTC since the first of January of the year 1.
use supersurf_billing_phase.Common.{ℕ, ◌+◌, ◌*◌, Option, none, some, ltb, if◌then◌else◌}
use supersurf_billing_phase.Exec.{Result, ok, err}
use supersurf_billing_phase.Errors.{Error}
use supersurf_billing_phase.Schema.Rows.{BillingPeriod}

abbrev pub micros_per_hour : ℕ
micros_per_hour = 3600000000

abbrev pub micros_per_day : ℕ
micros_per_day = 86400000000

-- The end of the year 9999, which no datetime reaches.
abbrev pub end_of_time : ℕ
end_of_time = 3652059 * 86400000000

-- `instant + timedelta(...)`, which raises an `OverflowError` past the year 9999.
unfoldable pub add_duration : ℕ → ℕ → Result Error ℕ
add_duration instant duration =
    if ltb (instant + duration) end_of_time
    then ok (instant + duration)
    else err Error.date_overflow

-- Where the new period starts: a renewal before the end of grace continues the previous period.
unfoldable pub start_of : Option BillingPeriod → ℕ → ℕ
start_of none effective = effective
start_of (some previous) effective =
    if ltb effective previous.grace_until then previous.expires_at else effective

pub record Dates : Type 0 where
  pub starts_at : ℕ
  pub expires_at : ℕ
  pub grace_until : ℕ

-- The expiry, and the grace after it.
unfoldable pub with_grace : ℕ → ℕ → Result Error ℕ → Result Error Dates
unfolding add_duration
with_grace start hours (err e) = err e
with_grace start hours (ok expiry) = elim (add_duration expiry (hours * micros_per_hour)) [
  | err e ↦ err e
  | ok grace ↦ ok (record { starts_at = start; expires_at = expiry; grace_until = grace })
]

unfoldable pub period_dates : Option BillingPeriod → ℕ → ℕ → ℕ → Result Error Dates
unfolding start_of with_grace
period_dates previous effective days hours =
    with_grace (start_of previous effective) hours
      (add_duration (start_of previous effective) (days * micros_per_day))

pub data BillingState : Type 0 where
  unactivated active grace expired : BillingState

-- `_billing_period_state`
unfoldable pub period_state : Option BillingPeriod → ℕ → BillingState
period_state none t = unactivated
period_state (some p) t =
    if ltb t p.expires_at then active else if ltb t p.grace_until then grace else expired
