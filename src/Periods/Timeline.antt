-- ===== src/Periods/Timeline.antt =====
-- The billing periods of a service in time: where a new one starts and ends, and the billing state.
use supersurf_billing_phase.Common.{
  ℕ, ◌+◌, ◌*◌, ◌≤◌, ◌<◌, ◌≡◌, ◌≢◌, ◌⊎◌, inl, inr, Option, some, ltb, Bool-cases, arith,
}
use supersurf_billing_phase.Exec.{Result, ok, err}
use supersurf_billing_phase.Exec.Runs.{Result-cases}
use supersurf_billing_phase.Errors.{Error}
use supersurf_billing_phase.Schema.Rows.{BillingPeriod}
use supersurf_billing_phase.Periods.Dates.{
  micros_per_hour, micros_per_day, end_of_time, add_duration, start_of, Dates, with_grace,
  period_dates, BillingState, period_state,
}

-- After a period whose grace does not end before it expires, the next one starts where it ends,
-- unless its state is expired; then the next one starts at the effective time. The two never overlap.
pub start_of-period_state :
    (p : BillingPeriod) (effective : ℕ)
    → p.expires_at ≤ p.grace_until
    → (p.expires_at ≤ start_of (some p) effective)
      × (((period_state (some p) effective ≡ BillingState.expired)
            × (start_of (some p) effective ≡ effective))
          ⊎ ((period_state (some p) effective ≢ BillingState.expired)
              × (start_of (some p) effective ≡ p.expires_at)))
unfolding start_of period_state
start_of-period_state p effective h = elim (Bool-cases (ltb effective p.grace_until)) [
  | inl before ↦ (ground arith, inr (ground arith, ground arith))
  | inr after ↦ (ground arith, inl (ground arith, ground arith))
]

add_duration_ok :
    (instant duration r : ℕ)
    → add_duration instant duration ≡ ok r
    → (r ≡ instant + duration) × (r < end_of_time)
unfolding add_duration
add_duration_ok instant duration r h = elim (Bool-cases (ltb (instant + duration) end_of_time)) [
  | inl fits ↦ ground arith
  | inr late ↦ absurd (ground arith)
]

with_grace_ok :
    (start hours : ℕ) (expiry : Result Error ℕ) (d : Dates)
    → with_grace start hours expiry ≡ ok d
    → (d.starts_at ≡ start)
      × (expiry ≡ ok d.expires_at)
      × (add_duration d.expires_at (hours * micros_per_hour) ≡ ok d.grace_until)
unfolding with_grace
with_grace_ok start hours (err e) d h = cc
with_grace_ok start hours (ok expiry) d h =
    elim (Result-cases (add_duration expiry (hours * micros_per_hour))) [
      | inl (e, late) ↦ absurd (ground (arith, late))
      | inr (grace, fits) ↦ ground (arith, fits)
    ]

-- When a new period gets dates, it starts where its predecessor says, lasts the days of the plan, is
-- followed by the hours of grace, and its grace ends within what a datetime can hold.
pub period_dates_ok :
    (previous : Option BillingPeriod) (effective days hours : ℕ) (d : Dates)
    → period_dates previous effective days hours ≡ ok d
    → (d.starts_at ≡ start_of previous effective)
      × (d.expires_at ≡ d.starts_at + days * micros_per_day)
      × (d.grace_until ≡ d.expires_at + hours * micros_per_hour)
      × (d.grace_until < end_of_time)
unfolding period_dates
period_dates_ok previous effective days hours d h =
    let start = start_of previous effective in
    let (starts, expiry, grace) =
      with_grace_ok start hours (add_duration start (days * micros_per_day)) d h in
    let (expires, _) = add_duration_ok start (days * micros_per_day) d.expires_at expiry in
    let (ends, fits) = add_duration_ok d.expires_at (hours * micros_per_hour) d.grace_until grace in
    (starts, omega arith, ends, fits)

abbrev pub stage : BillingState → ℕ
stage BillingState.unactivated = 0
stage BillingState.active = 1
stage BillingState.grace = 2
stage BillingState.expired = 3

-- As time passes, a period goes from active through grace to expired and never back.
pub period_state_mono :
    (p : BillingPeriod) (t later : ℕ)
    → t ≤ later
    → stage (period_state (some p) t) ≤ stage (period_state (some p) later)
unfolding period_state
period_state_mono p t later h = elim (Bool-cases (ltb t p.expires_at)) [
  | inl active ↦ elim (Bool-cases (ltb later p.expires_at)) [
    | inl still ↦ ground arith
    | inr over ↦ ground arith
  ]
  | inr over ↦ ground arith
]
