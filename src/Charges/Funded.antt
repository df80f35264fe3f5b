-- ===== src/Charges/Funded.antt =====
-- The checks of a charge whose rows are locked: its subscription, its predecessor, its wallet.
use supersurf_billing_phase.Common.{
  ◌+◌, sym, Bool-cases, ℕ, ◌≡◌, ap, ◌∙◌, inl, inr, Option, none, some, ◌==◌, arith,
}
use supersurf_billing_phase.Exec.{Result, ok, err}
use supersurf_billing_phase.Errors.{Error}
use supersurf_billing_phase.Exec.Runs.{bind_then, lift_ok}
use supersurf_billing_phase.Schema.Choices.{PeriodType}
use supersurf_billing_phase.Schema.Rows.{BillingCharge, BillingPeriod, Subscription, Wallet}
use supersurf_billing_phase.Schema.Database.{Db}
use supersurf_billing_phase.Ledger.Save.{latest_entry}
use supersurf_billing_phase.Service.Lookup.{LockedService, find_service, wallet_of}
use supersurf_billing_phase.Periods.Save.{active_subscription, eligible, period_id_of}
use supersurf_billing_phase.Periods.Renew.{expect_latest}
use supersurf_billing_phase.Charges.Post.{
  ChargeRequest, next_period, check_expected, write_charge, charge_checked,
}
use supersurf_billing_phase.Charges.Effects.{IsCharged, write_charge_ok}

-- The service that is charged, its subscriber's wallet and its active subscription, whose price the
-- three new rows take.
pub record IsFunded (r : ChargeRequest) (old new : Db) (c : BillingCharge) : Type 0 where
  pub locked : LockedService
  pub subscription : Subscription
  pub wallet : Wallet
  pub found : find_service r.service old ≡ some locked
  pub owner : wallet_of locked.subscriber.id old.wallets ≡ some wallet
  pub current : active_subscription r.service old.subscriptions ≡ some subscription
  pub charged : IsCharged r subscription wallet old new c

pub eligible_ok :
    (locked : LockedService) (o : Option Subscription) (s : Subscription)
    → eligible locked o ≡ ok s
    → o ≡ some s
unfolding eligible
eligible_ok locked none s h = ground arith
eligible_ok locked (some x) s h = ground arith

second : Result Error (ℕ × Option BillingPeriod) → Option BillingPeriod
second (ok x) = x.1
second (err e) = none

-- The period that the new one is linked to is the one that the caller expected.
next_period_ok :
    (t : PeriodType) (expected : Option ℕ) (latest : Option BillingPeriod) (n : ℕ)
    (previous : Option BillingPeriod) (u : Unit)
    → check_expected t expected ≡ ok u
    → next_period t expected latest ≡ ok (n, previous)
    → period_id_of previous ≡ expected
unfolding next_period expect_latest check_expected second
next_period_ok PeriodType.activation none none n previous u fits h =
    ap (λ x. period_id_of (second x)) (sym h)
next_period_ok PeriodType.activation (some k) latest n previous u fits h = cc
next_period_ok PeriodType.activation none (some p) n previous u fits h = cc
next_period_ok PeriodType.renewal none latest n previous u fits h = cc
next_period_ok PeriodType.renewal (some k) none n previous u fits h = cc
next_period_ok PeriodType.renewal (some k) (some p) n previous u fits h =
    elim (Bool-cases (p.id == k)) [
      | inl same ↦
          let it : next_period PeriodType.renewal (some k) (some p)
              ≡ ok (p.sequence_number + 1, some p) =
            ground (arith, same) in
          ap (λ x. period_id_of (second x)) (sym h ∙ it) ∙ ap some (ground (arith, same))
      | inr other ↦ absurd (ground (arith, other))
    ]

pub charge_checked_ok :
    (r : ChargeRequest) (s : Subscription) (w : Wallet) (latest : Option BillingPeriod)
    (db db' : Db) (c : BillingCharge) (u : Unit)
    → check_expected r.charge_type r.expected ≡ ok u
    → charge_checked r s w latest (latest_entry w.id db.entries) db ≡ (ok c, db')
    → IsCharged r s w db db' c
unfolding charge_checked
charge_checked_ok r s w latest db db' c u fits h = bind_then _ _ db h λ next s1 chosen h1.
    bind_then _ _ s1 h1 λ balance s2 enough h2. bind_then _ _ s2 h2 λ effective s3 timed h3.
      let (chose, same1) = lift_ok _ next db s1 chosen in
      let (sum, same2) = lift_ok _ balance s1 s2 enough in
      let (_, same3) = lift_ok _ effective s2 s3 timed in
      let write = write_charge r s w (latest_entry w.id db.entries) next balance effective in
      let run : write db ≡ (ok c, db') = ap write (same1 ∙ same2 ∙ same3) ∙ h3 in
      write_charge_ok r s w next.0 next.1 balance effective db db' c
        (next_period_ok r.charge_type r.expected latest next.0 next.1 u fits chose) sum run
