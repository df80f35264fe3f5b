-- ===== src/Charges/Effects.antt =====
-- What a charge that returned has written: the period, the ledger entry and the charge.
use supersurf_billing_phase.Common.{
  strip, ℕ, suc, ◌≡◌, refl, ap, inl, inr, Option, ◌∷◌, ltb, Bool-cases, arith,
}
use supersurf_billing_phase.Exec.{ok}
use supersurf_billing_phase.Exec.Runs.{bind_then, pure_ok}
use supersurf_billing_phase.Schema.Choices.{Direction}
use supersurf_billing_phase.Schema.Rows.{
  BillingCharge, BillingPeriod, LedgerEntry, Subscription, Wallet,
}
use supersurf_billing_phase.Schema.Database.{Db}
use supersurf_billing_phase.Ledger.Save.{
  latest_entry, current_balance, resulting_balance, save_valid_ok, cleaned_entry, save_ledger_entry,
}
use supersurf_billing_phase.Periods.Save.{period_id_of, cleaned_period, period_row}
use supersurf_billing_phase.Periods.Opened.{open_period_ok}
use supersurf_billing_phase.Service.Lookup.{fresh, record_event}
use supersurf_billing_phase.Service.Effects.{IsPosted, IsPosted-of}
use supersurf_billing_phase.Charges.Clean.{save_billing_charge}
use supersurf_billing_phase.Charges.Post.{
  ChargeRequest, charge_entry, charged_balance, write_charge,
}

-- The three rows of a charge: one new row in each table, under one operation ID, with the price of
-- the subscription, which the entry takes from the balance of the wallet.
pub record IsCharged (r : ChargeRequest) (s : Subscription) (w : Wallet) (old new : Db)
    (c : BillingCharge) : Type 0 where
  pub period : BillingPeriod
  pub entry : LedgerEntry
  pub charges : new.charges ≡ c ∷ old.charges
  pub periods : new.periods ≡ period ∷ old.periods
  pub posted : IsPosted Direction.debit c.amount_minor r.operation old.entries new.entries entry
  pub wallet_lem : entry.wallet_id ≡ w.id
  pub charge_lem :
      (c.service_id ≡ r.service)
      × (c.charge_type ≡ r.charge_type)
      × (c.operation_id ≡ r.operation)
      × (c.reason ≡ strip r.reason)
      × (c.amount_minor ≡ s.price_minor)
      × (c.subscription_id ≡ s.id)
      × (c.wallet_id ≡ w.id)
      × (c.billing_period_id ≡ period.id)
      × (c.ledger_entry_id ≡ entry.id)
  pub period_lem :
      (period.service_id ≡ r.service)
      × (period.period_type ≡ r.charge_type)
      × (period.operation_id ≡ r.operation)
      × (period.previous_period_id ≡ r.expected)
      × (period.subscription_id ≡ s.id)
      × (period.price_minor ≡ c.amount_minor)

charged_balance_ok :
    (balance amount r : ℕ)
    → charged_balance balance amount ≡ ok r
    → resulting_balance balance Direction.debit amount ≡ ok r
unfolding charged_balance
charged_balance_ok balance amount r h = elim (Bool-cases (ltb balance amount)) [
  | inl short ↦ absurd (ground (arith, short))
  | inr enough ↦ ground (arith, enough)
]

pub write_charge_ok :
    (r : ChargeRequest) (s : Subscription) (w : Wallet) (sequence : ℕ)
    (previous : Option BillingPeriod) (balance effective : ℕ) (db db' : Db) (c : BillingCharge)
    → period_id_of previous ≡ r.expected
    → charged_balance (current_balance (latest_entry w.id db.entries)) s.price_minor ≡ ok balance
    → write_charge r s w (latest_entry w.id db.entries) (sequence, previous) balance effective db
      ≡ (ok c, db')
    → IsCharged r s w db db' c
unfolding write_charge fresh record_event save_ledger_entry save_billing_charge
write_charge_ok r s w sequence previous balance effective db db' c follows enough h =
    bind_then _ _ db h λ p s1 opened h1. bind_then _ _ s1 h1 λ k s2 drawn h2.
      bind_then _ _ s2 h2 λ e s3 entered h3. bind_then _ _ s3 h3 λ j s4 taken h4.
        bind_then _ _ s4 h4 λ saved s5 charged h5. bind_then _ _ s5 h5 λ _ s6 told1 h6.
          bind_then _ _ s6 h6 λ _ s7 told2 h7. bind_then _ _ s7 h7 λ _ s8 told3 h8.
            let (dates, n, _, period, same1) =
              open_period_ok _ s sequence _ _ previous effective db s1 p opened in
            let same2 : record s1 { next_id = suc s1.next_id } ≡ s2 = ap (λ x. x.1) drawn in
            let (entry, same3) = save_valid_ok _ _ _ _ e s2 s3 entered in
            let same4 : record s3 { next_id = suc s3.next_id } ≡ s4 = ap (λ x. x.1) taken in
            let (row, same5) = save_valid_ok _ _ _ _ saved s4 s5 charged in
            let same6 = ap (λ x. x.1) told1 in
            let same7 = ap (λ x. x.1) told2 in
            let same8 = ap (λ x. x.1) told3 in
            let (result, same9) = pure_ok saved c s8 db' h8 in
            let row_is = charge_entry r w (latest_entry w.id db.entries) s.price_minor balance k in
            let posted =
              IsPosted-of row_is (cleaned_entry row_is) db.entries
                (cleaned_entry row_is ∷ db.entries)
                (charged_balance_ok _ s.price_minor balance enough) refl refl in
            rw
              (
                ← same9,
                ← same8,
                ← same7,
                ← same6,
                ← same5,
                ← same4,
                ← same3,
                ← same2,
                ← same1,
                ← result,
                ← row,
                ← entry,
                ← period,
              )
              record {
                period = cleaned_period (
                    period_row r.service s sequence r.charge_type r.operation previous effective
                      dates n);
                entry = cleaned_entry row_is;
                charges = refl;
                periods = refl;
                posted = posted;
                wallet_lem = refl;
                charge_lem = (refl, refl, refl, refl, refl, refl, refl, refl, refl);
                period_lem = (refl, refl, refl, follows, refl, refl);
              }
