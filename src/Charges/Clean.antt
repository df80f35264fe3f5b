-- ===== src/Charges/Clean.antt =====
-- `BillingCharge.full_clean` and `_save_billing_charge`.
use supersurf_billing_phase.Common.{
  Bool, false, not, ◌&&◌, Option, none, some, List, [], ◌∷◌, ◌++◌, ltb, ◌==◌, opt_eq, is_some, find,
  exists, length, text_eq, is_blank, strip,
}
use supersurf_billing_phase.Errors.{Issue, Error}
use supersurf_billing_phase.Schema.Choices.{
  EntryType, Direction, entry_type_eq, direction_eq, period_type_eq,
}
use supersurf_billing_phase.Schema.Rows.{
  BillingCharge, BillingPeriod, LedgerEntry, Service, Subscription, Wallet,
}
use supersurf_billing_phase.Schema.Database.{Db, Action}
use supersurf_billing_phase.Money.{max_money_minor, kes}
use supersurf_billing_phase.Validation.{Checks, collect}
use supersurf_billing_phase.Ledger.Clean.{entry_at}
use supersurf_billing_phase.Ledger.Save.{save_valid}
use supersurf_billing_phase.Periods.Clean.{out_of_range, period_at, subscription_at}

-- A test of a related row, which is made where the row is there.
abbrev pub of_row {ℓ} : {A : Type ℓ} → (A → Bool) → Option A → Bool
of_row test none = false
of_row test (some r) = test r

module _ (db : Db) (c : BillingCharge) where
  abbrev pub service_row : Option Service
  service_row = find (λ s. s.id == c.service_id) db.services

  abbrev pub wallet_row : Option Wallet
  wallet_row = find (λ w. w.id == c.wallet_id) db.wallets

  abbrev pub period_row : Option BillingPeriod
  period_row = period_at (some c.billing_period_id) db.periods

  abbrev pub entry_row : Option LedgerEntry
  entry_row = entry_at (some c.ledger_entry_id) db.entries

  abbrev pub subscription_row : Option Subscription
  subscription_row = subscription_at c.subscription_id db.subscriptions

  abbrev pub field_checks : Checks
  field_checks =
      (out_of_range 1 c.amount_minor, Issue.amount_out_of_range)
      ∷ (is_blank c.reason, Issue.reason_blank)
      ∷ (ltb 240 (length c.reason), Issue.reason_too_long)
      ∷ (not (is_some c.created_by_id), Issue.operator_required)
      ∷ (not (is_some service_row), Issue.row_missing)
      ∷ (not (is_some subscription_row), Issue.row_missing)
      ∷ (not (is_some period_row), Issue.row_missing)
      ∷ (not (is_some wallet_row), Issue.row_missing)
      ∷ (not (is_some entry_row), Issue.row_missing)
      ∷ []

  -- `self.wallet.subscriber_id != self.service.subscriber_id`
  abbrev pub other_subscriber : Option Wallet → Option Service → Bool
  other_subscriber (some w) (some s) = not (w.subscriber_id == s.subscriber_id)
  other_subscriber _ _ = false

  abbrev pub entry_checks : Option LedgerEntry → Checks
  entry_checks entry =
      (of_row (λ e. not (e.wallet_id == c.wallet_id)) entry, Issue.ledger_entry_other_wallet)
      ∷ (
        of_row (λ e. not (entry_type_eq e.entry_type EntryType.billing_charge)) entry,
        Issue.not_a_billing_charge,
      )
      ∷ (of_row (λ e. not (direction_eq e.direction Direction.debit)) entry, Issue.not_a_debit)
      ∷ (of_row (λ e. not (e.amount_minor == c.amount_minor)) entry, Issue.ledger_amount_differs)
      ∷ (of_row (λ e. not (text_eq e.currency c.currency)) entry, Issue.ledger_currency_differs)
      ∷ (of_row (λ e. not (e.operation_id == c.operation_id)) entry, Issue.ledger_operation_differs)
      ∷ (
        is_some c.created_by_id && of_row (λ e. not (opt_eq e.created_by_id c.created_by_id)) entry,
        Issue.ledger_operator_differs,
      )
      ∷ []

  abbrev pub period_checks : Option BillingPeriod → Checks
  period_checks period =
      (of_row (λ p. not (p.price_minor == c.amount_minor)) period, Issue.period_price_differs)
      ∷ (
        of_row (λ p. not (p.operation_id == c.operation_id)) period,
        Issue.period_operation_differs,
      )
      ∷ (
        of_row (λ p. not (period_type_eq p.period_type c.charge_type)) period,
        Issue.period_type_differs,
      )
      ∷ []

  abbrev pub own_checks : Checks
  own_checks =
      (is_blank (strip c.reason), Issue.reason_required)
      ∷ (not (text_eq c.currency kes), Issue.currency_not_kes)
      ∷ (c.amount_minor == 0, Issue.amount_not_positive)
      ∷ (ltb max_money_minor c.amount_minor, Issue.amount_too_large)
      ∷ (
        of_row (λ s. not (s.service_id == c.service_id)) subscription_row,
        Issue.subscription_other_service,
      )
      ∷ (of_row (λ p. not (p.service_id == c.service_id)) period_row, Issue.period_other_service)
      ∷ (
        of_row (λ p. not (p.subscription_id == c.subscription_id)) period_row,
        Issue.period_other_subscription,
      )
      ∷ (other_subscriber wallet_row service_row, Issue.wallet_other_subscriber)
      ∷ []

  abbrev pub clean_checks : Checks
  clean_checks = own_checks ++ (entry_checks entry_row ++ period_checks period_row)

  abbrev pub constraint_checks : Checks
  constraint_checks =
      (exists (λ r. r.operation_id == c.operation_id) db.charges, Issue.operation_id_taken)
      ∷ (exists (λ r. r.id == c.id) db.charges, Issue.id_taken)
      ∷ (
        exists (λ r. r.billing_period_id == c.billing_period_id) db.charges,
        Issue.period_already_charged,
      )
      ∷ (exists (λ r. r.ledger_entry_id == c.ledger_entry_id) db.charges, Issue.ledger_entry_taken)
      ∷ []

  unfoldable pub full_clean : List Issue
  full_clean = collect field_checks clean_checks constraint_checks

abbrev pub cleaned_charge : BillingCharge → BillingCharge
cleaned_charge c = record c { reason = strip c.reason }

abbrev pub insert_charge : BillingCharge → Db → Db
insert_charge c db = record db { charges = c ∷ db.charges }

-- `_save_billing_charge`
unfoldable pub save_billing_charge : BillingCharge → Action BillingCharge
unfolding save_valid
save_billing_charge c db =
    save_valid Error.operation_used_for_charge (full_clean db c) (insert_charge (cleaned_charge c))
      (cleaned_charge c) db
