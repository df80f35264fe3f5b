-- ===== src/Charges/Post.antt =====
-- `_post_wallet_funded_period`, `activate_service_from_wallet` and `renew_service_from_wallet` of
-- billing/services.py.
use supersurf_billing_phase.Common.{
  ℕ, ◌+◌, Bool, ◌&&◌, Option, none, some, ltb, ◌==◌, opt_eq, if◌then◌else◌, find, exists, Text,
  text_eq,
}
use supersurf_billing_phase.Exec.{
  Result, ok, err, pure, lift, gets, ask, reuse, atomic, ◌>>=◌, ◌>>◌,
}
use supersurf_billing_phase.Errors.{Error}
use supersurf_billing_phase.Schema.Choices.{
  EntryType, Direction, Source, PeriodType, period_type_eq,
}
use supersurf_billing_phase.Schema.Rows.{
  BillingCharge, BillingPeriod, LedgerEntry, Subscription, Wallet, AuditAction,
}
use supersurf_billing_phase.Schema.Database.{Db, Action}
use supersurf_billing_phase.Money.{kes}
use supersurf_billing_phase.Ledger.Save.{
  latest_entry, current_balance, next_sequence, resulting_balance, save_ledger_entry,
}
use supersurf_billing_phase.Ledger.Chain.{id_of}
use supersurf_billing_phase.Periods.Clean.{period_at}
use supersurf_billing_phase.Periods.Save.{latest_period, active_subscription, eligible, open_period}
use supersurf_billing_phase.Periods.Renew.{period_action, expect_latest}
use supersurf_billing_phase.Charges.Clean.{of_row, save_billing_charge}
use supersurf_billing_phase.Service.Access.{Actor, require_permission, charge_permissions}
use supersurf_billing_phase.Service.Inputs.{
  RawId, Timestamp, normalize_operation_id, normalize_previous_period_id, validate_ledger_reason,
  validate_aware, or_now,
}
use supersurf_billing_phase.Service.Lookup.{fresh, lock_service, lock_existing_wallet, record_event}

-- The normalised arguments.
pub record ChargeRequest : Type 0 where
  pub service : ℕ
  pub operation : ℕ
  pub expected : Option ℕ
  pub reason : Text
  pub actor : ℕ
  pub effective : Timestamp
  pub charge_type : PeriodType

abbrev pub same_charge : Db → ChargeRequest → BillingCharge → Bool
same_charge db r c =
    c.service_id == r.service
    && period_type_eq c.charge_type r.charge_type
    && of_row (λ p. opt_eq p.previous_period_id r.expected && c.amount_minor == p.price_minor)
        (period_at (some c.billing_period_id) db.periods)
    && text_eq c.reason r.reason

-- `_existing_charge_operation_result`
unfoldable pub existing_charge : ChargeRequest → Db → Result Error (Option BillingCharge)
existing_charge r db = elim (find (λ c. c.operation_id == r.operation) db.charges) [
  | some c ↦ if same_charge db r c then ok (some c) else err Error.operation_used_for_charge
  | none ↦
      if exists (λ p. p.operation_id == r.operation) db.periods
      then err Error.operation_used_for_period
      else if exists (λ e. e.operation_id == r.operation) db.entries
      then err Error.operation_used_for_entry
      else ok none
]

abbrev pub charge_entry : ChargeRequest → Wallet → Option LedgerEntry → ℕ → ℕ → ℕ → LedgerEntry
charge_entry r wallet latest amount balance k = record {
  id = k;
  wallet_id = wallet.id;
  sequence_number = next_sequence latest;
  operation_id = r.operation;
  entry_type = EntryType.billing_charge;
  direction = Direction.debit;
  amount_minor = amount;
  balance_after_minor = balance;
  currency = kes;
  previous_entry_id = id_of latest;
  reverses_entry_id = none;
  reason = r.reason;
  creation_source = Source.operator;
  created_by_id = some r.actor;
}

abbrev pub charge_row :
    ChargeRequest → Subscription → BillingPeriod → Wallet → LedgerEntry → ℕ → BillingCharge
charge_row r subscription period wallet entry k = record {
  id = k;
  service_id = r.service;
  subscription_id = subscription.id;
  billing_period_id = period.id;
  wallet_id = wallet.id;
  ledger_entry_id = entry.id;
  operation_id = r.operation;
  charge_type = r.charge_type;
  amount_minor = subscription.price_minor;
  currency = kes;
  reason = r.reason;
  created_by_id = some r.actor;
}

-- The sequence number and the predecessor of the new period, by the kind of the charge.
unfoldable pub next_period :
    PeriodType → Option ℕ → Option BillingPeriod → Result Error (ℕ × Option BillingPeriod)
unfolding expect_latest
next_period PeriodType.activation expected none = ok (1, none)
next_period PeriodType.activation expected (some p) = err Error.history_exists
next_period PeriodType.renewal none latest = err Error.renewal_needs_previous
next_period PeriodType.renewal (some k) latest = elim (expect_latest latest k) [
  | err e ↦ err e
  | ok p ↦ ok (p.sequence_number + 1, some p)
]

-- The balance after the charge, with the service's own message for too little money.
unfoldable pub charged_balance : ℕ → ℕ → Result Error ℕ
unfolding resulting_balance
charged_balance balance amount =
    if ltb balance amount
    then err Error.balance_insufficient
    else resulting_balance balance Direction.debit amount

-- The three rows and their audit events.
unfoldable pub write_charge :
    ChargeRequest
    → Subscription
    → Wallet
    → Option LedgerEntry
    → ℕ × Option BillingPeriod
    → ℕ
    → ℕ
    → Action BillingCharge
write_charge r subscription wallet latest (sequence, previous) balance effective = do
  period ← open_period r.service subscription sequence r.charge_type r.operation previous effective
  k ← fresh
  entry ← save_ledger_entry (charge_entry r wallet latest subscription.price_minor balance k)
  j ← fresh
  charge ← save_billing_charge (charge_row r subscription period wallet entry j)
  record_event (some r.actor) (period_action r.charge_type) period.id r.reason
  record_event (some r.actor) AuditAction.billing_charge_posted charge.id r.reason
  record_event (some r.actor) AuditAction.wallet_billing_charge entry.id r.reason
  pure charge

unfoldable pub charge_checked :
    ChargeRequest
    → Subscription
    → Wallet
    → Option BillingPeriod
    → Option LedgerEntry
    → Action BillingCharge
unfolding write_charge next_period charged_balance
charge_checked r subscription wallet latest_period latest_entry = do
  next ← lift (next_period r.charge_type r.expected latest_period)
  balance ← lift (charged_balance (current_balance latest_entry) subscription.price_minor)
  effective ← lift (validate_aware r.effective)
  write_charge r subscription wallet latest_entry next balance effective

unfoldable pub charge_locked : ChargeRequest → Action BillingCharge
unfolding charge_checked
charge_locked r = do
  locked ← lock_service r.service
  wallet ← lock_existing_wallet locked.subscriber.id
  current ← gets (λ db. active_subscription r.service db.subscriptions)
  subscription ← lift (eligible locked current)
  period ← gets (λ db. latest_period r.service db.periods)
  entry ← gets (λ db. latest_entry wallet.id db.entries)
  existing ← ask (existing_charge r)
  reuse existing (charge_checked r subscription wallet period entry)

-- The tests of the expected previous period against the kind of the charge.
unfoldable pub check_expected : PeriodType → Option ℕ → Result Error Unit
check_expected PeriodType.activation (some k) = err Error.activation_has_previous
check_expected PeriodType.renewal none = err Error.renewal_needs_previous
check_expected _ _ = ok tt

module _ (service : ℕ) (operation_id expected_previous_period_id : RawId) (reason : Text)
    (actor : Option Actor) (effective_at : Option Timestamp) (now : ℕ) where
  -- `_post_wallet_funded_period`
  unfoldable pub post_wallet_funded_period : PeriodType → Action BillingCharge
  unfolding charge_locked check_expected
  post_wallet_funded_period charge_type = atomic do
    operator ← lift (require_permission actor charge_permissions)
    reason ← lift (validate_ledger_reason reason)
    operation ← lift (normalize_operation_id operation_id)
    expected ← lift (normalize_previous_period_id expected_previous_period_id)
    lift (check_expected charge_type expected)
    let r : ChargeRequest = record {
      service = service;
      operation = operation;
      expected = expected;
      reason = reason;
      actor = operator.id;
      effective = or_now effective_at now;
      charge_type = charge_type;
    }
    existing ← ask (existing_charge r)
    reuse existing (charge_locked r)

  -- `activate_service_from_wallet`
  unfoldable pub activate_service_from_wallet : Action BillingCharge
  unfolding post_wallet_funded_period
  activate_service_from_wallet = post_wallet_funded_period PeriodType.activation

  -- `renew_service_from_wallet`
  unfoldable pub renew_service_from_wallet : Action BillingCharge
  unfolding post_wallet_funded_period
  renew_service_from_wallet = post_wallet_funded_period PeriodType.renewal
