-- ===== src/Examples/Numbers.antt =====
-- The arithmetic of money, balances and dates at concrete values.
use supersurf_billing_phase.Common.{
  ◌<◌, ◌≤◌, ◌≡◌, ◌≢◌, refl, ◌⊎◌, ◌↔◌, false, none, some, codes, Text, arith,
}
use supersurf_billing_phase.Exec.{ok, err}
use supersurf_billing_phase.Errors.{Error}
use supersurf_billing_phase.Exec.Keeps.{Keeps}
use supersurf_billing_phase.Schema.Choices.{Direction, EntryType, Source, PeriodType}
use supersurf_billing_phase.Schema.Rows.{BillingPeriod, LedgerEntry}
use supersurf_billing_phase.Money.{
  max_money_minor, Exponent, Decimal, precision_bound, ksh_to_minor_units, minor_units_to_ksh,
}
use supersurf_billing_phase.Money.Exact.{
  IsCents, ksh_to_minor_units_iff, ksh_to_minor_units-minor_units_to_ksh,
}
use supersurf_billing_phase.Money.Format.{format_ksh, amount_read, format_ksh-read}
use supersurf_billing_phase.Ledger.Save.{resulting_balance, save_ledger_entry}
use supersurf_billing_phase.Ledger.Chain.{Moves}
use supersurf_billing_phase.Ledger.Balance.{resulting_balance_iff}
use supersurf_billing_phase.Ledger.Invariant.{IsLedger, save_ledger_entry-IsLedger}
use supersurf_billing_phase.Periods.Dates.{Dates, start_of, BillingState, period_state}
use supersurf_billing_phase.Periods.Timeline.{start_of-period_state, stage, period_state_mono}

-- 12.50
ksh_to_minor_units_iff_example :
    (ksh_to_minor_units (Decimal.finite false 1250 (Exponent.decimals 2)) ≡ ok 1250) ↔ (
      (false ≡ false)
      × (0 < 1250)
      × (1250 < precision_bound)
      × IsCents 1250 1250 (Exponent.decimals 2))
ksh_to_minor_units_iff_example = ksh_to_minor_units_iff false 1250 (Exponent.decimals 2) 1250

ksh_to_minor_units-minor_units_to_ksh_example :
    (d : Decimal) × (minor_units_to_ksh 1250 ≡ ok d) × (ksh_to_minor_units d ≡ ok 1250)
ksh_to_minor_units-minor_units_to_ksh_example =
    ksh_to_minor_units-minor_units_to_ksh 1250 (omega arith) (omega arith)

format_ksh-read_example : (t : Text) × (format_ksh 123400050 ≡ ok t) × (amount_read t ≡ 123400050)
format_ksh-read_example = format_ksh-read 123400050 (omega arith)

-- From ten to the 28 on, `quantize` raises.
too_long_for_shillings : format_ksh precision_bound ≡ err Error.invalid_operation
unfolding format_ksh
too_long_for_shillings = refl

whole_shillings_shown : format_ksh 150000 ≡ ok (codes "KSh 1,500")
unfolding format_ksh
whole_shillings_shown = refl

cents_shown : format_ksh 123400050 ≡ ok (codes "KSh 1,234,000.50")
unfolding format_ksh
cents_shown = refl

nothing_shown : format_ksh 0 ≡ ok (codes "KSh 0")
unfolding format_ksh
nothing_shown = refl

resulting_balance_iff_example :
    (resulting_balance 500 Direction.debit 200 ≡ ok 300)
    ↔ (Moves Direction.debit 500 200 300 × (300 ≤ max_money_minor))
resulting_balance_iff_example = resulting_balance_iff 500 Direction.debit 200 300

-- A row of a wallet that is not there.
abbrev stray : LedgerEntry
stray = record {
  id = 1;
  wallet_id = 9;
  sequence_number = 1;
  operation_id = 101;
  entry_type = EntryType.manual_credit;
  direction = Direction.credit;
  amount_minor = 5;
  balance_after_minor = 5;
  currency = codes "KES";
  previous_entry_id = none;
  reverses_entry_id = none;
  reason = codes "Stray";
  creation_source = Source.operator;
  created_by_id = some 7;
}

save_ledger_entry-IsLedger_example : Keeps IsLedger (save_ledger_entry stray)
save_ledger_entry-IsLedger_example = save_ledger_entry-IsLedger stray

-- Thirty days and a day of grace, from the thousandth day.
abbrev month : BillingPeriod
month = record {
  id = 3;
  service_id = 2;
  subscription_id = 2;
  sequence_number = 1;
  period_type = PeriodType.activation;
  operation_id = 201;
  previous_period_id = none;
  effective_at = 86400000000000;
  starts_at = 86400000000000;
  expires_at = 88992000000000;
  grace_until = 89078400000000;
  snapshot = record {
    plan_name = codes "Home";
    download_speed_mbps = 10;
    price_minor = 150000;
    currency = codes "KES";
    duration_days = 30;
    grace_period_hours = 24;
  };
}

start_of-period_state_example :
    (month.expires_at ≤ start_of (some month) 89000000000000)
    × (((period_state (some month) 89000000000000 ≡ BillingState.expired)
          × (start_of (some month) 89000000000000 ≡ 89000000000000))
        ⊎ ((period_state (some month) 89000000000000 ≢ BillingState.expired)
            × (start_of (some month) 89000000000000 ≡ month.expires_at)))
start_of-period_state_example = start_of-period_state month 89000000000000 (omega arith)

abbrev next_month : Dates
next_month = record {
  starts_at = 88992000000000;
  expires_at = 91584000000000;
  grace_until = 91670400000000;
}

period_state_mono_example :
    stage (period_state (some month) 87000000000000)
    ≤ stage (period_state (some month) 89000000000000)
period_state_mono_example = period_state_mono month 87000000000000 89000000000000 (omega arith)
