-- ===== src/Examples/Calls.antt =====
-- Sequences of calls on the small database, and a call that raises.
use supersurf_billing_phase.Common.{◌+◌, ◌≤◌, ◌≡◌, refl, [], ◌∷◌, codes}
use supersurf_billing_phase.Errors.{Error}
use supersurf_billing_phase.Schema.Choices.{Direction}
use supersurf_billing_phase.Schema.Database.{Db}
use supersurf_billing_phase.Money.{max_money_minor}
use supersurf_billing_phase.Ledger.Save.{latest_entry, current_balance}
use supersurf_billing_phase.Ledger.Invariant.{total}
use supersurf_billing_phase.Service.Inputs.{RawId}
use supersurf_billing_phase.Validity.Invariant.{IsValid}
use supersurf_billing_phase.Calls.{Call, perform, attempt, run}
use supersurf_billing_phase.Calls.Reach.{
  empty, Reachable, empty-IsValid, run-IsValid, Reachable-balance,
}
use supersurf_billing_phase.Calls.History.{Remembers, run-Remembers, attempt_err}
use supersurf_billing_phase.Examples.Data.{ascii, operator, amount, registry, credit}
use supersurf_billing_phase.Exec.{atomic, ◌>>=◌}
use supersurf_billing_phase.Common.{text_eq, strip, all_codes}
use supersurf_billing_phase.Validation.{complaints, first_complaint, collect}
use supersurf_billing_phase.Money.{normalize_ledger_amount}
use supersurf_billing_phase.Ledger.Clean as LedgerClean
use supersurf_billing_phase.Ledger.Save.{latest_entry, resulting_balance, save_ledger_entry}
use supersurf_billing_phase.Service.Access.{require_permission}
use supersurf_billing_phase.Service.Inputs.{
  normalize_operation_id, normalize_previous_period_id, normalize_direction, validate_reason,
  validate_ledger_reason, validate_aware,
}
use supersurf_billing_phase.Service.Lookup.{
  fresh, lock_subscriber, lock_service, wallet_checks, get_or_create_wallet, save_wallet,
  lock_wallet, lock_existing_wallet, record_event,
}
use supersurf_billing_phase.Wallets.Adjust.{existing_adjustment, post_manual_wallet_adjustment}

abbrev debit : Call
debit = Call.adjust 1 (codes "debit") amount (RawId.uuid 103) (codes "Refund") operator

abbrev untouched : Db
untouched = perform ascii registry empty

abbrev credited_once : Db
credited_once = perform ascii credit untouched

credited_once-Reachable : Reachable ascii credited_once
credited_once-Reachable =
    Reachable.step credit untouched (Reachable.step registry empty Reachable.start)

run-IsValid_example : IsValid (run ascii (registry ∷ credit ∷ debit ∷ []) empty)
run-IsValid_example = run-IsValid ascii (registry ∷ credit ∷ debit ∷ []) empty empty-IsValid

Reachable-balance_example :
    (current_balance (latest_entry 0 credited_once.entries)
        + total Direction.debit 0 credited_once.entries
      ≡ total Direction.credit 0 credited_once.entries)
    × (current_balance (latest_entry 0 credited_once.entries) ≤ max_money_minor)
Reachable-balance_example = Reachable-balance ascii credited_once 0 credited_once-Reachable

run-Remembers_example : Remembers credited_once (run ascii (debit ∷ credit ∷ []) credited_once)
run-Remembers_example = run-Remembers ascii (debit ∷ credit ∷ []) credited_once

-- A debit of an empty wallet raises, and the wallet that it made is gone again.
attempt_err_example : (attempt ascii debit untouched).1 ≡ untouched
unfolding atomic ◌>>=◌ text_eq strip all_codes complaints first_complaint collect
    normalize_ledger_amount LedgerClean.full_clean latest_entry resulting_balance save_ledger_entry
    require_permission normalize_operation_id normalize_previous_period_id normalize_direction
    validate_reason validate_ledger_reason validate_aware fresh lock_subscriber lock_service
    wallet_checks get_or_create_wallet save_wallet lock_wallet lock_existing_wallet record_event
    existing_adjustment post_manual_wallet_adjustment
attempt_err_example = attempt_err ascii debit untouched Error.balance_negative refl
