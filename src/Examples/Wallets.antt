-- ===== src/Examples/Wallets.antt =====
-- The wallet services on the small database.
use supersurf_billing_phase.Common.{ℕ, ◌≡◌, refl, ◌⊎◌, none, some, [], ◌∷◌, ◌==◌, find, codes}
use supersurf_billing_phase.Exec.{ok}
use supersurf_billing_phase.Schema.Choices.{EntryType, Direction, Source}
use supersurf_billing_phase.Schema.Rows.{LedgerEntry}
use supersurf_billing_phase.Schema.Database.{Db}
use supersurf_billing_phase.Calls.{run}
use supersurf_billing_phase.Calls.Reach.{empty}
use supersurf_billing_phase.Service.Inputs.{RawId}
use supersurf_billing_phase.Service.Effects.{IsPosted}
use supersurf_billing_phase.Wallets.Effects.{InWalletOf, post_manual_wallet_adjustment_ok}
use supersurf_billing_phase.Wallets.Reversals.{IsReversed, reverse_ledger_entry_ok}
use supersurf_billing_phase.Examples.Data.{ascii, operator, registry, credit, amount}
use supersurf_billing_phase.Exec.{atomic, ◌>>=◌}
use supersurf_billing_phase.Common.{text_eq, strip, all_codes}
use supersurf_billing_phase.Validation.{complaints, first_complaint, collect}
use supersurf_billing_phase.Money.{normalize_ledger_amount}
use supersurf_billing_phase.Ledger.Clean as LedgerClean
use supersurf_billing_phase.Ledger.Save.{latest_entry, resulting_balance, save_ledger_entry}
use supersurf_billing_phase.Service.Access.{require_permission}
use supersurf_billing_phase.Service.Inputs.{
  normalize_operation_id, normalize_previous_period_id, normalize_direction, validate_reason,
  validate_ledger_reason, validate_aware,
}
use supersurf_billing_phase.Service.Lookup.{
  fresh, lock_subscriber, lock_service, wallet_checks, get_or_create_wallet, save_wallet,
  wallet_subscriber, lock_wallet, lock_existing_wallet, record_event,
}
use supersurf_billing_phase.Wallets.Adjust.{existing_adjustment, post_manual_wallet_adjustment}
use supersurf_billing_phase.Wallets.Reverse.{existing_reversal, reverse_ledger_entry}

abbrev opened : Db
opened = run ascii (registry ∷ []) empty

abbrev one_credit : Db
one_credit = run ascii (registry ∷ credit ∷ []) empty

-- The entry that the credit of 2000 shillings writes.
abbrev credited : LedgerEntry
credited = record {
  id = 1;
  wallet_id = 0;
  sequence_number = 1;
  operation_id = 101;
  entry_type = EntryType.manual_credit;
  direction = Direction.credit;
  amount_minor = 200000;
  balance_after_minor = 200000;
  currency = codes "KES";
  previous_entry_id = none;
  reverses_entry_id = none;
  reason = codes "Opening";
  creation_source = Source.operator;
  created_by_id = some 7;
}

-- The entry that takes it back.
abbrev reversing : LedgerEntry
reversing = record credited {
  id = 2;
  sequence_number = 2;
  operation_id = 102;
  entry_type = EntryType.reversal;
  direction = Direction.debit;
  balance_after_minor = 0;
  previous_entry_id = some 1;
  reverses_entry_id = some 1;
  reason = codes "Wrong";
}

post_manual_wallet_adjustment_ok_example :
    (d : Direction) × (n : ℕ) × (k : ℕ) × (normalize_direction (codes "credit") ≡ ok d)
    × (normalize_ledger_amount amount ≡ ok n)
    × (normalize_operation_id (RawId.uuid 101) ≡ ok k)
    × (((opened ≡ one_credit)
          × (find (λ e. e.operation_id == k) opened.entries ≡ some credited)
          × (credited.direction ≡ d)
          × (credited.amount_minor ≡ n)
          × (wallet_subscriber credited.wallet_id opened ≡ some 1))
        ⊎ ((find (λ e. e.operation_id == k) opened.entries ≡ none)
            × IsPosted d n k opened.entries one_credit.entries credited
            × InWalletOf 1 one_credit.wallets credited))
unfolding atomic ◌>>=◌ text_eq strip all_codes complaints first_complaint collect
    normalize_ledger_amount LedgerClean.full_clean latest_entry resulting_balance save_ledger_entry
    require_permission normalize_operation_id normalize_previous_period_id normalize_direction
    validate_reason validate_ledger_reason validate_aware fresh lock_subscriber lock_service
    wallet_checks get_or_create_wallet save_wallet lock_wallet lock_existing_wallet record_event
    existing_adjustment post_manual_wallet_adjustment existing_reversal reverse_ledger_entry
post_manual_wallet_adjustment_ok_example =
    post_manual_wallet_adjustment_ok 1 (codes "credit") amount (RawId.uuid 101) (codes "Opening")
      operator opened one_credit credited refl

abbrev reversed_credit : Db
reversed_credit = (reverse_ledger_entry 1 (RawId.uuid 102) (codes "Wrong") operator one_credit).1

reverse_ledger_entry_ok_example :
    (k : ℕ) × (normalize_operation_id (RawId.uuid 102) ≡ ok k)
    × (((one_credit ≡ reversed_credit)
          × (find (λ e. e.operation_id == k) one_credit.entries ≡ some reversing)
          × (reversing.reverses_entry_id ≡ some 1))
        ⊎ IsReversed 1 k one_credit.entries reversed_credit.entries reversing)
unfolding atomic ◌>>=◌ text_eq strip all_codes complaints first_complaint collect
    normalize_ledger_amount LedgerClean.full_clean latest_entry resulting_balance save_ledger_entry
    require_permission normalize_operation_id normalize_previous_period_id normalize_direction
    validate_reason validate_ledger_reason validate_aware fresh lock_subscriber lock_service
    wallet_checks get_or_create_wallet save_wallet lock_wallet lock_existing_wallet record_event
    existing_adjustment post_manual_wallet_adjustment existing_reversal reverse_ledger_entry
reverse_ledger_entry_ok_example =
    reverse_ledger_entry_ok 1 (RawId.uuid 102) (codes "Wrong") operator one_credit reversed_credit
      reversing refl
