-- ===== src/Wallets/Reverse.antt =====
-- `reverse_ledger_entry` of billing/services.py.
use supersurf_billing_phase.Common.{
  ℕ, Bool, not, ◌&&◌, Option, none, some, ◌==◌, opt_eq, if◌then◌else◌, find, exists, Text, text_eq,
}
use supersurf_billing_phase.Exec.{
  Result, ok, err, pure, lift, gets, ask, require, reuse, refuse, atomic, ◌>>=◌, ◌>>◌,
}
use supersurf_billing_phase.Errors.{Error}
use supersurf_billing_phase.Schema.Choices.{
  EntryType, Source, entry_type_eq, direction_eq, is_manual,
}
use supersurf_billing_phase.Schema.Rows.{LedgerEntry, Wallet, AuditAction}
use supersurf_billing_phase.Schema.Database.{Db, Action}
use supersurf_billing_phase.Money.{kes}
use supersurf_billing_phase.Ledger.Clean.{has_id, opposite_direction}
use supersurf_billing_phase.Ledger.Save.{
  latest_entry, current_balance, next_sequence, resulting_balance, save_ledger_entry,
}
use supersurf_billing_phase.Ledger.Chain.{id_of}
use supersurf_billing_phase.Service.Access.{Actor, require_permission, ledger_permissions}
use supersurf_billing_phase.Service.Inputs.{RawId, normalize_operation_id, validate_ledger_reason}
use supersurf_billing_phase.Service.Lookup.{fresh, lock_subscriber, lock_wallet, record_event}

-- The normalised arguments.
pub record Reversal : Type 0 where
  pub entry : ℕ
  pub operation : ℕ
  pub reason : Text
  pub actor : ℕ

abbrev pub same_reversal : Reversal → LedgerEntry → LedgerEntry → Bool
same_reversal r target e =
    entry_type_eq e.entry_type EntryType.reversal
    && opt_eq e.reverses_entry_id (some target.id)
    && e.amount_minor == target.amount_minor
    && direction_eq e.direction (opposite_direction target.direction)
    && text_eq e.reason r.reason

-- `_existing_reversal_operation_result`
unfoldable pub existing_reversal : Reversal → LedgerEntry → Db → Result Error (Option LedgerEntry)
existing_reversal r target db = elim (find (λ e. e.operation_id == r.operation) db.entries) [
  | none ↦ ok none
  | some e ↦ if same_reversal r target e then ok (some e) else err Error.operation_used_for_entry
]

abbrev pub reversal_entry :
    Reversal → LedgerEntry → Wallet → Option LedgerEntry → ℕ → ℕ → LedgerEntry
reversal_entry r target wallet latest balance k = record {
  id = k;
  wallet_id = wallet.id;
  sequence_number = next_sequence latest;
  operation_id = r.operation;
  entry_type = EntryType.reversal;
  direction = opposite_direction target.direction;
  amount_minor = target.amount_minor;
  balance_after_minor = balance;
  currency = kes;
  previous_entry_id = id_of latest;
  reverses_entry_id = some target.id;
  reason = r.reason;
  creation_source = Source.operator;
  created_by_id = some r.actor;
}

unfoldable pub post_reversal :
    Reversal → LedgerEntry → Wallet → Option LedgerEntry → Action LedgerEntry
post_reversal r target wallet latest = do
  balance ← lift (
      resulting_balance (current_balance latest) (opposite_direction target.direction)
        target.amount_minor)
  k ← fresh
  entry ← save_ledger_entry (reversal_entry r target wallet latest balance k)
  record_event (some r.actor) AuditAction.wallet_entry_reversed entry.id r.reason
  pure entry

-- `LedgerEntry.objects.filter(reverses_entry=target).exists()`
abbrev pub is_reversed : LedgerEntry → Db → Bool
is_reversed target db = exists (λ e. opt_eq e.reverses_entry_id (some target.id)) db.entries

-- The tests of the locked target.
unfoldable pub check_target :
    Reversal → LedgerEntry → Wallet → Option LedgerEntry → Action LedgerEntry
unfolding post_reversal
check_target r target wallet latest = do
  existing ← ask (existing_reversal r target)
  reuse existing (
      refuse (entry_type_eq target.entry_type EntryType.reversal) Error.reversal_of_reversal (
        refuse (not (is_manual target.entry_type)) Error.not_manual do
          reversed ← gets (is_reversed target)
          refuse reversed Error.already_reversed (post_reversal r target wallet latest)))

unfoldable pub reverse_locked : Reversal → LedgerEntry → Action LedgerEntry
unfolding check_target
reverse_locked r lookup = do
  found ← lock_wallet lookup.wallet_id
  lock_subscriber found.subscriber_id
  wallet ← lock_wallet lookup.wallet_id
  latest ← gets (λ db. latest_entry wallet.id db.entries)
  target ← require (λ db. find (has_id r.entry) db.entries) Error.does_not_exist
  refuse (not (target.wallet_id == wallet.id)) Error.entry_other_wallet
      (check_target r target wallet latest)

unfoldable pub reverse_entry : Reversal → Action LedgerEntry
unfolding reverse_locked
reverse_entry r = do
  lookup ← require (λ db. find (has_id r.entry) db.entries) Error.does_not_exist
  existing ← ask (existing_reversal r lookup)
  reuse existing (reverse_locked r lookup)

-- `reverse_ledger_entry`
unfoldable pub reverse_ledger_entry : ℕ → RawId → Text → Option Actor → Action LedgerEntry
unfolding reverse_entry
reverse_ledger_entry entry operation_id reason actor = atomic do
  operator ← lift (require_permission actor ledger_permissions)
  reason ← lift (validate_ledger_reason reason)
  operation ← lift (normalize_operation_id operation_id)
  reverse_entry
      (record { entry = entry; operation = operation; reason = reason; actor = operator.id })
