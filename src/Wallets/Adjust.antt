-- ===== src/Wallets/Adjust.antt =====
-- `post_manual_wallet_adjustment` of billing/services.py.
use supersurf_billing_phase.Common.{
  ℕ, Bool, ◌&&◌, Option, none, some, ◌==◌, opt_eq, if◌then◌else◌, find, Text, text_eq,
}
use supersurf_billing_phase.Exec.{
  Result, ok, err, pure, lift, gets, ask, reuse, atomic, ◌>>=◌, ◌>>◌,
}
use supersurf_billing_phase.Errors.{Error}
use supersurf_billing_phase.Schema.Choices.{Direction, Source, entry_type_eq, direction_eq}
use supersurf_billing_phase.Schema.Rows.{LedgerEntry, Wallet, AuditAction}
use supersurf_billing_phase.Schema.Database.{Db, Action}
use supersurf_billing_phase.Money.{Decimal, kes, normalize_ledger_amount}
use supersurf_billing_phase.Ledger.Save.{
  latest_entry, current_balance, next_sequence, resulting_balance, manual_entry_type,
  save_ledger_entry,
}
use supersurf_billing_phase.Ledger.Chain.{id_of}
use supersurf_billing_phase.Service.Access.{Actor, require_permission, ledger_permissions}
use supersurf_billing_phase.Service.Inputs.{
  RawId, normalize_operation_id, normalize_direction, validate_ledger_reason,
}
use supersurf_billing_phase.Service.Lookup.{
  fresh, lock_subscriber, get_or_create_wallet, wallet_subscriber, record_event,
}

-- The normalised arguments.
pub record Adjustment : Type 0 where
  pub subscriber : ℕ
  pub direction : Direction
  pub amount : ℕ
  pub operation : ℕ
  pub reason : Text
  pub actor : ℕ

-- `entry` is what this adjustment would have written.
abbrev pub same_adjustment : Db → Adjustment → LedgerEntry → Bool
same_adjustment db a e =
    opt_eq (wallet_subscriber e.wallet_id db) (some a.subscriber)
    && entry_type_eq e.entry_type (manual_entry_type a.direction)
    && direction_eq e.direction a.direction
    && e.amount_minor == a.amount
    && text_eq e.reason a.reason

-- `_existing_adjustment_operation_result`
unfoldable pub existing_adjustment : Adjustment → Db → Result Error (Option LedgerEntry)
existing_adjustment a db = elim (find (λ e. e.operation_id == a.operation) db.entries) [
  | none ↦ ok none
  | some e ↦ if same_adjustment db a e then ok (some e) else err Error.operation_used_for_entry
]

abbrev pub adjustment_entry : Adjustment → Wallet → Option LedgerEntry → ℕ → ℕ → LedgerEntry
adjustment_entry a wallet latest balance k = record {
  id = k;
  wallet_id = wallet.id;
  sequence_number = next_sequence latest;
  operation_id = a.operation;
  entry_type = manual_entry_type a.direction;
  direction = a.direction;
  amount_minor = a.amount;
  balance_after_minor = balance;
  currency = kes;
  previous_entry_id = id_of latest;
  reverses_entry_id = none;
  reason = a.reason;
  creation_source = Source.operator;
  created_by_id = some a.actor;
}

abbrev pub adjustment_action : Direction → AuditAction
adjustment_action Direction.credit = AuditAction.wallet_manual_credit
adjustment_action Direction.debit = AuditAction.wallet_manual_debit

-- From the checked wallet on: the balance, the entry and its audit event.
unfoldable pub post_entry : Adjustment → Wallet → Option LedgerEntry → Action LedgerEntry
post_entry a wallet latest = do
  balance ← lift (resulting_balance (current_balance latest) a.direction a.amount)
  k ← fresh
  entry ← save_ledger_entry (adjustment_entry a wallet latest balance k)
  record_event (some a.actor) (adjustment_action a.direction) entry.id a.reason
  pure entry

-- The locked part.
unfoldable pub post_locked : Adjustment → Action LedgerEntry
unfolding post_entry
post_locked a = do
  locked ← lock_subscriber a.subscriber
  wallet ← get_or_create_wallet locked.id
  latest ← gets (λ db. latest_entry wallet.id db.entries)
  existing ← ask (existing_adjustment a)
  reuse existing (post_entry a wallet latest)

unfoldable pub post_adjustment : Adjustment → Action LedgerEntry
unfolding post_locked
post_adjustment a = do existing ← ask (existing_adjustment a); reuse existing (post_locked a)

-- `post_manual_wallet_adjustment`
unfoldable pub post_manual_wallet_adjustment :
    ℕ → Text → Decimal → RawId → Text → Option Actor → Action LedgerEntry
unfolding post_adjustment
post_manual_wallet_adjustment subscriber direction amount operation_id reason actor = atomic do
  operator ← lift (require_permission actor ledger_permissions)
  direction ← lift (normalize_direction direction)
  amount_minor ← lift (normalize_ledger_amount amount)
  reason ← lift (validate_ledger_reason reason)
  operation ← lift (normalize_operation_id operation_id)
  post_adjustment (record {
    subscriber = subscriber;
    direction = direction;
    amount = amount_minor;
    operation = operation;
    reason = reason;
    actor = operator.id;
  })
