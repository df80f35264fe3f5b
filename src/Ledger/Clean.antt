-- ===== src/Ledger/Clean.antt =====
-- `LedgerEntry.full_clean`: the columns, `clean` with `_clean_reversal_target`, the unique columns
-- and the constraints.
use supersurf_billing_phase.Common.{
  ℕ, ◌+◌, ◌-◌, Bool, false, not, ◌&&◌, ◌||◌, Option, none, some, List, [], ◌∷◌, ◌++◌, ltb, ◌==◌,
  opt_eq, is_some, find, exists, length, text_eq, is_blank, strip,
}
use supersurf_billing_phase.Errors.{Issue}
use supersurf_billing_phase.Schema.Choices.{
  EntryType, Direction, Source, entry_type_eq, direction_eq, source_eq, is_manual,
}
use supersurf_billing_phase.Schema.Rows.{LedgerEntry}
use supersurf_billing_phase.Schema.Database.{Db}
use supersurf_billing_phase.Money.{max_money_minor, kes}
use supersurf_billing_phase.Validation.{Checks, collect}

abbrev pub has_id : ℕ → LedgerEntry → Bool
has_id k e = e.id == k

-- The row that a foreign key names.
abbrev pub entry_at : Option ℕ → List LedgerEntry → Option LedgerEntry
entry_at none entries = none
entry_at (some k) entries = find (has_id k) entries

abbrev pub opposite_direction : Direction → Direction
opposite_direction Direction.credit = Direction.debit
opposite_direction Direction.debit = Direction.credit

-- `previous_entry.balance_after_minor`, or 0 where there is none.
abbrev pub balance_of : Option LedgerEntry → ℕ
balance_of none = 0
balance_of (some p) = p.balance_after_minor

-- `expected_balance < 0`
abbrev pub goes_negative : Direction → ℕ → ℕ → Bool
goes_negative Direction.credit before amount = false
goes_negative Direction.debit before amount = ltb before amount

-- `expected_balance`, where it is not negative.
abbrev pub moved : Direction → ℕ → ℕ → ℕ
moved Direction.credit before amount = before + amount
moved Direction.debit before amount = before - amount

abbrev pub out_of_range : ℕ → ℕ → Bool
out_of_range least n = ltb n least || ltb max_money_minor n

module _ (db : Db) (e : LedgerEntry) where
  abbrev pub field_checks : Checks
  field_checks =
      (out_of_range 1 e.sequence_number, Issue.sequence_out_of_range)
      ∷ (out_of_range 1 e.amount_minor, Issue.amount_out_of_range)
      ∷ (out_of_range 0 e.balance_after_minor, Issue.balance_out_of_range)
      ∷ (is_blank e.reason, Issue.reason_blank)
      ∷ (ltb 240 (length e.reason), Issue.reason_too_long)
      ∷ (not (exists (λ w. w.id == e.wallet_id) db.wallets), Issue.row_missing)
      ∷ (
        is_some e.previous_entry_id && not (is_some (entry_at e.previous_entry_id db.entries)),
        Issue.row_missing,
      )
      ∷ (
        is_some e.reverses_entry_id && not (is_some (entry_at e.reverses_entry_id db.entries)),
        Issue.row_missing,
      )
      ∷ []

  abbrev pub wrong_wallet : Option LedgerEntry → Bool
  wrong_wallet none = false
  wrong_wallet (some p) = not (p.wallet_id == e.wallet_id)

  abbrev pub not_one_less : Option LedgerEntry → Bool
  not_one_less none = false
  not_one_less (some p) = not (p.sequence_number + 1 == e.sequence_number)

  abbrev pub before : ℕ
  before = balance_of (entry_at e.previous_entry_id db.entries)

  abbrev pub is_reversal : Bool
  is_reversal = entry_type_eq e.entry_type EntryType.reversal

  -- The tests of `_clean_reversal_target` on the target's row, which are made for reversals alone.
  abbrev pub of_target : (LedgerEntry → Bool) → Option LedgerEntry → Bool
  of_target test none = false
  of_target test (some t) = is_reversal && test t

  -- The types whose direction is fixed, and whether this entry has the other one.
  abbrev pub wrong_direction : EntryType → Direction → Bool
  wrong_direction entry_type direction =
      entry_type_eq e.entry_type entry_type && not (direction_eq e.direction direction)

  abbrev pub fixed_directions_violated : Bool
  fixed_directions_violated =
      wrong_direction EntryType.manual_credit Direction.credit
      || wrong_direction EntryType.manual_debit Direction.debit
      || wrong_direction EntryType.billing_charge Direction.debit
      || wrong_direction EntryType.payment_credit Direction.credit

  -- The tests of `clean` before the previous entry is looked up.
  abbrev pub own_checks : Checks
  own_checks =
      (is_blank (strip e.reason), Issue.reason_required)
      ∷ (
        source_eq e.creation_source Source.operator && not (is_some e.created_by_id),
        Issue.operator_required,
      )
      ∷ (
        source_eq e.creation_source Source.system && is_some e.created_by_id,
        Issue.operator_forbidden,
      )
      ∷ (
        source_eq e.creation_source Source.system
            && not (entry_type_eq e.entry_type EntryType.payment_credit),
        Issue.system_payment_only,
      )
      ∷ (not (text_eq e.currency kes), Issue.currency_not_kes)
      ∷ (e.sequence_number == 0, Issue.sequence_out_of_range)
      ∷ (e.sequence_number == 1 && is_some e.previous_entry_id, Issue.first_has_previous)
      ∷ (ltb 1 e.sequence_number && not (is_some e.previous_entry_id), Issue.previous_required)
      ∷ (e.amount_minor == 0, Issue.amount_not_positive)
      ∷ (ltb max_money_minor e.amount_minor, Issue.amount_too_large)
      ∷ (ltb max_money_minor e.balance_after_minor, Issue.balance_too_large)
      ∷ []

  -- The rest of `clean`, given the rows of `previous_entry` and `reverses_entry`.
  abbrev pub related_checks : Option LedgerEntry → Option LedgerEntry → Checks
  related_checks previous target =
      (wrong_wallet previous, Issue.previous_other_wallet)
      ∷ (not_one_less previous, Issue.previous_not_one_less)
      ∷ (fixed_directions_violated, Issue.direction_not_valid)
      ∷ (not is_reversal && is_some e.reverses_entry_id, Issue.cannot_reverse)
      ∷ (is_reversal && not (is_some e.reverses_entry_id), Issue.target_required)
      ∷ (of_target (λ t. not (t.wallet_id == e.wallet_id)) target, Issue.target_other_wallet)
      ∷ (
        of_target (λ t. entry_type_eq t.entry_type EntryType.reversal) target,
        Issue.target_is_reversal,
      )
      ∷ (of_target (λ t. not (is_manual t.entry_type)) target, Issue.target_not_manual)
      ∷ (
        of_target (λ t. exists (λ r. opt_eq r.reverses_entry_id (some t.id)) db.entries) target,
        Issue.already_reversed,
      )
      ∷ (
        of_target (λ t. not (e.amount_minor == t.amount_minor)) target,
        Issue.reversal_amount_differs,
      )
      ∷ (
        of_target (λ t. not (direction_eq e.direction (opposite_direction t.direction))) target,
        Issue.reversal_direction_same,
      )
      ∷ (goes_negative e.direction before e.amount_minor, Issue.balance_negative)
      ∷ (
        not (e.balance_after_minor == moved e.direction before e.amount_minor),
        Issue.balance_not_correct,
      )
      ∷ []

  -- The unique columns, the two unique constraints and the check constraints over several columns.
  abbrev pub constraint_checks : Checks
  constraint_checks =
      (exists (λ r. r.operation_id == e.operation_id) db.entries, Issue.operation_id_taken)
      ∷ (exists (λ r. r.id == e.id) db.entries, Issue.id_taken)
      ∷ (
        is_some e.reverses_entry_id
            && exists (λ r. opt_eq r.reverses_entry_id e.reverses_entry_id) db.entries,
        Issue.reverses_entry_taken,
      )
      ∷ (
        exists (λ r. r.wallet_id == e.wallet_id && r.sequence_number == e.sequence_number)
            db.entries,
        Issue.wallet_sequence_taken,
      )
      ∷ (
        is_some e.previous_entry_id
            && exists (λ r. opt_eq r.previous_entry_id e.previous_entry_id) db.entries,
        Issue.previous_has_successor,
      )
      ∷ (
        not (is_some e.created_by_id || source_eq e.creation_source Source.system),
        Issue.constraint_violated,
      )
      ∷ (fixed_directions_violated, Issue.constraint_violated)
      ∷ (is_some e.previous_entry_id && e.sequence_number == 1, Issue.constraint_violated)
      ∷ (not is_reversal && is_some e.reverses_entry_id, Issue.constraint_violated)
      ∷ []

  abbrev pub clean_checks : Checks
  clean_checks =
      own_checks
      ++ related_checks (entry_at e.previous_entry_id db.entries)
          (entry_at e.reverses_entry_id db.entries)

  unfoldable pub full_clean : List Issue
  full_clean = collect field_checks clean_checks constraint_checks
