-- ===== src/Ledger/Save.antt =====
-- `LedgerEntry.save` of a new row and `_save_ledger_entry`, and the ledger queries and arithmetic of
-- billing/services.py.
use supersurf_billing_phase.Common.{
  ◌≡◌, refl, ◌⊎◌, inl, inr, ℕ, ◌+◌, ◌-◌, Bool, true, false, Option, none, some, List, [], ◌∷◌, ltb,
  ◌==◌, if◌then◌else◌, strip,
}
use supersurf_billing_phase.Exec.{Result, ok, err}
use supersurf_billing_phase.Errors.{Issue, Error}
use supersurf_billing_phase.Schema.Choices.{EntryType, Direction}
use supersurf_billing_phase.Schema.Rows.{LedgerEntry}
use supersurf_billing_phase.Schema.Database.{Db, Action}
use supersurf_billing_phase.Money.{max_money_minor}
use supersurf_billing_phase.Ledger.Clean.{full_clean}

-- The later of an entry and the latest of the rest, by `order_by("-sequence_number")`.
abbrev pub later : LedgerEntry → Option LedgerEntry → LedgerEntry
later e none = e
later e (some m) = if ltb e.sequence_number m.sequence_number then m else e

-- `_lock_latest_ledger_entry`
unfoldable pub latest_entry : ℕ → List LedgerEntry → Option LedgerEntry
latest_entry w [] = none
latest_entry w (e ∷ entries) =
    if e.wallet_id == w then some (later e (latest_entry w entries)) else latest_entry w entries

-- `_ledger_current_balance`, `Wallet.balance_minor`
abbrev pub current_balance : Option LedgerEntry → ℕ
current_balance none = 0
current_balance (some e) = e.balance_after_minor

-- `_ledger_next_sequence`
abbrev pub next_sequence : Option LedgerEntry → ℕ
next_sequence none = 1
next_sequence (some e) = e.sequence_number + 1

abbrev pub below_max : ℕ → Result Error ℕ
below_max result = if ltb max_money_minor result then err Error.balance_too_large else ok result

-- `_ledger_resulting_balance`
unfoldable pub resulting_balance : ℕ → Direction → ℕ → Result Error ℕ
resulting_balance balance Direction.credit amount = below_max (balance + amount)
resulting_balance balance Direction.debit amount =
    if ltb balance amount then err Error.balance_negative else below_max (balance - amount)

-- `_manual_entry_type`
abbrev pub manual_entry_type : Direction → EntryType
manual_entry_type Direction.credit = EntryType.manual_credit
manual_entry_type Direction.debit = EntryType.manual_debit

-- `"operation_id" in error_dict`
abbrev pub mentions_operation_id : List Issue → Bool
mentions_operation_id [] = false
mentions_operation_id (Issue.operation_id_taken ∷ issues) = true
mentions_operation_id (Issue.ledger_operation_differs ∷ issues) = true
mentions_operation_id (Issue.period_operation_differs ∷ issues) = true
mentions_operation_id (_ ∷ issues) = mentions_operation_id issues

-- The `ValidationError` of a row, with the message for a used operation ID where the service has one.
abbrev pub row_error : Error → Issue → List Issue → Error
row_error used first issues =
    if mentions_operation_id (first ∷ issues) then used else Error.invalid_row first

-- Saves a row that has no complaints, or raises.
unfoldable pub save_valid : {A : Type 0} → Error → List Issue → (Db → Db) → A → Action A
save_valid used [] insert row db = (ok row, insert db)
save_valid used (issue ∷ issues) insert row db = (err (row_error used issue issues), db)

-- A save raises and writes nothing, or there are no complaints and it writes the row.
pub save_valid_cases :
    {A : Type 0} (used : Error) (issues : List Issue) (insert : Db → Db) (row : A) (db : Db)
    → ((error : Error) × (save_valid used issues insert row db ≡ (err error, db)))
      ⊎ ((issues ≡ []) × (save_valid used issues insert row db ≡ (ok row, insert db)))
unfolding save_valid
save_valid_cases used [] insert row db = inr (refl, refl)
save_valid_cases used (issue ∷ issues) insert row db = inl (row_error used issue issues, refl)

-- What a save that returned has written.
pub save_valid_ok :
    {A : Type 0} (used : Error) (issues : List Issue) (insert : Db → Db) (row r : A) (db db' : Db)
    → save_valid used issues insert row db ≡ (ok r, db')
    → (row ≡ r) × (insert db ≡ db')
unfolding save_valid
save_valid_ok used [] insert row r db db' h = (cc, cc)
save_valid_ok used (issue ∷ issues) insert row r db db' h = cc

abbrev pub insert_entry : LedgerEntry → Db → Db
insert_entry e db = record db { entries = e ∷ db.entries }

-- `clean` strips the reason before the row is written.
abbrev pub cleaned_entry : LedgerEntry → LedgerEntry
cleaned_entry e = record e { reason = strip e.reason }

-- `_save_ledger_entry` with `LedgerEntry.save`
unfoldable pub save_ledger_entry : LedgerEntry → Action LedgerEntry
unfolding save_valid
save_ledger_entry e db =
    save_valid Error.operation_used_for_entry (full_clean db e) (insert_entry (cleaned_entry e))
      (cleaned_entry e) db
