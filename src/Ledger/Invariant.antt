-- ===== src/Ledger/Invariant.antt =====
-- The ledger invariant: every save keeps it, and what it says of a wallet's balance.
use supersurf_billing_phase.Common.{
  ℕ, ◌+◌, ◌≤◌, ◌≡◌, ◌⊎◌, inl, inr, Option, none, some, List, [], ◌∷◌, ◌==◌, if◌then◌else◌,
  Option-cases, arith,
}
use supersurf_billing_phase.Exec.{ok, err}
use supersurf_billing_phase.Exec.Keeps.{Keeps}
use supersurf_billing_phase.Errors.{Error}
use supersurf_billing_phase.Schema.Choices.{Direction}
use supersurf_billing_phase.Schema.Rows.{LedgerEntry}
use supersurf_billing_phase.Schema.Database.{Db}
use supersurf_billing_phase.Money.{max_money_minor}
use supersurf_billing_phase.Ledger.Clean.{full_clean}
use supersurf_billing_phase.Ledger.Save.{
  latest_entry, current_balance, insert_entry, cleaned_entry, save_valid_cases, save_ledger_entry,
}
use supersurf_billing_phase.Ledger.Chain.{IsChain, Follows, latest-cons}
use supersurf_billing_phase.Ledger.Accepted.{IsSettled, accepted-Follows, accepted-IsSettled}

-- Every entry was settled when it was written.
abbrev pub AllSettled : List LedgerEntry → Type 0
AllSettled [] = Unit
AllSettled (e ∷ entries) = IsSettled entries e × AllSettled entries

-- Every wallet's entries form a chain, and every reversal reverses a manual entry once.
abbrev pub IsLedger : Db → Type 0
IsLedger db = IsChain db.entries × AllSettled db.entries

-- A save raises and writes nothing, or it writes the accepted row.
pub save_cases :
    (e : LedgerEntry) (db : Db)
    → ((error : Error) × (save_ledger_entry e db ≡ (err error, db)))
      ⊎ ((full_clean db e ≡ [])
          × (save_ledger_entry e db ≡ (ok (cleaned_entry e), insert_entry (cleaned_entry e) db)))
unfolding save_ledger_entry
save_cases e db =
    save_valid_cases Error.operation_used_for_entry (full_clean db e)
      (insert_entry (cleaned_entry e)) (cleaned_entry e) db

cleaned-Follows :
    (e : LedgerEntry) (p : Option LedgerEntry) → Follows p e → Follows p (cleaned_entry e)
cleaned-Follows e none f = ground (arith, f)
cleaned-Follows e (some p) f = ground (arith, f)

cleaned-IsSettled :
    (e : LedgerEntry) (entries : List LedgerEntry)
    → IsSettled entries e
    → IsSettled entries (cleaned_entry e)
cleaned-IsSettled e entries (inl s) = inl s
cleaned-IsSettled e entries (inr (is, r)) = inr (
  is,
  record {
    target = r.target;
    found = r.found;
    same_wallet = r.same_wallet;
    manual = r.manual;
    same_amount = r.same_amount;
    opposite = r.opposite;
    first = r.first;
  },
)

pub insert-IsLedger :
    (e : LedgerEntry) (db : Db)
    → full_clean db e ≡ []
    → IsLedger db
    → IsLedger (insert_entry (cleaned_entry e) db)
insert-IsLedger e db accepted h = (
  (
    cleaned-Follows e (latest_entry e.wallet_id db.entries) (accepted-Follows db e accepted h.0),
    h.0,
  ),
  (cleaned-IsSettled e db.entries (accepted-IsSettled db e accepted), h.1),
)

-- Whatever row is handed to `save`, and whether it is accepted or not: if the entries of every
-- wallet are numbered from 1 without a gap, each linked to the one before it with the balance that
-- its amount leads to, and if every reversal reverses a manual entry of its wallet and amount that
-- none before it reversed, then all this still holds after the save.
pub save_ledger_entry-IsLedger : (e : LedgerEntry) → Keeps IsLedger (save_ledger_entry e)
save_ledger_entry-IsLedger e = record {
  at = λ db h. elim (save_cases e db) [
    | inl (error, raised) ↦ rw raised h
    | inr (accepted, saved) ↦ rw saved (insert-IsLedger e db accepted h)
  ];
}

-- The amounts of a wallet's entries in one direction.
abbrev in_direction : Direction → LedgerEntry → ℕ
in_direction Direction.credit e = elim e.direction [
  | Direction.credit ↦ e.amount_minor
  | Direction.debit ↦ 0
]
in_direction Direction.debit e = elim e.direction [
  | Direction.debit ↦ e.amount_minor
  | Direction.credit ↦ 0
]

unfoldable pub total : Direction → ℕ → List LedgerEntry → ℕ
total direction w [] = 0
total direction w (e ∷ entries) =
    if e.wallet_id == w
    then in_direction direction e + total direction w entries
    else total direction w entries

-- In a chain, a wallet's balance is all that was credited to it less all that was debited.
pub balance-eq-total :
    (w : ℕ) (entries : List LedgerEntry)
    → IsChain entries
    → current_balance (latest_entry w entries) + total Direction.debit w entries
      ≡ total Direction.credit w entries
unfolding total
balance-eq-total w [] h = unfold latest_entry in omega arith
balance-eq-total w (e ∷ entries) h = elim (Option-cases (latest_entry w entries)) [
  | inl first ↦ ground (arith, latest-cons w e entries h, h.0, balance-eq-total w entries h.1)
  | inr (m, latest) ↦
      ground (arith, latest, latest-cons w e entries h, h.0, balance-eq-total w entries h.1)
]

-- In a chain, no balance passes the maximum.
pub balance-le-max :
    (w : ℕ) (entries : List LedgerEntry)
    → IsChain entries
    → current_balance (latest_entry w entries) ≤ max_money_minor
balance-le-max w [] h = unfold latest_entry in omega arith
balance-le-max w (e ∷ entries) h =
    ground (arith, latest-cons w e entries h, h.0, balance-le-max w entries h.1)
