-- ===== src/Payments/Save.antt =====
-- The saving of payments, allocations and cases, and the wallet credit of a payment
-- (billing/services.py).
use supersurf_billing_phase.Common.{
  ℕ, Bool, true, false, ◌&&◌, Option, none, some, List, [], ◌∷◌, ◌==◌, if◌then◌else◌, find, exists,
  update, Text, codes,
}
use supersurf_billing_phase.Exec.{Result, ok, err, lift, gets, ◌>>=◌}
use supersurf_billing_phase.Errors.{Issue, Error}
use supersurf_billing_phase.Schema.Choices.{EntryType, Direction, Source, is_resolved}
use supersurf_billing_phase.Schema.Rows.{
  LedgerEntry, Payment, PaymentAllocation, UnmatchedPaymentCase, Wallet,
}
use supersurf_billing_phase.Schema.Database.{Db, Action}
use supersurf_billing_phase.Money.{kes}
use supersurf_billing_phase.Ledger.Save.{
  latest_entry, current_balance, next_sequence, resulting_balance, save_valid, save_ledger_entry,
}
use supersurf_billing_phase.Ledger.Chain.{id_of}
use supersurf_billing_phase.Common.{Unicode}
use supersurf_billing_phase.Payments.Clean.{
  cleaned_payment, same_transaction, payment_full_clean, allocation_full_clean, case_full_clean,
}
use supersurf_billing_phase.Service.Lookup.{fresh, get_or_create_wallet}

-- `_find_locked_payment`
abbrev pub find_payment : ℕ → Text → Db → Option Payment
find_payment profile transaction db = find (same_transaction profile transaction) db.payments

abbrev pub insert_payment : Payment → Db → Db
insert_payment p db = record db { payments = p ∷ db.payments }

-- The `except ValidationError` of `_create_payment_or_get_existing`.
abbrev pub or_existing : Payment → Issue → List Issue → Db → Result Error (Payment × Bool)
or_existing p issue issues db =
    elim (find_payment p.provider_profile_id p.provider_transaction_id db) [
      | some existing ↦ ok (existing, false)
      | none ↦ err (Error.invalid_row issue)
    ]

abbrev pub create_payment_with : Payment → List Issue → Action (Payment × Bool)
create_payment_with p [] db = (ok (p, true), insert_payment p db)
create_payment_with p (issue ∷ issues) db = (or_existing p issue issues db, db)

-- `_create_payment_or_get_existing` with `Payment.save`: the payment, and whether it is new.
unfoldable pub create_payment : Unicode → Payment → Action (Payment × Bool)
create_payment u p db = create_payment_with (cleaned_payment u p) (payment_full_clean u db p) db

abbrev pub insert_allocation : PaymentAllocation → Db → Db
insert_allocation a db = record db { allocations = a ∷ db.allocations }

-- `_save_payment_allocation`
unfoldable pub save_allocation : PaymentAllocation → Action PaymentAllocation
unfolding save_valid
save_allocation a db =
    save_valid Error.operation_used_for_allocation (allocation_full_clean db a)
      (insert_allocation a) a db

abbrev pub insert_case : UnmatchedPaymentCase → Db → Db
insert_case c db = record db { cases = c ∷ db.cases }

-- `_save_unmatched_case` of a new case
unfoldable pub save_case : UnmatchedPaymentCase → Action UnmatchedPaymentCase
unfolding save_valid
save_case c db =
    save_valid (Error.invalid_row Issue.payment_has_case) (case_full_clean true db c)
      (insert_case c) c db

abbrev pub replace_case : UnmatchedPaymentCase → Db → Db
replace_case c db = record db { cases = update (λ r. r.id == c.id) (λ _. c) db.cases }

-- `UnmatchedPaymentCase.save` of an open case that the resolution service has changed:
-- `_reject_unapproved_resolution` refuses a case that is resolved in the table.
unfoldable pub save_resolution : UnmatchedPaymentCase → Action UnmatchedPaymentCase
unfolding save_valid
save_resolution c db =
    if exists (λ r. r.id == c.id && is_resolved r.status) db.cases
    then (err Error.immutable_row, db)
    else save_valid (Error.invalid_row Issue.payment_has_case) (case_full_clean false db c)
        (replace_case c) c db

abbrev pub credit_entry :
    Payment → Wallet → Option LedgerEntry → ℕ → Option ℕ → Source → ℕ → ℕ → LedgerEntry
credit_entry p wallet latest operation actor source balance k = record {
  id = k;
  wallet_id = wallet.id;
  sequence_number = next_sequence latest;
  operation_id = operation;
  entry_type = EntryType.payment_credit;
  direction = Direction.credit;
  amount_minor = p.amount_minor;
  balance_after_minor = balance;
  currency = kes;
  previous_entry_id = id_of latest;
  reverses_entry_id = none;
  reason = codes "Payment credit";
  creation_source = source;
  created_by_id = actor;
}

abbrev pub allocation_row :
    Payment → Wallet → LedgerEntry → ℕ → Option ℕ → Source → ℕ → PaymentAllocation
allocation_row p wallet entry operation actor source k = record {
  id = k;
  payment_id = p.id;
  wallet_id = wallet.id;
  ledger_entry_id = entry.id;
  operation_id = operation;
  amount_minor = p.amount_minor;
  currency = kes;
  creation_source = source;
  created_by_id = actor;
}

-- `_create_payment_wallet_credit`
unfoldable pub credit_wallet : Payment → ℕ → ℕ → Option ℕ → Source → Action PaymentAllocation
credit_wallet p subscriber operation actor source = do
  wallet ← get_or_create_wallet subscriber
  latest ← gets (λ db. latest_entry wallet.id db.entries)
  balance ← lift (resulting_balance (current_balance latest) Direction.credit p.amount_minor)
  k ← fresh
  entry ← save_ledger_entry (credit_entry p wallet latest operation actor source balance k)
  j ← fresh
  save_allocation (allocation_row p wallet entry operation actor source j)

-- `_operation_id_used_elsewhere` and `_reject_operation_id_conflicts`
unfoldable pub reject_conflicts : ℕ → Db → Result Error Unit
reject_conflicts k db =
    if exists (λ e. e.operation_id == k) db.entries
    then err Error.operation_used_for_entry
    else if exists (λ a. a.operation_id == k) db.allocations
    then err Error.operation_used_for_allocation
    else if exists (λ p. p.operation_id == k) db.periods
    then err Error.operation_used_for_period
    else if exists (λ c. c.operation_id == k) db.charges
    then err Error.operation_used_for_charge
    else ok tt
