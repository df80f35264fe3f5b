-- ===== src/Guards/Unchanged.antt =====
-- A stored row that passes its guard has not been changed.
use supersurf_billing_phase.Common.{
  ℕ, Bool, true, false, Option, none, some, List, [], ◌∷◌, ◌==◌, opt_eq, if◌then◌else◌, find,
  find_sound, Text, text_eq-eq, ◌≡◌, refl, ap, inl, inr, Bool-cases, arith,
}
use supersurf_billing_phase.Exec.{ok, err}
use supersurf_billing_phase.Errors.{Error}
use supersurf_billing_phase.Schema.Choices.{
  EntryType, Direction, Source, entry_type_eq, direction_eq, source_eq,
}
use supersurf_billing_phase.Schema.Rows.{LedgerEntry, Payment}
use supersurf_billing_phase.Schema.Database.{Db}
use supersurf_billing_phase.Guards.Reject.{
  Column, all_same, reject_changes, entry_columns, entry_names, payment_columns, payment_names,
  reject_entry_changes, reject_payment_changes,
}

nat_eq-eq : (a b : ℕ) → (a == b) ≡ true → a ≡ b
nat_eq-eq a b h = ground (arith, h)

opt_eq-eq : (a b : Option ℕ) → opt_eq a b ≡ true → a ≡ b
opt_eq-eq none none h = refl
opt_eq-eq none (some b) h = cc
opt_eq-eq (some a) none h = cc
opt_eq-eq (some a) (some b) h = ap some (nat_eq-eq a b h)

guarded :
    (a b : Bool)
    → (if a then err Error.immutable_row else if b then ok tt else err Error.immutable_row) ≡ ok tt
    → b ≡ true
guarded true b h = cc
guarded false true h = refl
guarded false false h = cc

entry_type_eq-eq : (a b : EntryType) → entry_type_eq a b ≡ true → a ≡ b
entry_type_eq-eq a b h = ground (arith, h)

direction_eq-eq : (a b : Direction) → direction_eq a b ≡ true → a ≡ b
direction_eq-eq a b h = ground (arith, h)

source_eq-eq : (a b : Source) → source_eq a b ≡ true → a ≡ b
source_eq-eq a b h = ground (arith, h)

module _ {A : Type 0} where
  -- Two rows agree in every column.
  abbrev AllSame : List (Column A) → A → A → Type 0
  AllSame [] a b = Unit
  AllSame (c ∷ columns) a b = (c.unchanged a b ≡ true) × AllSame columns a b

  all_same-AllSame :
      (columns : List (Column A)) (a b : A) → all_same columns a b ≡ true → AllSame columns a b
  all_same-AllSame [] a b h = tt
  all_same-AllSame (c ∷ columns) a b h = elim (Bool-cases (c.unchanged a b)) [
    | inl same ↦ (same, all_same-AllSame columns a b (ground (arith, same, h)))
    | inr differs ↦ absurd (ground (arith, differs, h))
  ]

  reject_changes-AllSame :
      (columns : List (Column A)) (more : List Text) (fields : Option (List Text)) (current row : A)
      → reject_changes columns more fields (some current) row ≡ ok tt
      → AllSame columns current row
  unfolding reject_changes
  reject_changes-AllSame columns more fields current row h =
      all_same-AllSame columns current row (guarded _ _ h)

-- A ledger entry that is saved again and not refused is the stored entry with its key, in every
-- column, whatever columns the save is for.
pub reject_entry_changes-unchanged :
    (fields : Option (List Text)) (e current : LedgerEntry) (db : Db)
    → reject_entry_changes fields e db ≡ ok tt
    → find (λ r. r.id == e.id) db.entries ≡ some current
    → current ≡ e
unfolding reject_entry_changes
reject_entry_changes-unchanged fields e current db h found =
    let key : current.id ≡ e.id =
      nat_eq-eq current.id e.id
        (find_sound (λ (r : LedgerEntry). r.id == e.id) db.entries current found) in
    let (
      wallet,
      (
        number,
        (
          operation,
          (
            kind,
            (
              side,
              (
                amount,
                (balance, (currency, (previous, (reverses, (reason, (source, (creator, x))))))),
              ),
            ),
          ),
        ),
      ),
    ) =
      reject_changes-AllSame entry_columns entry_names fields current e (rw found at h) in
    λ i. record {
      id = key i;
      wallet_id = nat_eq-eq current.wallet_id e.wallet_id wallet i;
      sequence_number = nat_eq-eq current.sequence_number e.sequence_number number i;
      operation_id = nat_eq-eq current.operation_id e.operation_id operation i;
      entry_type = entry_type_eq-eq current.entry_type e.entry_type kind i;
      direction = direction_eq-eq current.direction e.direction side i;
      amount_minor = nat_eq-eq current.amount_minor e.amount_minor amount i;
      balance_after_minor = nat_eq-eq current.balance_after_minor e.balance_after_minor balance i;
      currency = text_eq-eq current.currency e.currency currency i;
      previous_entry_id = opt_eq-eq current.previous_entry_id e.previous_entry_id previous i;
      reverses_entry_id = opt_eq-eq current.reverses_entry_id e.reverses_entry_id reverses i;
      reason = text_eq-eq current.reason e.reason reason i;
      creation_source = source_eq-eq current.creation_source e.creation_source source i;
      created_by_id = opt_eq-eq current.created_by_id e.created_by_id creator i;
    }

-- A payment that is saved again and not refused is the stored payment with its key, in every column.
pub reject_payment_changes-unchanged :
    (fields : Option (List Text)) (p current : Payment) (db : Db)
    → reject_payment_changes fields p db ≡ ok tt
    → find (λ r. r.id == p.id) db.payments ≡ some current
    → current ≡ p
unfolding reject_payment_changes
reject_payment_changes-unchanged fields p current db h found =
    let key : current.id ≡ p.id =
      nat_eq-eq current.id p.id
        (find_sound (λ (r : Payment). r.id == p.id) db.payments current found) in
    let (profile, (transaction, (amount, (currency, (received, (reference, (digest, x))))))) =
      reject_changes-AllSame payment_columns payment_names fields current p (rw found at h) in
    λ i. record {
      id = key i;
      provider_profile_id = nat_eq-eq current.provider_profile_id p.provider_profile_id profile i;
      provider_transaction_id =
          text_eq-eq current.provider_transaction_id p.provider_transaction_id transaction i;
      amount_minor = nat_eq-eq current.amount_minor p.amount_minor amount i;
      currency = text_eq-eq current.currency p.currency currency i;
      received_at = nat_eq-eq current.received_at p.received_at received i;
      account_reference = text_eq-eq current.account_reference p.account_reference reference i;
      payload_digest = text_eq-eq current.payload_digest p.payload_digest digest i;
    }
