-- ===== src/Payments/Clean.antt =====
-- `full_clean` of `Payment`, `PaymentAllocation` and `UnmatchedPaymentCase`.
use supersurf_billing_phase.Common.{
  ℕ, Bool, false, not, ◌&&◌, ◌||◌, Option, none, some, List, [], ◌∷◌, ◌++◌, ltb, ◌==◌, opt_eq,
  is_some, find, exists, length, text_eq, is_blank, strip, ascii_lower, Text,
}
use supersurf_billing_phase.Errors.{Issue}
use supersurf_billing_phase.Schema.Choices.{
  EntryType, Direction, Source, entry_type_eq, direction_eq, source_eq, is_fake, is_paybill,
  is_sandbox, is_resolved,
}
use supersurf_billing_phase.Schema.Rows.{
  Payment, PaymentAllocation, PaymentProviderProfile, UnmatchedPaymentCase, LedgerEntry,
}
use supersurf_billing_phase.Schema.Database.{Db}
use supersurf_billing_phase.Money.{max_money_minor, kes}
use supersurf_billing_phase.Validation.{Checks, collect}
use supersurf_billing_phase.Ledger.Clean.{entry_at}
use supersurf_billing_phase.Periods.Clean.{out_of_range}
use supersurf_billing_phase.Charges.Clean.{of_row}
use supersurf_billing_phase.Common.{Unicode}
use supersurf_billing_phase.Payments.References.{upper_text, is_sha256}

abbrev pub payment_at : ℕ → List Payment → Option Payment
payment_at k payments = find (λ p. p.id == k) payments

abbrev pub profile_at : ℕ → List PaymentProviderProfile → Option PaymentProviderProfile
profile_at k profiles = find (λ p. p.id == k) profiles

abbrev pub allocation_at : Option ℕ → List PaymentAllocation → Option PaymentAllocation
allocation_at none allocations = none
allocation_at (some k) allocations = find (λ a. a.id == k) allocations

-- What `Payment.clean` writes back.
abbrev pub cleaned_payment : Unicode → Payment → Payment
cleaned_payment u p = record p {
  provider_transaction_id = strip p.provider_transaction_id;
  account_reference = upper_text u (strip p.account_reference);
  payload_digest = ascii_lower (strip p.payload_digest);
}

abbrev pub payment_field_checks : Db → Payment → Checks
payment_field_checks db p =
    (not (is_some (profile_at p.provider_profile_id db.profiles)), Issue.row_missing)
    ∷ (is_blank p.provider_transaction_id, Issue.transaction_id_required)
    ∷ (ltb 128 (length p.provider_transaction_id), Issue.text_too_long)
    ∷ (out_of_range 1 p.amount_minor, Issue.amount_out_of_range)
    ∷ (ltb 64 (length p.account_reference), Issue.text_too_long)
    ∷ (ltb 64 (length p.payload_digest), Issue.text_too_long)
    ∷ []

-- `clean` and the constraints see the cleaned texts.
abbrev pub payment_clean_checks : Payment → Checks
payment_clean_checks p =
    (is_blank p.provider_transaction_id, Issue.transaction_id_required)
    ∷ (p.amount_minor == 0, Issue.amount_not_positive)
    ∷ (ltb max_money_minor p.amount_minor, Issue.amount_too_large)
    ∷ (not (text_eq p.currency kes), Issue.currency_not_kes)
    ∷ (not (is_blank p.payload_digest) && not (is_sha256 p.payload_digest), Issue.digest_not_sha256)
    ∷ []

-- `provider_profile` and `provider_transaction_id` of a payment.
abbrev pub same_transaction : ℕ → Text → Payment → Bool
same_transaction profile transaction p =
    p.provider_profile_id == profile && text_eq p.provider_transaction_id transaction

abbrev pub payment_constraint_checks : Db → Payment → Checks
payment_constraint_checks db p =
    (exists (λ r. r.id == p.id) db.payments, Issue.id_taken)
    ∷ (
      exists (same_transaction p.provider_profile_id p.provider_transaction_id) db.payments,
      Issue.transaction_taken,
    )
    ∷ []

unfoldable pub payment_full_clean : Unicode → Db → Payment → List Issue
payment_full_clean u db p =
    collect (payment_field_checks db p) (payment_clean_checks (cleaned_payment u p))
      (payment_constraint_checks db (cleaned_payment u p))

-- The profile of a system allocation.
abbrev pub is_sandbox_paybill : Option PaymentProviderProfile → Bool
is_sandbox_paybill none = false
is_sandbox_paybill (some profile) =
    not (is_fake profile.provider)
    && is_paybill profile.product_type
    && is_sandbox profile.environment

module _ (db : Db) (a : PaymentAllocation) where
  abbrev pub allocation_field_checks : Checks
  allocation_field_checks =
      (out_of_range 1 a.amount_minor, Issue.amount_out_of_range)
      ∷ (not (is_some (payment_at a.payment_id db.payments)), Issue.row_missing)
      ∷ (not (exists (λ w. w.id == a.wallet_id) db.wallets), Issue.row_missing)
      ∷ (not (is_some (entry_at (some a.ledger_entry_id) db.entries)), Issue.row_missing)
      ∷ []

  abbrev pub allocation_own_checks : Option Payment → Checks
  allocation_own_checks payment =
      (
        source_eq a.creation_source Source.operator && not (is_some a.created_by_id),
        Issue.operator_required,
      )
      ∷ (
        source_eq a.creation_source Source.system && is_some a.created_by_id,
        Issue.operator_forbidden,
      )
      ∷ (not (text_eq a.currency kes), Issue.currency_not_kes)
      ∷ (a.amount_minor == 0, Issue.amount_not_positive)
      ∷ (ltb max_money_minor a.amount_minor, Issue.amount_too_large)
      ∷ (of_row (λ p. not (p.amount_minor == a.amount_minor)) payment, Issue.payment_amount_differs)
      ∷ (of_row (λ p. not (text_eq p.currency a.currency)) payment, Issue.payment_currency_differs)
      ∷ []

  abbrev pub allocation_entry_checks : Option LedgerEntry → Checks
  allocation_entry_checks entry =
      (of_row (λ e. not (e.wallet_id == a.wallet_id)) entry, Issue.ledger_entry_other_wallet)
      ∷ (
        of_row (λ e. not (entry_type_eq e.entry_type EntryType.payment_credit)) entry,
        Issue.not_a_payment_credit,
      )
      ∷ (of_row (λ e. not (direction_eq e.direction Direction.credit)) entry, Issue.not_a_credit)
      ∷ (of_row (λ e. not (e.amount_minor == a.amount_minor)) entry, Issue.ledger_amount_differs)
      ∷ (of_row (λ e. not (text_eq e.currency a.currency)) entry, Issue.ledger_currency_differs)
      ∷ (of_row (λ e. not (e.operation_id == a.operation_id)) entry, Issue.ledger_operation_differs)
      ∷ (
        is_some a.created_by_id && of_row (λ e. not (opt_eq e.created_by_id a.created_by_id)) entry,
        Issue.ledger_operator_differs,
      )
      ∷ (
        of_row (λ e. not (source_eq e.creation_source a.creation_source)) entry,
        Issue.ledger_source_differs,
      )
      ∷ []

  abbrev pub allocation_source_checks : Option Payment → Checks
  allocation_source_checks payment =
      (
        source_eq a.creation_source Source.system
            && of_row (λ p. not (is_sandbox_paybill (profile_at p.provider_profile_id db.profiles)))
                payment,
        Issue.not_sandbox_paybill,
      )
      ∷ []

  abbrev pub allocation_clean_checks : Checks
  allocation_clean_checks =
      allocation_own_checks (payment_at a.payment_id db.payments)
      ++ (allocation_entry_checks (entry_at (some a.ledger_entry_id) db.entries)
          ++ allocation_source_checks (payment_at a.payment_id db.payments))

  abbrev pub allocation_constraint_checks : Checks
  allocation_constraint_checks =
      (exists (λ r. r.operation_id == a.operation_id) db.allocations, Issue.operation_id_taken)
      ∷ (exists (λ r. r.id == a.id) db.allocations, Issue.id_taken)
      ∷ (
        exists (λ r. r.ledger_entry_id == a.ledger_entry_id) db.allocations,
        Issue.ledger_entry_taken,
      )
      ∷ (exists (λ r. r.payment_id == a.payment_id) db.allocations, Issue.payment_already_allocated)
      ∷ []

  unfoldable pub allocation_full_clean : List Issue
  allocation_full_clean =
      collect allocation_field_checks allocation_clean_checks allocation_constraint_checks

-- `any(resolution_fields)` and `all(resolution_fields)`
abbrev pub any_resolution : UnmatchedPaymentCase → Bool
any_resolution c =
    is_some c.resolved_wallet_id
    || is_some c.resolution_allocation_id
    || not (is_blank (strip c.resolution_reason))
    || is_some c.resolved_by_id
    || is_some c.resolved_at

abbrev pub all_resolution : UnmatchedPaymentCase → Bool
all_resolution c =
    is_some c.resolved_wallet_id
    && is_some c.resolution_allocation_id
    && not (is_blank (strip c.resolution_reason))
    && is_some c.resolved_by_id
    && is_some c.resolved_at

abbrev pub other_wallet : Option ℕ → PaymentAllocation → Bool
other_wallet none a = false
other_wallet (some w) a = not (a.wallet_id == w)

abbrev pub no_wallet : Option ℕ → Db → Bool
no_wallet none db = false
no_wallet (some w) db = not (exists (λ r. r.id == w) db.wallets)

-- The columns and the `clean` of a case, new or changed. That `resolved_by` is a stored user is left
-- out: it is the authenticated actor of the call.
abbrev pub case_field_checks : Db → UnmatchedPaymentCase → Checks
case_field_checks db c =
    (not (is_some (payment_at c.payment_id db.payments)), Issue.row_missing)
    ∷ (no_wallet c.resolved_wallet_id db, Issue.row_missing)
    ∷ (
      is_some c.resolution_allocation_id
          && not (is_some (allocation_at c.resolution_allocation_id db.allocations)),
      Issue.row_missing,
    )
    ∷ (ltb 240 (length c.resolution_reason), Issue.reason_too_long)
    ∷ []

abbrev pub case_clean_checks : UnmatchedPaymentCase → Option PaymentAllocation → Checks
case_clean_checks c allocation =
    (not (is_resolved c.status) && any_resolution c, Issue.resolution_fields_present)
    ∷ (is_resolved c.status && not (all_resolution c), Issue.resolution_fields_missing)
    ∷ (of_row (λ a. not (a.payment_id == c.payment_id)) allocation, Issue.allocation_other_payment)
    ∷ (of_row (other_wallet c.resolved_wallet_id) allocation, Issue.allocation_other_wallet)
    ∷ []

-- The unique columns; a case that is there already does not count against itself.
abbrev pub case_counts : Bool → ℕ → ℕ → Bool
case_counts adding k row = adding || not (row == k)

abbrev pub case_unique_checks : Bool → Db → UnmatchedPaymentCase → Checks
case_unique_checks adding db c =
    (adding && exists (λ r. r.id == c.id) db.cases, Issue.id_taken)
    ∷ (
      exists (λ r. case_counts adding c.id r.id && r.payment_id == c.payment_id) db.cases,
      Issue.payment_has_case,
    )
    ∷ (
      is_some c.resolution_allocation_id
          && exists
              (λ r.
                case_counts adding c.id r.id
                && opt_eq r.resolution_allocation_id c.resolution_allocation_id)
              db.cases,
      Issue.payment_already_allocated,
    )
    ∷ []

unfoldable pub case_full_clean : Bool → Db → UnmatchedPaymentCase → List Issue
case_full_clean adding db c =
    collect (case_field_checks db c)
      (case_clean_checks c (allocation_at c.resolution_allocation_id db.allocations))
      (case_unique_checks adding db c)
