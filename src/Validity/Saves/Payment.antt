-- ===== src/Validity/Saves/Payment.antt =====
-- The saves of payments, allocations and cases keep the invariant.
use supersurf_billing_phase.Common.{
  ◌≡◌, inl, inr, false, List, [], ◌∷◌, ◌==◌, find, exists, All-map, find-insert, Option-cases,
  arith,
}
use supersurf_billing_phase.Schema.Rows.{Payment, PaymentAllocation, UnmatchedPaymentCase}
use supersurf_billing_phase.Schema.Database.{Db}
use supersurf_billing_phase.Validation.{Passes, collect-Passes}
use supersurf_billing_phase.Ledger.Clean.{has_id}
use supersurf_billing_phase.Common.{Unicode}
use supersurf_billing_phase.Payments.Clean.{
  cleaned_payment, payment_field_checks, payment_clean_checks, payment_constraint_checks,
  payment_full_clean, allocation_field_checks, allocation_clean_checks,
  allocation_constraint_checks, allocation_full_clean,
}
use supersurf_billing_phase.Payments.Save.{insert_payment, insert_allocation}
use supersurf_billing_phase.Validity.Invariant.{AllocationIsBacked, IsValid}

module _ (u : Unicode) (p : Payment) (db : Db) (accepted : payment_full_clean u db p ≡ []) where
  payment_id_free : exists (λ r. r.id == p.id) db.payments ≡ false
  unfolding payment_full_clean
  payment_id_free =
      (collect-Passes (payment_field_checks db p) (payment_clean_checks (cleaned_payment u p))
        (payment_constraint_checks db (cleaned_payment u p)) accepted).2.0

  allocation_keeps_payment :
      (a : PaymentAllocation)
      → AllocationIsBacked db.entries db.payments a
      → AllocationIsBacked db.entries (cleaned_payment u p ∷ db.payments) a
  allocation_keeps_payment a b = record {
    entry = b.entry;
    entry_found = b.entry_found;
    entry_type = b.entry_type;
    direction = b.direction;
    wallet = b.wallet;
    amount = b.amount;
    operation = b.operation;
    payment = b.payment;
    payment_found =
        find-insert (λ (r : Payment). r.id) a.payment_id (cleaned_payment u p) db.payments b.payment
          payment_id_free b.payment_found;
    whole = b.whole;
  }

  pub payment-IsValid : IsValid db → IsValid (insert_payment (cleaned_payment u p) db)
  payment-IsValid h = record {
    ledger = h.ledger;
    wallet_ids = h.wallet_ids;
    wallet_owners = h.wallet_owners;
    subscribed_once = h.subscribed_once;
    charged_once = h.charged_once;
    charges = h.charges;
    allocated_once = h.allocated_once;
    allocations =
        All-map (AllocationIsBacked db.entries db.payments)
          (AllocationIsBacked db.entries (cleaned_payment u p ∷ db.payments)) db.allocations
          allocation_keeps_payment h.allocations;
  }

module _ (a : PaymentAllocation) (db : Db) (accepted : allocation_full_clean db a ≡ []) where
  allocation-Passes :
      Passes (allocation_field_checks db a)
      × Passes (allocation_clean_checks db a)
      × Passes (allocation_constraint_checks db a)
  unfolding allocation_full_clean
  allocation-Passes =
      collect-Passes (allocation_field_checks db a) (allocation_clean_checks db a)
        (allocation_constraint_checks db a) accepted

  -- What `PaymentAllocation.full_clean` has checked of the related rows.
  allocation-IsBacked : AllocationIsBacked db.entries db.payments a
  allocation-IsBacked = elim (Option-cases (find (has_id a.ledger_entry_id) db.entries)) [
    | inl gone ↦ absurd (ground (arith, allocation-Passes))
    | inr (e, entry) ↦ elim (Option-cases (find (λ p. p.id == a.payment_id) db.payments)) [
      | inl lost ↦ absurd (ground (arith, allocation-Passes))
      | inr (p, payment) ↦ record {
        entry = e;
        entry_found = entry;
        entry_type = ground (arith, allocation-Passes);
        direction = ground (arith, allocation-Passes);
        wallet = ground (arith, allocation-Passes);
        amount = ground (arith, allocation-Passes);
        operation = ground (arith, allocation-Passes);
        payment = p;
        payment_found = payment;
        whole = ground (arith, allocation-Passes);
      }
    ]
  ]

  pub allocation-IsValid : IsValid db → IsValid (insert_allocation a db)
  allocation-IsValid h = record {
    ledger = h.ledger;
    wallet_ids = h.wallet_ids;
    wallet_owners = h.wallet_owners;
    subscribed_once = h.subscribed_once;
    charged_once = h.charged_once;
    charges = h.charges;
    allocated_once = (allocation-Passes.2.1.1.1.0, h.allocated_once);
    allocations = (allocation-IsBacked, h.allocations);
  }

-- No part of the invariant reads the cases.
pub IsValid-cases :
    (cases : List UnmatchedPaymentCase) (db : Db)
    → IsValid db
    → IsValid (record db { cases = cases })
IsValid-cases cases db h = record {
  ledger = h.ledger;
  wallet_ids = h.wallet_ids;
  wallet_owners = h.wallet_owners;
  subscribed_once = h.subscribed_once;
  charged_once = h.charged_once;
  charges = h.charges;
  allocated_once = h.allocated_once;
  allocations = h.allocations;
}
