-- ===== src/Validity/Saves/Entry.antt =====
-- A ledger entry without complaints keeps the invariant.
use supersurf_billing_phase.Common.{◌≡◌, [], ◌∷◌, All-map, find-insert}
use supersurf_billing_phase.Schema.Rows.{BillingCharge, LedgerEntry, PaymentAllocation}
use supersurf_billing_phase.Schema.Database.{Db}
use supersurf_billing_phase.Ledger.Clean as Entry
use supersurf_billing_phase.Ledger.Clean.{has_id}
use supersurf_billing_phase.Ledger.Save.{insert_entry, cleaned_entry}
use supersurf_billing_phase.Ledger.Accepted.{accepted-id}
use supersurf_billing_phase.Ledger.Invariant.{insert-IsLedger}
use supersurf_billing_phase.Validity.Invariant.{ChargeIsBacked, AllocationIsBacked, IsValid}

module _ (e : LedgerEntry) (db : Db) (accepted : Entry.full_clean db e ≡ []) where
  charge_keeps_entry :
      (c : BillingCharge)
      → ChargeIsBacked db.entries db.periods c
      → ChargeIsBacked (cleaned_entry e ∷ db.entries) db.periods c
  charge_keeps_entry c b = record {
    entry = b.entry;
    entry_found =
        find-insert (λ (r : LedgerEntry). r.id) c.ledger_entry_id (cleaned_entry e) db.entries
          b.entry (accepted-id db e accepted) b.entry_found;
    entry_type = b.entry_type;
    direction = b.direction;
    wallet = b.wallet;
    amount = b.amount;
    operation = b.operation;
    period = b.period;
    period_found = b.period_found;
    price = b.price;
    period_operation = b.period_operation;
    kind = b.kind;
  }

  allocation_keeps_entry :
      (a : PaymentAllocation)
      → AllocationIsBacked db.entries db.payments a
      → AllocationIsBacked (cleaned_entry e ∷ db.entries) db.payments a
  allocation_keeps_entry a b = record {
    entry = b.entry;
    entry_found =
        find-insert (λ (r : LedgerEntry). r.id) a.ledger_entry_id (cleaned_entry e) db.entries
          b.entry (accepted-id db e accepted) b.entry_found;
    entry_type = b.entry_type;
    direction = b.direction;
    wallet = b.wallet;
    amount = b.amount;
    operation = b.operation;
    payment = b.payment;
    payment_found = b.payment_found;
    whole = b.whole;
  }

  pub entry-IsValid : IsValid db → IsValid (insert_entry (cleaned_entry e) db)
  entry-IsValid h = record {
    ledger = insert-IsLedger e db accepted h.ledger;
    wallet_ids = h.wallet_ids;
    wallet_owners = h.wallet_owners;
    subscribed_once = h.subscribed_once;
    charged_once = h.charged_once;
    charges =
        All-map (ChargeIsBacked db.entries db.periods)
          (ChargeIsBacked (cleaned_entry e ∷ db.entries) db.periods) db.charges charge_keeps_entry
          h.charges;
    allocated_once = h.allocated_once;
    allocations =
        All-map (AllocationIsBacked db.entries db.payments)
          (AllocationIsBacked (cleaned_entry e ∷ db.entries) db.payments) db.allocations
          allocation_keeps_entry h.allocations;
  }
