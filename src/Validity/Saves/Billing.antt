-- ===== src/Validity/Saves/Billing.antt =====
-- The saves of wallets, billing periods and charges keep the invariant.
use supersurf_billing_phase.Common.{
  ◌≡◌, inl, inr, false, [], ◌∷◌, ◌==◌, find, exists, All-map, find-insert, Option-cases, arith,
}
use supersurf_billing_phase.Schema.Rows.{BillingCharge, BillingPeriod, Wallet}
use supersurf_billing_phase.Schema.Database.{Db}
use supersurf_billing_phase.Validation.{Passes, collect-Passes, complaints, complaints-Passes}
use supersurf_billing_phase.Ledger.Clean.{has_id}
use supersurf_billing_phase.Service.Lookup.{wallet_checks, insert_wallet}
use supersurf_billing_phase.Periods.Clean as Period
use supersurf_billing_phase.Periods.Save.{insert_period, cleaned_period}
use supersurf_billing_phase.Charges.Clean as Charge
use supersurf_billing_phase.Charges.Clean.{insert_charge, cleaned_charge, save_billing_charge}
use supersurf_billing_phase.Validity.Invariant.{ChargeIsBacked, IsValid}

pub wallet-IsValid :
    (w : Wallet) (db : Db)
    → complaints (wallet_checks db w) ≡ []
    → IsValid db
    → IsValid (insert_wallet w db)
unfolding wallet_checks
wallet-IsValid w db accepted h =
    let passes = complaints-Passes (wallet_checks db w) accepted in
    record {
      ledger = h.ledger;
      wallet_ids = (passes.1.1.0, h.wallet_ids);
      wallet_owners = (passes.1.1.1.0, h.wallet_owners);
      subscribed_once = h.subscribed_once;
      charged_once = h.charged_once;
      charges = h.charges;
      allocated_once = h.allocated_once;
      allocations = h.allocations;
    }

module _ (p : BillingPeriod) (db : Db) (accepted : Period.full_clean db p ≡ []) where
  period_id_free : exists (λ r. r.id == p.id) db.periods ≡ false
  unfolding Period.full_clean
  period_id_free =
      (collect-Passes (Period.field_checks db p) (Period.clean_checks db p)
        (Period.constraint_checks db p) accepted).2.1.0

  charge_keeps_period :
      (c : BillingCharge)
      → ChargeIsBacked db.entries db.periods c
      → ChargeIsBacked db.entries (cleaned_period p ∷ db.periods) c
  charge_keeps_period c b = record {
    entry = b.entry;
    entry_found = b.entry_found;
    entry_type = b.entry_type;
    direction = b.direction;
    wallet = b.wallet;
    amount = b.amount;
    operation = b.operation;
    period = b.period;
    period_found =
        find-insert (λ (r : BillingPeriod). r.id) c.billing_period_id (cleaned_period p) db.periods
          b.period period_id_free b.period_found;
    price = b.price;
    period_operation = b.period_operation;
    kind = b.kind;
  }

  pub period-IsValid : IsValid db → IsValid (insert_period (cleaned_period p) db)
  period-IsValid h = record {
    ledger = h.ledger;
    wallet_ids = h.wallet_ids;
    wallet_owners = h.wallet_owners;
    subscribed_once = h.subscribed_once;
    charged_once = h.charged_once;
    charges =
        All-map (ChargeIsBacked db.entries db.periods)
          (ChargeIsBacked db.entries (cleaned_period p ∷ db.periods)) db.charges charge_keeps_period
          h.charges;
    allocated_once = h.allocated_once;
    allocations = h.allocations;
  }

module _ (c : BillingCharge) (db : Db) (accepted : Charge.full_clean db c ≡ []) where
  charge-Passes :
      Passes (Charge.field_checks db c)
      × Passes (Charge.clean_checks db c)
      × Passes (Charge.constraint_checks db c)
  unfolding Charge.full_clean
  charge-Passes =
      collect-Passes (Charge.field_checks db c) (Charge.clean_checks db c)
        (Charge.constraint_checks db c) accepted

  -- What `BillingCharge.full_clean` has checked of the related rows.
  charge-IsBacked : ChargeIsBacked db.entries db.periods (cleaned_charge c)
  charge-IsBacked = elim (Option-cases (find (has_id c.ledger_entry_id) db.entries)) [
    | inl gone ↦ absurd (ground (arith, charge-Passes))
    | inr (e, entry) ↦ elim (Option-cases (find (λ p. p.id == c.billing_period_id) db.periods)) [
      | inl lost ↦ absurd (ground (arith, charge-Passes))
      | inr (p, period) ↦ record {
        entry = e;
        entry_found = entry;
        entry_type = ground (arith, charge-Passes);
        direction = ground (arith, charge-Passes);
        wallet = ground (arith, charge-Passes);
        amount = ground (arith, charge-Passes);
        operation = ground (arith, charge-Passes);
        period = p;
        period_found = period;
        price = ground (arith, charge-Passes);
        period_operation = ground (arith, charge-Passes);
        kind = ground (arith, charge-Passes);
      }
    ]
  ]

  pub charge-IsValid : IsValid db → IsValid (insert_charge (cleaned_charge c) db)
  charge-IsValid h = record {
    ledger = h.ledger;
    wallet_ids = h.wallet_ids;
    wallet_owners = h.wallet_owners;
    subscribed_once = h.subscribed_once;
    charged_once = (charge-Passes.2.1.1.0, h.charged_once);
    charges = (charge-IsBacked, h.charges);
    allocated_once = h.allocated_once;
    allocations = h.allocations;
  }
