-- ===== src/Validity/Invariant.antt =====
-- What is true of the tables after any sequence of service calls.
use supersurf_billing_phase.Common.{
  ◌≡◌, false, some, List, [], ◌∷◌, ◌==◌, find, exists, ◌&&◌, All, Distinct,
}
use supersurf_billing_phase.Schema.Choices.{EntryType, Direction, is_active_status}
use supersurf_billing_phase.Schema.Rows.{
  BillingCharge, BillingPeriod, LedgerEntry, Payment, PaymentAllocation, Wallet, Subscription,
}
use supersurf_billing_phase.Schema.Database.{Db}
use supersurf_billing_phase.Ledger.Clean.{has_id}
use supersurf_billing_phase.Subscriptions.Clean.{holds_service}
use supersurf_billing_phase.Ledger.Invariant.{IsLedger}

-- A charge is the price of its period and the amount of its ledger entry, under one operation.
pub record ChargeIsBacked (entries : List LedgerEntry) (periods : List BillingPeriod)
    (c : BillingCharge) : Type 0 where
  pub entry : LedgerEntry
  pub entry_found : find (has_id c.ledger_entry_id) entries ≡ some entry
  pub entry_type : entry.entry_type ≡ EntryType.billing_charge
  pub direction : entry.direction ≡ Direction.debit
  pub wallet : entry.wallet_id ≡ c.wallet_id
  pub amount : entry.amount_minor ≡ c.amount_minor
  pub operation : entry.operation_id ≡ c.operation_id
  pub period : BillingPeriod
  pub period_found : find (λ p. p.id == c.billing_period_id) periods ≡ some period
  pub price : period.price_minor ≡ c.amount_minor
  pub period_operation : period.operation_id ≡ c.operation_id
  pub kind : period.period_type ≡ c.charge_type

-- An allocation is the whole of its payment and the amount of its ledger entry.
pub record AllocationIsBacked (entries : List LedgerEntry) (payments : List Payment)
    (a : PaymentAllocation) : Type 0 where
  pub entry : LedgerEntry
  pub entry_found : find (has_id a.ledger_entry_id) entries ≡ some entry
  pub entry_type : entry.entry_type ≡ EntryType.payment_credit
  pub direction : entry.direction ≡ Direction.credit
  pub wallet : entry.wallet_id ≡ a.wallet_id
  pub amount : entry.amount_minor ≡ a.amount_minor
  pub operation : entry.operation_id ≡ a.operation_id
  pub payment : Payment
  pub payment_found : find (λ p. p.id == a.payment_id) payments ≡ some payment
  pub whole : payment.amount_minor ≡ a.amount_minor

-- Among the subscriptions, no service has two active ones.
abbrev pub OneActive : List Subscription → Type 0
OneActive [] = Unit
OneActive (s ∷ subscriptions) =
    ((is_active_status s.status && exists (holds_service s.service_id) subscriptions) ≡ false)
    × OneActive subscriptions

pub record IsValid (db : Db) : Type 0 where
  pub ledger : IsLedger db
  pub wallet_ids : Distinct (λ (w : Wallet). w.id) db.wallets
  pub wallet_owners : Distinct (λ (w : Wallet). w.subscriber_id) db.wallets
  pub subscribed_once : OneActive db.subscriptions
  pub charged_once : Distinct (λ (c : BillingCharge). c.billing_period_id) db.charges
  pub charges : All (ChargeIsBacked db.entries db.periods) db.charges
  pub allocated_once : Distinct (λ (a : PaymentAllocation). a.payment_id) db.allocations
  pub allocations : All (AllocationIsBacked db.entries db.payments) db.allocations
