-- ===== src/Stable.antt =====
-- Properties of the database that every accepted row keeps are kept by every service.
pub mod Saves
pub mod Parts
pub mod Services
use supersurf_billing_phase.Common.{ℕ, suc, ◌≡◌, true, false, [], ◌∷◌}
use supersurf_billing_phase.Schema.Rows.{
  AuditEvent, BillingCharge, BillingPeriod, LedgerEntry, Payment, PaymentAllocation, Subscription,
  MpesaCallbackEvent, MpesaCallbackPaymentLink, UnmatchedPaymentCase, Wallet,
}
use supersurf_billing_phase.Schema.Database.{Db}
use supersurf_billing_phase.Validation.{complaints}
use supersurf_billing_phase.Ledger.Clean as Entry
use supersurf_billing_phase.Ledger.Save.{insert_entry, cleaned_entry}
use supersurf_billing_phase.Periods.Clean as Period
use supersurf_billing_phase.Periods.Save.{insert_period, cleaned_period}
use supersurf_billing_phase.Charges.Clean as Charge
use supersurf_billing_phase.Charges.Clean.{insert_charge, cleaned_charge}
use supersurf_billing_phase.Common.{Unicode}
use supersurf_billing_phase.Payments.Clean.{
  cleaned_payment, payment_full_clean, allocation_full_clean, case_full_clean,
}
use supersurf_billing_phase.Payments.Save.{
  insert_payment, insert_allocation, insert_case, replace_case,
}
use supersurf_billing_phase.Subscriptions.Clean.{
  full_clean, insert_subscription, cleaned_subscription, write_status,
}
use supersurf_billing_phase.Subscriptions.Assign.{ended_row}
use supersurf_billing_phase.Callbacks.Capture.{cleaned_event, event_full_clean, insert_event}
use supersurf_billing_phase.Paybill.Link.{link_full_clean, insert_link}
use supersurf_billing_phase.Service.Lookup.{wallet_checks, insert_wallet}

-- `P` survives a new key, an audit event, and every row without complaints.
pub record IsStable (P : Db → Type 0) : Type 0 where
  pub key : (db : Db) → P db → P (record db { next_id = suc db.next_id })
  pub event : (e : AuditEvent) (db : Db) → P db → P (record db { audit = e ∷ db.audit })
  pub wallet :
      (w : Wallet) (db : Db) → complaints (wallet_checks db w) ≡ [] → P db → P (insert_wallet w db)
  pub entry :
      (e : LedgerEntry) (db : Db)
      → Entry.full_clean db e ≡ []
      → P db
      → P (insert_entry (cleaned_entry e) db)
  pub period :
      (p : BillingPeriod) (db : Db)
      → Period.full_clean db p ≡ []
      → P db
      → P (insert_period (cleaned_period p) db)
  pub charge :
      (c : BillingCharge) (db : Db)
      → Charge.full_clean db c ≡ []
      → P db
      → P (insert_charge (cleaned_charge c) db)
  pub payment :
      (u : Unicode) (p : Payment) (db : Db)
      → payment_full_clean u db p ≡ []
      → P db
      → P (insert_payment (cleaned_payment u p) db)
  pub allocation :
      (a : PaymentAllocation) (db : Db)
      → allocation_full_clean db a ≡ []
      → P db
      → P (insert_allocation a db)
  pub case :
      (c : UnmatchedPaymentCase) (db : Db)
      → case_full_clean true db c ≡ []
      → P db
      → P (insert_case c db)
  pub resolution :
      (c : UnmatchedPaymentCase) (db : Db)
      → case_full_clean false db c ≡ []
      → P db
      → P (replace_case c db)
  pub subscription :
      (s : Subscription) (db : Db)
      → full_clean true db s ≡ []
      → P db
      → P (insert_subscription (cleaned_subscription s) db)
  pub ending :
      (now : ℕ) (s : Subscription) (db : Db)
      → full_clean false db (ended_row now s) ≡ []
      → P db
      → P (write_status (ended_row now s) db)

-- Also a callback event and a link between an event and a payment.
pub record IsCallbackStable (P : Db → Type 0) : Type 0 where
  pub stable : IsStable P
  pub callback :
      (e : MpesaCallbackEvent) (db : Db)
      → event_full_clean e ≡ []
      → P db
      → P (insert_event (cleaned_event e) db)
  pub link :
      (u : Unicode) (l : MpesaCallbackPaymentLink) (db : Db)
      → link_full_clean u db l ≡ []
      → P db
      → P (insert_link l db)
