-- ===== src/Validity/Services.antt =====
-- Every accepted row keeps the invariant, and so every service does.
use supersurf_billing_phase.Common.{◌==◌, ◌∷◌, update}
use supersurf_billing_phase.Stable.{IsStable, IsCallbackStable}
use supersurf_billing_phase.Validity.Invariant.{IsValid}
use supersurf_billing_phase.Schema.Rows.{
  AuditEvent, MpesaCallbackEvent, MpesaCallbackPaymentLink, PaymentProviderProfile, Plan, Service,
  Subscriber,
}
use supersurf_billing_phase.Schema.Database.{Db}
use supersurf_billing_phase.Common.{ℕ, suc, List}
use supersurf_billing_phase.Callbacks.Capture.{cleaned_event}
use supersurf_billing_phase.Validity.Saves.Entry.{entry-IsValid}
use supersurf_billing_phase.Validity.Saves.Billing.{wallet-IsValid, period-IsValid, charge-IsValid}
use supersurf_billing_phase.Validity.Saves.Payment.{
  payment-IsValid, allocation-IsValid, IsValid-cases,
}
use supersurf_billing_phase.Validity.Saves.Subscription.{subscription-IsValid, ending-IsValid}

-- Validity does not read the other tables.
pub IsValid-beside :
    (db : Db) (next : ℕ) (subscribers : List Subscriber) (services : List Service)
    (plans : List Plan) (profiles : List PaymentProviderProfile) (events : List MpesaCallbackEvent)
    (links : List MpesaCallbackPaymentLink) (audit : List AuditEvent)
    → IsValid db
    → IsValid (record db {
      next_id = next;
      subscribers = subscribers;
      services = services;
      plans = plans;
      profiles = profiles;
      events = events;
      links = links;
      audit = audit;
    })
IsValid-beside db next subscribers services plans profiles events links audit h = record {
  ledger = h.ledger;
  wallet_ids = h.wallet_ids;
  wallet_owners = h.wallet_owners;
  subscribed_once = h.subscribed_once;
  charged_once = h.charged_once;
  charges = h.charges;
  allocated_once = h.allocated_once;
  allocations = h.allocations;
}

IsValid-IsStable : IsStable IsValid
IsValid-IsStable = record {
  key = λ db.
      IsValid-beside db (suc db.next_id) db.subscribers db.services db.plans db.profiles db.events
        db.links db.audit;
  event = λ e db.
      IsValid-beside db db.next_id db.subscribers db.services db.plans db.profiles db.events
        db.links (e ∷ db.audit);
  wallet = wallet-IsValid;
  entry = entry-IsValid;
  period = period-IsValid;
  charge = charge-IsValid;
  payment = payment-IsValid;
  allocation = allocation-IsValid;
  case = λ c db accepted. IsValid-cases (c ∷ db.cases) db;
  resolution = λ c db accepted. IsValid-cases (update (λ r. r.id == c.id) (λ _. c) db.cases) db;
  subscription = subscription-IsValid;
  ending = λ now s db accepted. ending-IsValid now s db;
}

pub IsValid-IsCallbackStable : IsCallbackStable IsValid
IsValid-IsCallbackStable = record {
  stable = IsValid-IsStable;
  callback = λ e db accepted.
      IsValid-beside db db.next_id db.subscribers db.services db.plans db.profiles
        (cleaned_event e ∷ db.events) db.links db.audit;
  link = λ u l db accepted.
      IsValid-beside db db.next_id db.subscribers db.services db.plans db.profiles db.events
        (l ∷ db.links) db.audit;
}
