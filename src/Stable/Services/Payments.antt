-- ===== src/Stable/Services/Payments.antt =====
-- The payment services keep the invariant of the database.
use supersurf_billing_phase.Common.{ℕ, Bool, true, false, none, some, Option, Text}
use supersurf_billing_phase.Exec.Keeps.{Keeps}
use supersurf_billing_phase.Schema.Choices.{CaseStatus, Source}
use supersurf_billing_phase.Schema.Rows.{Payment, Subscriber, UnmatchedPaymentCase}
use supersurf_billing_phase.Money.{Decimal}
use supersurf_billing_phase.Service.Access.{Actor}
use supersurf_billing_phase.Service.Inputs.{RawId, Timestamp}
use supersurf_billing_phase.Common.{Unicode}
use supersurf_billing_phase.Payments.Save.{credit_wallet}
use supersurf_billing_phase.Payments.Ingest.{
  Ingestion, place, place_new, ingest_new, ingest_existing, ingest_payment_core,
  ingest_fake_payment,
}
use supersurf_billing_phase.Payments.Resolve.{
  Resolution, allocate_case, resolve_case, resolve, resolve_unmatched_payment,
}
use supersurf_billing_phase.Schema.Database.{Db}
use supersurf_billing_phase.Stable.{IsStable}
use supersurf_billing_phase.Stable.Parts.{wallet_rules}
use supersurf_billing_phase.Stable.Saves.{
  create_payment-Keeps, save_allocation-Keeps, save_case-Keeps, save_resolution-Keeps,
}

module _ {P : Db → Type 0} (stable : IsStable P) where
  ruleset rules = (
    wallet_rules, create_payment-Keeps, save_allocation-Keeps, save_case-Keeps,
    save_resolution-Keeps,
  )

  credit_wallet-Keeps :
      (p : Payment) (subscriber operation : ℕ) (actor : Option ℕ) (source : Source)
      → Keeps P (credit_wallet p subscriber operation actor source)
  unfolding credit_wallet
  credit_wallet-Keeps p subscriber operation actor source = search rules depth 9

  module _ (u : Unicode) (r : Ingestion) where
    place-Keeps : (p : Payment) (s : Option Subscriber) → Keeps P (place u r p s)
    unfolding place
    place-Keeps p none = search rules depth 8
    place-Keeps p (some s) = search (rules, credit_wallet-Keeps) depth 8

    place_new-Keeps : (created : Payment × Bool) → Keeps P (place_new u r created)
    unfolding place_new
    place_new-Keeps (p, false) = search rules
    place_new-Keeps (p, true) = search (rules, place-Keeps)

    ingest_new-Keeps : Keeps P (ingest_new u r)
    unfolding ingest_new
    ingest_new-Keeps = search (rules, place_new-Keeps) depth 8

    ingest_existing-Keeps : (o : Option Payment) → Keeps P (ingest_existing u r o)
    unfolding ingest_existing
    ingest_existing-Keeps none = search ingest_new-Keeps
    ingest_existing-Keeps (some p) = search rules

    -- The ingestion of a payment, whatever its arguments and its outcome, leaves a valid database
    -- valid.
    pub ingest_payment_core-Keeps : Keeps P (ingest_payment_core u r)
    unfolding ingest_payment_core
    ingest_payment_core-Keeps = search (rules, ingest_existing-Keeps)

  -- The ingestion of a fake payment leaves a valid database valid.
  pub ingest_fake_payment-Keeps :
      (u : Unicode) (production : Bool) (profile : ℕ) (transaction : Text) (amount : Decimal)
      (received_at : Timestamp) (reference : Option Text) (operation_id : RawId)
      (actor : Option Actor) (digest : Text)
      → Keeps P (
          ingest_fake_payment u production profile transaction amount received_at reference
            operation_id actor digest)
  unfolding ingest_fake_payment
  ingest_fake_payment-Keeps u production profile transaction amount received_at reference
        operation_id actor digest =
      search (rules, ingest_payment_core-Keeps) depth 12

  allocate_case-Keeps :
      (r : Resolution) (c : UnmatchedPaymentCase) (p : Payment) → Keeps P (allocate_case r c p)
  unfolding allocate_case
  allocate_case-Keeps r c p = search (rules, credit_wallet-Keeps) depth 10

  resolve_case-Keeps :
      (r : Resolution) (status : CaseStatus) (c : UnmatchedPaymentCase) (p : Payment)
      → Keeps P (resolve_case r status c p)
  unfolding resolve_case
  resolve_case-Keeps r CaseStatus.resolved c p = search rules
  resolve_case-Keeps r CaseStatus.opened c p = search (rules, allocate_case-Keeps)

  resolve-Keeps : (r : Resolution) → Keeps P (resolve r)
  unfolding resolve
  resolve-Keeps r = search (rules, resolve_case-Keeps)

  -- The resolution of an unmatched payment leaves a valid database valid.
  pub resolve_unmatched_payment-Keeps :
      (unmatched_case subscriber : ℕ) (operation_id : RawId) (reason : Text) (actor : Option Actor)
      (now : ℕ)
      → Keeps P (resolve_unmatched_payment unmatched_case subscriber operation_id reason actor now)
  unfolding resolve_unmatched_payment
  resolve_unmatched_payment-Keeps unmatched_case subscriber operation_id reason actor now =
      search (rules, resolve-Keeps) depth 8
