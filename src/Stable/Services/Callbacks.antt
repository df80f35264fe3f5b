-- ===== src/Stable/Services/Callbacks.antt =====
-- The capture of callbacks and the processing of Paybill confirmations keep what every save keeps.
use supersurf_billing_phase.Common.{
  ℕ, Bool, true, false, Option, none, some, List, [], ◌∷◌, Text, Unicode, exists, ◌≡◌, refl,
}
use supersurf_billing_phase.Exec.Keeps.{Keeps, keeps_rules}
use supersurf_billing_phase.Errors.{Issue, Error}
use supersurf_billing_phase.Schema.Choices.{EventType}
use supersurf_billing_phase.Schema.Json.{Json}
use supersurf_billing_phase.Schema.Rows.{MpesaCallbackEvent, MpesaCallbackPaymentLink}
use supersurf_billing_phase.Schema.Database.{Db}
use supersurf_billing_phase.Callbacks.Extract.{Python}
use supersurf_billing_phase.Callbacks.Capture.{
  cleaned_event, event_full_clean, find_event, insert_or_get, create_event_with, create_event,
  report, capture_mpesa_callback,
}
use supersurf_billing_phase.Paybill.Settings.{Settings}
use supersurf_billing_phase.Paybill.Link.{link_full_clean, insert_link, save_link}
use supersurf_billing_phase.Paybill.Process.{
  Outcome, was_skipped, record_once, record_skip, skip, record_failure, ingest_linked,
  process_amount, process_approved, process_unlinked, process_event, process_confirmation,
}
use supersurf_billing_phase.Stable.{IsCallbackStable}
use supersurf_billing_phase.Stable.Saves.{fresh-Keeps, record_event-Keeps, Keeps-save_valid}
use supersurf_billing_phase.Stable.Services.Payments.{ingest_payment_core-Keeps}

module _ {P : Db → Type 0} (all : IsCallbackStable P) where
  ruleset rules = (keeps_rules, fresh-Keeps, record_event-Keeps)

  create_with-keeps :
      (e : MpesaCallbackEvent) (issues : List Issue) (o : Option MpesaCallbackEvent) (db : Db)
      → event_full_clean e ≡ issues
      → find_event (cleaned_event e).idempotency_key db ≡ o
      → P db
      → P (create_event_with (cleaned_event e) e.idempotency_key issues db).1
  unfolding create_event_with insert_or_get
  create_with-keeps e [] none db accepted at_key h = rw at_key (all.callback e db accepted h)
  create_with-keeps e [] (some taken) db accepted at_key h = rw at_key h
  create_with-keeps e (issue ∷ issues) o db accepted at_key h = h

  create_event-Keeps : (e : MpesaCallbackEvent) → Keeps P (create_event e)
  unfolding create_event
  create_event-Keeps e = record {
    at = λ db h.
        create_with-keeps e (event_full_clean e) (find_event (cleaned_event e).idempotency_key db)
          db refl refl h;
  }

  report-Keeps : (d : Text) (saved : MpesaCallbackEvent × Bool) → Keeps P (report d saved)
  unfolding report
  report-Keeps d (event, true) = search rules
  report-Keeps d (event, false) = search rules depth 8

  -- A capture keeps what every save keeps.
  pub capture_mpesa_callback-Keeps :
      (p : Python) (digest : Json → Text) (t : EventType) (payload : Json) (now : ℕ)
      → Keeps P (capture_mpesa_callback p digest t payload now)
  unfolding capture_mpesa_callback
  capture_mpesa_callback-Keeps p digest t payload now =
      search (rules, create_event-Keeps, report-Keeps)

  record_once-Keeps : (b : Bool) (k : ℕ) (reason : Text) → Keeps P (record_once b k reason)
  record_once-Keeps true k reason = record { at = λ db h. h }
  record_once-Keeps false k reason = record {
    at = λ db h. (record_event-Keeps all.stable _ _ _ _).at db h;
  }

  record_skip-Keeps : (k : ℕ) (reason : Text) → Keeps P (record_skip k reason)
  unfolding record_skip
  record_skip-Keeps k reason = record {
    at = λ db h. (record_once-Keeps (exists (was_skipped k reason) db.audit) k reason).at db h;
  }

  skip-Keeps : (k : ℕ) (reason : Text) (o : Outcome) → Keeps P (skip k reason o)
  unfolding skip
  skip-Keeps k reason o = search (rules, record_skip-Keeps)

  module _ (u : Unicode) (settings : Settings) (operation_of : ℕ → ℕ) where
    save_link-Keeps : (l : MpesaCallbackPaymentLink) → Keeps P (save_link u l)
    unfolding save_link
    save_link-Keeps l =
        Keeps-save_valid (Error.invalid_row Issue.event_taken) (λ db. link_full_clean u db l)
          (insert_link l) l (all.link u l)

    ingest_linked-Keeps :
        (e : MpesaCallbackEvent) (amount : ℕ)
        → Keeps P (ingest_linked u settings operation_of e amount)
    unfolding ingest_linked
    ingest_linked-Keeps e amount =
        search (rules, save_link-Keeps, ingest_payment_core-Keeps) depth 10

    process_amount-Keeps :
        (e : MpesaCallbackEvent) (amount : ℕ)
        → Keeps P (process_amount u settings operation_of e amount)
    unfolding process_amount
    process_amount-Keeps e amount = search (rules, skip-Keeps, ingest_linked-Keeps) depth 8

    process_approved-Keeps :
        (e : MpesaCallbackEvent) → Keeps P (process_approved u settings operation_of e)
    unfolding process_approved
    process_approved-Keeps e = search (rules, skip-Keeps, process_amount-Keeps) depth 12

    process_unlinked-Keeps :
        (e : MpesaCallbackEvent) → Keeps P (process_unlinked u settings operation_of e)
    unfolding process_unlinked
    process_unlinked-Keeps e = search (rules, process_approved-Keeps) depth 8

    process_event-Keeps :
        (e : MpesaCallbackEvent) (link : Option MpesaCallbackPaymentLink)
        → Keeps P (process_event u settings operation_of e link)
    unfolding process_event
    process_event-Keeps e none = search (process_unlinked-Keeps)
    process_event-Keeps e (some l) = search rules

    -- The processing of a confirmation keeps what every save keeps.
    pub process_confirmation-Keeps :
        (event : ℕ) → Keeps P (process_confirmation u settings operation_of event)
    unfolding process_confirmation
    process_confirmation-Keeps event = search (rules, process_event-Keeps) depth 8

  -- So does the record of a failure.
  pub record_failure-Keeps : (k : ℕ) (reason : Text) → Keeps P (record_failure k reason)
  unfolding record_failure
  record_failure-Keeps k reason = search rules
