-- ===== src/Paybill/Again.antt =====
-- The same Paybill confirmation processed once more.
use supersurf_billing_phase.Common.{ℕ, ◌≡◌, sym, ap, ◌∙◌, inl, inr, none, some, ◌∷◌, Unicode, arith}
use supersurf_billing_phase.Exec.{ok}
use supersurf_billing_phase.Exec.Runs.{bind_run, atomic_run, gets_run, require_run}
use supersurf_billing_phase.Schema.Rows.{MpesaCallbackEvent, MpesaCallbackPaymentLink}
use supersurf_billing_phase.Schema.Database.{Db}
use supersurf_billing_phase.Payments.Clean.{payment_at}
use supersurf_billing_phase.Paybill.Settings.{Settings}
use supersurf_billing_phase.Paybill.Link.{event_at}
use supersurf_billing_phase.Paybill.Process.{
  Outcome, PaybillResult, process_event, link_of, process_confirmation,
}
use supersurf_billing_phase.Paybill.Confirmed.{process_confirmation_ok}

module _ (u : Unicode) (settings : Settings) (operation_of : ℕ → ℕ) where
  -- The answer for an event with a link.
  abbrev pub already_linked : Db → MpesaCallbackPaymentLink → PaybillResult
  already_linked db l = record {
    outcome = Outcome.already_processed;
    payment = payment_at l.payment_id db.payments;
    link = some l;
  }

  process_linked :
      (event : ℕ) (e : MpesaCallbackEvent) (l : MpesaCallbackPaymentLink) (db : Db)
      → event_at event db.events ≡ some e
      → link_of u settings operation_of e.id db ≡ some l
      → process_confirmation u settings operation_of event db ≡ (ok (already_linked db l), db)
  unfolding process_confirmation process_event
  process_linked event e l db there linked = atomic_run _ db (
      bind_run _ _ db (require_run _ _ e db there)
      ∙ bind_run _ _ db (gets_run _ db)
      ∙ (ap (λ o. process_event u settings operation_of e o db) linked ∙ gets_run _ db))

  linked_now :
      (e : MpesaCallbackEvent) (l : MpesaCallbackPaymentLink) (old new : Db)
      → l.callback_event_id ≡ e.id
      → new.links ≡ l ∷ old.links
      → link_of u settings operation_of e.id new ≡ some l
  linked_now e l old new same rows = rw (rows, same) (ground arith)

  -- A confirmation that has been answered with a link and is processed once more is answered by that
  -- link, as already processed, and nothing changes.
  pub process_confirmation-again :
      (event : ℕ) (db db' : Db) (result : PaybillResult) (l : MpesaCallbackPaymentLink)
      → process_confirmation u settings operation_of event db ≡ (ok result, db')
      → result.link ≡ some l
      → process_confirmation u settings operation_of event db' ≡ (ok (already_linked db' l), db')
  process_confirmation-again event db db' result l run answered =
      let (e, there, done) =
        process_confirmation_ok u settings operation_of event db db' result run in
      elim done [
        | inl (row, found, result_is, same) ↦
            let row_is : some row ≡ some l = sym (ap (λ r. r.link) result_is) ∙ answered in
            process_linked event e l db' (ap (λ d. event_at event d.events) same ∙ there)
              (ap (link_of u settings operation_of e.id) same ∙ found ∙ row_is)
        | inr (first, inl (why, no_payment, no_link, same)) ↦
            let gone : none ≡ some l = sym no_link ∙ answered in cc
        | inr (first, inr (on, approved, linked)) ↦
            let row_is : some linked.link ≡ some l =
              sym (ap (λ r. r.link) linked.answer) ∙ answered in
            process_linked event e l db' (ap (event_at event) linked.events ∙ there)
              (linked_now e linked.link db db' linked.ends.0 linked.links ∙ row_is)
      ]
