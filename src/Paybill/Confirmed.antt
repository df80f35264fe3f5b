-- ===== src/Paybill/Confirmed.antt =====
-- What `process_mpesa_paybill_confirmation_event` has done when it returns.
use mathlib.Core.Path.{subst}
use supersurf_billing_phase.Common.{
  double_negation, ℕ, ◌≡◌, sym, ap, ◌∙◌, ◌⊎◌, inl, inr, true, not, Option, none, some, Unicode,
  Bool-cases, arith,
}
use supersurf_billing_phase.Exec.{ok}
use supersurf_billing_phase.Exec.Runs.{
  bind_then, gets_ok, require_ok, refuse_ok, pure_ok, atomic_ok,
}
use supersurf_billing_phase.Schema.Rows.{MpesaCallbackEvent, MpesaCallbackPaymentLink}
use supersurf_billing_phase.Schema.Database.{Db}
use supersurf_billing_phase.Payments.Clean.{payment_at}
use supersurf_billing_phase.Paybill.Settings.{Settings, is_approved}
use supersurf_billing_phase.Paybill.Link.{event_at}
use supersurf_billing_phase.Paybill.Process.{
  Outcome, PaybillResult, process_unlinked, process_event, link_of, process_confirmation,
}
use supersurf_billing_phase.Paybill.Skipped.{IsIdle, IsSkipped, booked}
use supersurf_billing_phase.Paybill.Processed.{IsLinked, process_approved_ok}

module _ (u : Unicode) (settings : Settings) (operation_of : ℕ → ℕ) where
  -- Nothing was booked, or approved settings let the event's payment in.
  abbrev pub IsFirst : MpesaCallbackEvent → PaybillResult → Db → Db → Type 0
  IsFirst e result old new =
      IsIdle settings e result old new
      ⊎ ((settings.ingestion_enabled ≡ true)
          × (is_approved settings ≡ true)
          × IsLinked u settings operation_of e result old new)

  process_unlinked_ok :
      (e : MpesaCallbackEvent) (db db' : Db) (result : PaybillResult)
      → process_unlinked u settings operation_of e db ≡ (ok result, db')
      → IsFirst e result db db'
  unfolding process_unlinked
  process_unlinked_ok e db db' result h = elim (Bool-cases (not settings.ingestion_enabled)) [
    | inl off ↦
        let (answer, same) = pure_ok _ result db db' (rw off at h) in
        inl (
          subst (IsSkipped settings e) (ap (λ r. r.outcome) answer) (ground (arith, off)),
          sym (ap (λ r. r.payment) answer),
          sym (ap (λ r. r.link) answer),
          sym (ap booked same),
        )
    | inr on ↦
        let (approved, h1) = refuse_ok _ _ _ db (rw on at h) in
        elim (process_approved_ok u settings operation_of e db db' result h1) [
          | inl idle ↦ inl idle
          | inr linked ↦ inr (double_negation _ on, double_negation _ approved, linked)
        ]
  ]

  -- The event's link was there and is answered, or the event is processed for the first time.
  abbrev pub IsProcessed : MpesaCallbackEvent → PaybillResult → Db → Db → Type 0
  IsProcessed e result old new =
      ((l : MpesaCallbackPaymentLink) × (link_of u settings operation_of e.id old ≡ some l)
        × (result ≡ record {
          outcome = Outcome.already_processed;
          payment = payment_at l.payment_id old.payments;
          link = some l;
        })
        × (new ≡ old))
      ⊎ ((link_of u settings operation_of e.id old ≡ none) × IsFirst e result old new)

  process_event_ok :
      (e : MpesaCallbackEvent) (o : Option MpesaCallbackPaymentLink) (db db' : Db)
      (result : PaybillResult)
      → link_of u settings operation_of e.id db ≡ o
      → process_event u settings operation_of e o db ≡ (ok result, db')
      → IsProcessed e result db db'
  unfolding process_event
  process_event_ok e (some l) db db' result found h =
      let (answer, same) = gets_ok _ result db db' h in inl (l, found, sym answer, sym same)
  process_event_ok e none db db' result found h = inr (found, process_unlinked_ok e db db' result h)

  -- What the processing of a confirmation that returns has done, for the stored event with the given
  -- key. Where the event has a link already, the link and its payment are answered and nothing
  -- changes. Else either no money is booked and no payment is answered, for the reason that the outcome
  -- names: ingestion is not enabled, the event is no confirmation, it has no transaction ID, it has no
  -- amount, or one of nothing or above the largest, or its identifier is not the configured one. Or the
  -- settings are enabled and approved and the event passes all these tests; then the payment of its
  -- transaction ID, amount, time, account reference and digest, for the active sandbox Paybill profile
  -- with the configured identifier, was stored before, or is received under the event's operation ID,
  -- and one new link ties it to the event.
  pub process_confirmation_ok :
      (event : ℕ) (db db' : Db) (result : PaybillResult)
      → process_confirmation u settings operation_of event db ≡ (ok result, db')
      → (e : MpesaCallbackEvent) × (event_at event db.events ≡ some e) × IsProcessed e result db db'
  unfolding process_confirmation
  process_confirmation_ok event db db' result h =
      bind_then _ _ db (atomic_ok _ db h) λ e s1 found h1. bind_then _ _ s1 h1 λ link s2 looked h2.
        let (there, same1) = require_ok _ _ e db s1 found in
        let (at, same2) = gets_ok _ link s1 s2 looked in
        (
          e,
          there,
          subst (λ (d : Db). IsProcessed e result d db') (sym (same1 ∙ same2))
              (process_event_ok e link s2 db' result
                (ap (link_of u settings operation_of e.id) (sym same2) ∙ at) h2),
        )
