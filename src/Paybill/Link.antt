-- ===== src/Paybill/Link.antt =====
-- `MpesaCallbackPaymentLink`: `full_clean` and `save` of a new row (billing/models.py).
use supersurf_billing_phase.Common.{
  ℕ, Bool, true, false, not, Option, none, some, List, [], ◌∷◌, ◌++◌, ◌==◌, is_some, find, exists,
  text_eq, strip, Unicode,
}
use supersurf_billing_phase.Exec.{Result, ok, err}
use supersurf_billing_phase.Errors.{Issue, Error}
use supersurf_billing_phase.Schema.Choices.{is_confirmation}
use supersurf_billing_phase.Schema.Rows.{
  MpesaCallbackEvent, MpesaCallbackPaymentLink, Payment, PaymentProviderProfile,
}
use supersurf_billing_phase.Schema.Database.{Db, Action}
use supersurf_billing_phase.Money.{ksh_to_minor_units, amount_column}
use supersurf_billing_phase.Validation.{Checks, collect}
use supersurf_billing_phase.Ledger.Save.{save_valid}
use supersurf_billing_phase.Payments.References.{upper_text}
use supersurf_billing_phase.Payments.Clean.{profile_at, payment_at}
use supersurf_billing_phase.Paybill.Settings.{is_sandbox_paybill_profile}

abbrev pub event_at : ℕ → List MpesaCallbackEvent → Option MpesaCallbackEvent
event_at k rows = find (λ e. e.id == k) rows

abbrev is_amount : ℕ → Result Error ℕ → Bool
is_amount n (ok m) = m == n
is_amount n (err e) = false

-- `event.amount is not None and ksh_to_minor_units(event.amount) == n`; a stored amount is positive
-- and has two places, so the conversion does not raise.
unfoldable pub amounts_to : ℕ → Option ℕ → Bool
unfolding ksh_to_minor_units
amounts_to n none = false
amounts_to n (some cents) = is_amount n (ksh_to_minor_units (amount_column cents))

abbrev pub insert_link : MpesaCallbackPaymentLink → Db → Db
insert_link l db = record db { links = l ∷ db.links }

module _ (u : Unicode) where
  abbrev profile_checks : MpesaCallbackEvent → Payment → Option PaymentProviderProfile → Checks
  profile_checks e p none = (true, Issue.row_missing) ∷ []
  profile_checks e p (some profile) =
      (not (is_sandbox_paybill_profile profile), Issue.not_sandbox_paybill)
      ∷ (
        not (text_eq e.provider_external_identifier profile.external_identifier),
        Issue.provider_differs,
      )
      ∷ []

  abbrev content_checks : MpesaCallbackEvent → Payment → Checks
  content_checks e p =
      (not (text_eq e.provider_transaction_id p.provider_transaction_id), Issue.transaction_differs)
      ∷ (not (amounts_to p.amount_minor e.amount), Issue.payment_amount_differs)
      ∷ (
        not (text_eq (upper_text u (strip e.account_reference)) p.account_reference),
        Issue.reference_differs,
      )
      ∷ (not (text_eq e.payload_sha256 p.payload_digest), Issue.digest_differs)
      ∷ []

  -- `MpesaCallbackPaymentLink.clean`, which reads the two rows that the link names.
  abbrev link_clean_checks :
      List PaymentProviderProfile → Option MpesaCallbackEvent → Option Payment → Checks
  link_clean_checks profiles (some e) (some p) =
      (not (is_confirmation e.event_type), Issue.not_a_confirmation)
        ∷ profile_checks e p (profile_at p.provider_profile_id profiles)
      ++ content_checks e p
  link_clean_checks profiles _ _ = []

  unfoldable pub link_full_clean : Db → MpesaCallbackPaymentLink → List Issue
  unfolding collect amounts_to
  link_full_clean db l =
      collect
        ((not (is_some (event_at l.callback_event_id db.events)), Issue.row_missing)
          ∷ (not (is_some (payment_at l.payment_id db.payments)), Issue.row_missing)
          ∷ [])
        (link_clean_checks db.profiles (event_at l.callback_event_id db.events)
          (payment_at l.payment_id db.payments))
        ((exists (λ r. r.id == l.id) db.links, Issue.id_taken)
          ∷ (exists (λ r. r.callback_event_id == l.callback_event_id) db.links, Issue.event_taken)
          ∷ (exists (λ r. r.payment_id == l.payment_id) db.links, Issue.payment_taken)
          ∷ [])

  unfoldable pub save_link : MpesaCallbackPaymentLink → Action MpesaCallbackPaymentLink
  unfolding save_valid
  save_link l db =
      save_valid (Error.invalid_row Issue.event_taken) (link_full_clean db l) (insert_link l) l db
