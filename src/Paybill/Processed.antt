-- ===== src/Paybill/Processed.antt =====
-- What the processing of a Paybill confirmation has done when it returns.
use mathlib.Core.Path.{subst}
use supersurf_billing_phase.Common.{
  ℕ, suc, ◌≡◌, refl, sym, ap, ◌∙◌, ◌⊎◌, inl, inr, true, false, not, ◌||◌, none, some, List, ◌∷◌,
  ◌==◌, ltb, find, find_sound, ◌<◌, ◌≤◌, Option-cases, double_negation, arith, strip, codes,
  text_eq-eq, text_eq_refl, Text, text_eq, is_blank, Unicode, Bool-cases,
}
use supersurf_billing_phase.Exec.{ok}
use supersurf_billing_phase.Exec.Runs.{bind_then, lift_ok, require_ok, pure_ok}
use supersurf_billing_phase.Schema.Choices.{Source, is_confirmation}
use supersurf_billing_phase.Schema.Rows.{
  MpesaCallbackEvent, MpesaCallbackPaymentLink, Payment, PaymentProviderProfile, Wallet,
}
use supersurf_billing_phase.Schema.Database.{Db}
use supersurf_billing_phase.Money.{max_money_minor, Exponent, ksh_to_minor_units, amount_column}
use supersurf_billing_phase.Money.Exact.{ksh_to_minor_units_iff}
use supersurf_billing_phase.Payments.References.{upper_text, normalize_account_reference}
use supersurf_billing_phase.Ledger.Save.{save_valid_ok}
use supersurf_billing_phase.Service.Lookup.{fresh, record_event}
use supersurf_billing_phase.Service.Effects.{Tables, tables}
use supersurf_billing_phase.Payments.Effects.{IsPlaced}
use supersurf_billing_phase.Payments.Ingest.{Ingestion, referenced}
use supersurf_billing_phase.Payments.Ingested.{IsKnown, IsReceived, ingest_payment_core_ok}
use supersurf_billing_phase.Stable.{IsStable}
use supersurf_billing_phase.Stable.Services.Payments.{ingest_payment_core-Keeps}
use supersurf_billing_phase.Paybill.Settings.{Settings, is_sandbox_paybill_profile}
use supersurf_billing_phase.Paybill.Link.{save_link}
use supersurf_billing_phase.Paybill.Process.{
  Outcome, PaybillResult, no_amount, cents_or_0, confirmation, link_row, is_configured,
  ingest_linked, process_amount, process_approved,
}
use supersurf_billing_phase.Paybill.Skipped.{IsSkipped, IsIdle, skip_ok}

abbrev Callbacks : Type 0
Callbacks = List MpesaCallbackPaymentLink × List MpesaCallbackEvent

abbrev callbacks : Db → Callbacks
callbacks db = (db.links, db.events)

-- No other service writes a link or an event.
links-IsStable : (old : Callbacks) → IsStable (λ db. old ≡ callbacks db)
links-IsStable old = record {
  key = λ db h. h;
  event = λ e db h. h;
  wallet = λ w db accepted h. h;
  entry = λ e db accepted h. h;
  period = λ p db accepted h. h;
  charge = λ c db accepted h. h;
  payment = λ u p db accepted h. h;
  allocation = λ a db accepted h. h;
  case = λ c db accepted h. h;
  resolution = λ c db accepted h. h;
  subscription = λ s db accepted h. h;
  ending = λ now s db accepted h. h;
}

-- What was ingested is seen by the money tables alone.
ingested_at :
    (u : Unicode) (r : Ingestion) (p : Payment) (old mid new : Db)
    → ◌≡◌ {A = Tables × List Wallet} (tables mid, mid.wallets) (tables new, new.wallets)
    → IsKnown u r p old mid ⊎ IsReceived u r p old mid
    → IsKnown u r p old new ⊎ IsReceived u r p old new
ingested_at u r p old mid new same (inl (member, contents, stays)) =
    inl (member, contents, sym (ap (λ t. t.0) same) ∙ stays)
ingested_at u r p old mid new same (inr (unused, contents, placed)) = inr (
  unused,
  contents,
  subst
      (λ (t : Tables × List Wallet).
        IsPlaced r p (referenced u r old)
          (old.entries, p ∷ old.payments, old.allocations, old.cases) t.0 t.1)
      same placed,
)

module _ (u : Unicode) (settings : Settings) (operation_of : ℕ → ℕ) where
  -- The payment that an event tells of, to be ingested under its operation ID.
  abbrev pub expected : MpesaCallbackEvent → ℕ → ℕ → Ingestion
  expected e profile amount = record {
    profile = profile;
    transaction = e.provider_transaction_id;
    amount = amount;
    received_at = e.received_at;
    reference = upper_text u (strip e.account_reference);
    operation = operation_of e.id;
    digest = e.payload_sha256;
    actor = none;
    source = Source.system;
    audit_reason = codes "sandbox_paybill_confirmation";
    callback = true;
  }

  -- The payment of the event was there with its contents, or has been received with them; it is
  -- linked to the event by one new row.
  pub record IsLinked (e : MpesaCallbackEvent) (result : PaybillResult) (old new : Db)
      : Type 0 where
    pub amount : ℕ
    pub profile : PaymentProviderProfile
    pub payment : Payment
    pub link : MpesaCallbackPaymentLink
    pub answer :
        result ≡ record { outcome = Outcome.processed; payment = some payment; link = some link }
    pub configured : find (is_configured u settings operation_of) old.profiles ≡ some profile
    pub active :
        (profile.is_active ≡ true)
        × (is_sandbox_paybill_profile profile ≡ true)
        × (profile.external_identifier ≡ settings.external_identifier)
    pub confirmed : is_confirmation e.event_type ≡ true
    pub named : is_blank e.provider_transaction_id ≡ false
    pub amount_lem : (e.amount ≡ some amount) × (0 < amount) × (amount ≤ max_money_minor)
    pub ours : e.provider_external_identifier ≡ settings.external_identifier
    pub ends : (link.callback_event_id ≡ e.id) × (link.payment_id ≡ payment.id)
    pub links : new.links ≡ link ∷ old.links
    pub events : new.events ≡ old.events
    pub ingested :
        IsKnown u (expected e profile.id amount) payment old new
        ⊎ IsReceived u (expected e profile.id amount) payment old new

  -- The tests that an event has passed before its payment is ingested.
  abbrev IsPassed : MpesaCallbackEvent → ℕ → Type 0
  IsPassed e amount =
      (is_confirmation e.event_type ≡ true)
      × (is_blank e.provider_transaction_id ≡ false)
      × (e.amount ≡ some amount)
      × (e.provider_external_identifier ≡ settings.external_identifier)

  configured_ok :
      (p : PaymentProviderProfile) (rows : List PaymentProviderProfile)
      → find (is_configured u settings operation_of) rows ≡ some p
      → (p.is_active ≡ true)
        × (is_sandbox_paybill_profile p ≡ true)
        × (p.external_identifier ≡ settings.external_identifier)
  configured_ok p rows h =
      let passed = find_sound (is_configured u settings operation_of) rows p h in
      (ground (arith, passed), ground (arith, passed), text_eq-eq _ _ (ground (arith, passed)))

  ingest_linked_ok :
      (e : MpesaCallbackEvent) (amount : ℕ) (db db' : Db) (result : PaybillResult)
      → IsPassed e amount
      → (0 < amount) × (amount ≤ max_money_minor)
      → ingest_linked u settings operation_of e amount db ≡ (ok result, db')
      → IsLinked e result db db'
  unfolding ingest_linked fresh record_event save_link normalize_account_reference
  ingest_linked_ok e amount db db' result passed bounded h =
      bind_then _ _ db h λ profile s1 configured h1. bind_then _ _ s1 h1 λ payment s2 ingested h2.
        bind_then _ _ s2 h2 λ k s3 drawn h3. bind_then _ _ s3 h3 λ link s4 saved h4.
          bind_then _ _ s4 h4 λ x s5 told h5.
            let (found, same1) = require_ok _ _ profile db s1 configured in
            let same3 : record s2 { next_id = suc s2.next_id } ≡ s3 = ap (λ x. x.1) drawn in
            let (row, same4) = save_valid_ok _ _ _ _ link s3 s4 saved in
            let same5 = ap (λ x. x.1) told in
            let (answer, same6) = pure_ok _ result s5 db' h5 in
            let r = confirmation u settings operation_of e profile.id amount in
            let linked : link_row u settings operation_of e payment k ∷ s2.links ≡ db'.links =
              ap (λ d. link_row u settings operation_of e payment k ∷ d.links) same3
              ∙ ap (λ d. d.links) same4
              ∙ ap (λ d. d.links) same5
              ∙ ap (λ d. d.links) same6 in
            let money : ◌≡◌ {A = Tables × List Wallet} (tables s2, s2.wallets)
                (tables db', db'.wallets) =
              ap (λ d. (tables d, d.wallets)) same3
              ∙ ap (λ d. (tables d, d.wallets)) same4
              ∙ ap (λ d. (tables d, d.wallets)) same5
              ∙ ap (λ d. (tables d, d.wallets)) same6 in
            let before : callbacks db ≡ callbacks s2 =
              ap callbacks same1
              ∙ (ingest_payment_core-Keeps (links-IsStable (callbacks s1)) u r).at s1 refl
              ∙ ap (λ x. callbacks x.1) ingested in
            let events : s2.events ≡ db'.events =
              ap (λ d. d.events) same3
              ∙ ap (λ d. d.events) same4
              ∙ ap (λ d. d.events) same5
              ∙ ap (λ d. d.events) same6 in
            let moved = ingest_payment_core_ok u r payment s1 s2 ingested in
            record {
              amount = amount;
              profile = profile;
              payment = payment;
              link = link;
              answer = sym answer;
              configured = found;
              active = configured_ok profile db.profiles found;
              confirmed = passed.0;
              named = passed.1;
              amount_lem = (passed.2, bounded.0, bounded.1);
              ours = passed.3;
              ends = (sym (ap (λ l. l.callback_event_id) row), sym (ap (λ l. l.payment_id) row));
              links = sym linked ∙ ap (λ l. l ∷ s2.links) row ∙ ap (λ x. link ∷ x.0) (sym before);
              events = sym (ap (λ x. x.1) before ∙ events);
              ingested = ingested_at u r payment db s2 db' money (
                  subst (λ (d : Db). IsKnown u r payment d s2 ⊎ IsReceived u r payment d s2)
                    (sym same1) moved);
            }

  process_amount_ok :
      (e : MpesaCallbackEvent) (amount : ℕ) (db db' : Db) (result : PaybillResult)
      → IsPassed e amount
      → process_amount u settings operation_of e amount db ≡ (ok result, db')
      → IsIdle settings e result db db' ⊎ IsLinked e result db db'
  unfolding process_amount
  process_amount_ok e amount db db' result passed h =
      elim (Bool-cases (amount == 0 || ltb max_money_minor amount)) [
        | inl bad ↦ inl (
            skip_ok settings e _ _ _ db db' result (inr (amount, passed.2, ground (arith, bad)))
              (rw bad at h))
        | inr good ↦
            inr
              (ingest_linked_ok e amount db db' result passed (ground (arith, good)) (rw good at h))
      ]

  counted_ok :
      (e : MpesaCallbackEvent) (amount : ℕ)
      → no_amount e.amount ≡ false
      → ksh_to_minor_units (amount_column (cents_or_0 e.amount)) ≡ ok amount
      → e.amount ≡ some amount
  counted_ok e amount given counted = elim (Option-cases e.amount) [
    | inl gone ↦ absurd (ground (arith, given, gone))
    | inr (n, is) ↦
        let counted_n : ksh_to_minor_units (amount_column n) ≡ ok amount =
          ap (λ o. ksh_to_minor_units (amount_column (cents_or_0 o))) (sym is) ∙ counted in
        let same = (ksh_to_minor_units_iff false n (Exponent.decimals 2) amount).0 counted_n in
        is ∙ ap (λ n. some n) (ground (arith, same.3))
  ]

  no_amount_ok :
      (e : MpesaCallbackEvent)
      → no_amount e.amount ≡ true
      → IsSkipped settings e Outcome.invalid_amount
  no_amount_ok e bad = elim (Option-cases e.amount) [
    | inl gone ↦ inl gone
    | inr (n, is) ↦ inr (n, is, inl (ground (arith, ap no_amount (sym is) ∙ bad)))
  ]

  other_identifier : (s t : Text) → not (text_eq s t) ≡ true → ¬ (s ≡ t)
  other_identifier s t h same =
      let equal : text_eq s t ≡ true = ap (text_eq s) (sym same) ∙ text_eq_refl s in
      ground (arith, h, equal)

  pub process_approved_ok :
      (e : MpesaCallbackEvent) (db db' : Db) (result : PaybillResult)
      → process_approved u settings operation_of e db ≡ (ok result, db')
      → IsIdle settings e result db db' ⊎ IsLinked e result db db'
  unfolding process_approved
  process_approved_ok e db db' result h = elim (Bool-cases (not (is_confirmation e.event_type))) [
    | inl other ↦
        inl (skip_ok settings e _ _ _ db db' result (ground (arith, other)) (rw other at h))
    | inr right ↦ elim (Bool-cases (is_blank e.provider_transaction_id)) [
      | inl missing ↦
          inl (skip_ok settings e _ _ _ db db' result missing (rw (right, missing) at h))
      | inr named ↦ elim (Bool-cases (no_amount e.amount)) [
        | inl bad ↦ inl (
            skip_ok settings e _ _ _ db db' result (no_amount_ok e bad)
              (rw (right, named, bad) at h))
        | inr good ↦
            elim (Bool-cases
              (not (text_eq e.provider_external_identifier settings.external_identifier))) [
                | inl elsewhere ↦ inl (
                    skip_ok settings e _ _ _ db db' result
                      (other_identifier e.provider_external_identifier settings.external_identifier
                        elsewhere)
                      (rw (right, named, good, elsewhere) at h))
                | inr ours ↦
                    bind_then _ _ db (rw (right, named, good, ours) at h) λ amount s1 counted h1.
                      let (is, same) = lift_ok _ amount db s1 counted in
                      process_amount_ok e amount db db' result
                        (
                          double_negation _ right,
                          named,
                          counted_ok e amount good is,
                          text_eq-eq _ _ (double_negation _ ours),
                        )
                        (ap (process_amount u settings operation_of e amount) same ∙ h1)
              ]
      ]
    ]
  ]
