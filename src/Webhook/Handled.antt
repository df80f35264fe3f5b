-- ===== src/Webhook/Handled.antt =====
-- What a request to the callback endpoint may do.
use mathlib.Core.Path.{subst}
use supersurf_billing_phase.Common.{
  ℕ, ◌⊎◌, true, false, ◌&&◌, Option, some, List, [], ◌∷◌, ◌≡◌, refl, sym, ap, ◌∙◌, inl, inr, ltb,
  length, Text, text_eq, text_eq-eq, strip, all_codes, Bool-cases, ◌≤◌, arith,
}
use supersurf_billing_phase.Exec.{Result, ok, err}
use supersurf_billing_phase.Errors.{Error}
use supersurf_billing_phase.Schema.Choices.{EventType, is_confirmation}
use supersurf_billing_phase.Schema.Json.{Json}
use supersurf_billing_phase.Schema.Database.{Db}
use supersurf_billing_phase.Service.Lookup.{record_event}
use supersurf_billing_phase.Callbacks.Extract.{Python}
use supersurf_billing_phase.Callbacks.Capture.{CapturedCallback, capture_mpesa_callback}
use supersurf_billing_phase.Callbacks.Captured.{capture_err}
use supersurf_billing_phase.Paybill.Settings.{Settings}
use supersurf_billing_phase.Paybill.Process.{PaybillResult, process_confirmation, record_failure}
use supersurf_billing_phase.Calls.{Call, perform, run}
use supersurf_billing_phase.Calls.Stable.{outcome_db}
use supersurf_billing_phase.Webhook.{
  Response, compare_digest, valid_callback_token, failure_reason, after_processing, after_capture,
}

-- The request is refused before anything is read from the database.
pub data IsRefusal : Response → Type 0 where
  method_not_allowed : IsRefusal Response.method_not_allowed
  not_found : IsRefusal Response.not_found
  request_entity_too_large : IsRefusal Response.request_entity_too_large
  malformed_json : IsRefusal Response.malformed_json
  crashed : IsRefusal Response.crashed

compare_digest_ok : (a b : Text) → compare_digest a b ≡ some true → a ≡ b
unfolding compare_digest all_codes text_eq
compare_digest_ok a b h = text_eq-eq a b (ground (arith, h))

pub valid_callback_token_ok :
    (settings : Settings) (token : Text)
    → valid_callback_token settings token ≡ some true
    → (token ≡ strip settings.callback_token) × (32 ≤ length token)
unfolding valid_callback_token
valid_callback_token_ok settings token h =
    elim (Bool-cases (ltb (length (strip settings.callback_token)) 32)) [
      | inl short ↦ cc (rw short at h)
      | inr long ↦
          let same = compare_digest_ok token _ (rw long at h) in
          (same, rw same (ground (arith, long)))
    ]

module _ (p : Python) (digest : Json → Text) (operation_of : ℕ → ℕ) (settings : Settings)
    (t : EventType) (payload : Json) (now : ℕ) (db : Db) where
  abbrev pub capture : Call
  capture = Call.capture p digest t payload now

  abbrev pub confirm : CapturedCallback → Call
  confirm c = Call.confirm settings operation_of c.event.id

  -- The capture returned an event that is no conflict, and confirmations are processed.
  abbrev pub IsProcessable : CapturedCallback → Type 0
  IsProcessable c =
      ((capture_mpesa_callback p digest t payload now db).0 ≡ ok c)
      × (c.conflicting_duplicate ≡ false)
      × (settings.ingestion_enabled ≡ true)
      × (is_confirmation t ≡ true)

  -- The captured event is a conflict, or confirmations are not processed, or it is none.
  abbrev pub IsLeft : CapturedCallback → Type 0
  IsLeft c =
      (c.conflicting_duplicate ≡ true)
      ⊎ (settings.ingestion_enabled ≡ false)
      ⊎ (is_confirmation t ≡ false)

  off-IsLeft :
      (c : CapturedCallback) → settings.ingestion_enabled && is_confirmation t ≡ false → IsLeft c
  off-IsLeft c off = elim (Bool-cases settings.ingestion_enabled) [
    | inr closed ↦ inr (inl closed)
    | inl opened ↦ inr (inr (ground (arith, off, opened)))
  ]

  -- The answer of the processing, which starts where the capture ended.
  answered :
      (c : CapturedCallback) (s : Db) (r : Result Error PaybillResult)
      → run p.unicode (capture ∷ []) db ≡ s
      → (process_confirmation p.unicode settings operation_of c.event.id s).0 ≡ r
      → (process_confirmation p.unicode settings operation_of c.event.id
          (run p.unicode (capture ∷ []) db)).0
        ≡ r
  answered c s r at there =
      ap (λ d. (process_confirmation p.unicode settings operation_of c.event.id d).0) at ∙ there

  -- What the endpoint does with an admitted payload, as calls of the services.
  pub data IsHandled : Response → Db → Type 0 where
    not_captured :
        (e : Error)
        → (capture_mpesa_callback p digest t payload now db).0 ≡ err e
        → IsHandled Response.callback_capture_failed db
    captured :
        (c : CapturedCallback)
        → (capture_mpesa_callback p digest t payload now db).0 ≡ ok c
        → IsLeft c
        → IsHandled Response.accepted (run p.unicode (capture ∷ []) db)
    processed :
        (c : CapturedCallback) (result : PaybillResult)
        → IsProcessable c
        → (process_confirmation p.unicode settings operation_of c.event.id
            (run p.unicode (capture ∷ []) db)).0
          ≡ ok result
        → IsHandled Response.accepted (run p.unicode (capture ∷ confirm c ∷ []) db)
    failed :
        (c : CapturedCallback) (e : Error)
        → IsProcessable c
        → (process_confirmation p.unicode settings operation_of c.event.id
            (run p.unicode (capture ∷ []) db)).0
          ≡ err e
        → IsHandled Response.callback_processing_failed
            (run p.unicode (capture ∷ confirm c ∷ Call.fail c.event.id (failure_reason e) ∷ []) db)

  performed :
      (c : CapturedCallback) (s s' : Db) (r : Result Error PaybillResult)
      → run p.unicode (capture ∷ []) db ≡ s
      → process_confirmation p.unicode settings operation_of c.event.id s ≡ (r, s')
      → run p.unicode (capture ∷ confirm c ∷ []) db ≡ s'
  performed c s s' r at there =
      ap (perform p.unicode (confirm c)) at ∙ outcome_db _ ∙ ap (λ x. x.1) there

  after_processing_ok :
      (c : CapturedCallback) (s : Db) (y : Result Error PaybillResult × Db)
      → IsProcessable c
      → run p.unicode (capture ∷ []) db ≡ s
      → process_confirmation p.unicode settings operation_of c.event.id s ≡ y
      → IsHandled (after_processing c.event.id y).0 (after_processing c.event.id y).1
  unfolding after_processing record_failure record_event
  after_processing_ok c s (ok r, s') ready at there =
      subst (IsHandled Response.accepted) (performed c s s' (ok r) at there)
        (processed c r ready (answered c s (ok r) at (ap (λ x. x.0) there)))
  after_processing_ok c s (err e, s') ready at there =
      subst (IsHandled Response.callback_processing_failed)
        (ap (perform p.unicode (Call.fail c.event.id (failure_reason e)))
          (performed c s s' (err e) at there))
        (failed c e ready (answered c s (err e) at (ap (λ x. x.0) there)))

  module _ (loads : List ℕ → Option Json) (int_of : Text → Option ℕ) where
    pub after_capture_ok :
        (x : Result Error CapturedCallback × Db)
        → capture_mpesa_callback p digest t payload now db ≡ x
        → let r = after_capture p digest operation_of loads int_of settings t x in IsHandled r.0 r.1
    unfolding after_capture
    after_capture_ok (err e, s) at =
        subst (IsHandled Response.callback_capture_failed)
          (sym (capture_err p digest t payload now db e (ap (λ x. x.0) at)) ∙ ap (λ x. x.1) at)
          (not_captured e (ap (λ x. x.0) at))
    after_capture_ok (ok c, s) at =
        let stored : run p.unicode (capture ∷ []) db ≡ s = outcome_db _ ∙ ap (λ x. x.1) at in
        let quiet = λ (left : IsLeft c).
          subst (IsHandled Response.accepted) stored (captured c (ap (λ x. x.0) at) left) in
        elim (Bool-cases c.conflicting_duplicate) [
          | inl conflict ↦ rw conflict (quiet (inl conflict))
          | inr fresh ↦ elim (Bool-cases (settings.ingestion_enabled && is_confirmation t)) [
            | inl on ↦
                rw (fresh, on)
                  (after_processing_ok c s _
                    (ap (λ x. x.0) at, fresh, ground (arith, on), ground (arith, on)) stored refl)
            | inr off ↦ rw (fresh, off) (quiet (off-IsLeft c off))
          ]
        ]
