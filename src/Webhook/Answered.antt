-- ===== src/Webhook/Answered.antt =====
-- The answers of the callback endpoint.
use supersurf_billing_phase.Common.{
  double_negation, ℕ, Bool, true, false, not, Option, none, some, List, ◌≡◌, refl, if◌then◌else◌,
  ◌⊎◌, inl, inr, length, Text, strip, ◌≤◌,
}
use supersurf_billing_phase.Schema.Choices.{EventType}
use supersurf_billing_phase.Schema.Json.{Json}
use supersurf_billing_phase.Schema.Database.{Db}
use supersurf_billing_phase.Callbacks.Extract.{Python}
use supersurf_billing_phase.Paybill.Settings.{Settings}
use supersurf_billing_phase.Webhook.{
  Request, Response, valid_callback_token, request_body_too_large, after_loads, after_token,
  mpesa_callback,
}
use supersurf_billing_phase.Webhook.Handled.{
  IsRefusal, IsHandled, valid_callback_token_ok, after_capture_ok,
}

if_ok :
    {A : Type 0} (P : A → Type 0) (b : Bool) {x y : A}
    → (b ≡ true → P x)
    → (b ≡ false → P y)
    → P (if b then x else y)
if_ok P true then_ok else_ok = then_ok refl
if_ok P false then_ok else_ok = else_ok refl

module _ (p : Python) (digest : Json → Text) (operation_of : ℕ → ℕ) (loads : List ℕ → Option Json)
    (int_of : Text → Option ℕ) (settings : Settings) (t : EventType) (now : ℕ) where
  -- The payload of the body was handed to the services.
  abbrev pub IsAdmitted : Request → Db → Response × Db → Type 0
  IsAdmitted request db r =
      (request.is_post ≡ true)
      × (request.token ≡ strip settings.callback_token)
      × (32 ≤ length request.token)
      × (request_body_too_large int_of request ≡ false)
      × (payload : Json) × (loads request.body ≡ some payload)
      × IsHandled p digest operation_of settings t payload now db r.0 r.1

  -- A refusal changes nothing; the rest is admitted.
  abbrev pub IsAnswered : Request → Db → Response × Db → Type 0
  IsAnswered request db r = (IsRefusal r.0 × (r.1 ≡ db)) ⊎ IsAdmitted request db r

  after_loads_ok :
      (request : Request) (o : Option Json) (db : Db)
      → request.is_post ≡ true
      → (request.token ≡ strip settings.callback_token) × (32 ≤ length request.token)
      → request_body_too_large int_of request ≡ false
      → loads request.body ≡ o
      → IsAnswered request db (after_loads p digest operation_of loads int_of settings t o now db)
  unfolding after_loads
  after_loads_ok request none db post token small read = inl (IsRefusal.malformed_json, refl)
  after_loads_ok request (some payload) db post token small read = inr (
    post,
    token.0,
    token.1,
    small,
    payload,
    read,
    after_capture_ok p digest operation_of settings t payload now db loads int_of _ refl,
  )

  after_token_ok :
      (request : Request) (o : Option Bool) (db : Db)
      → request.is_post ≡ true
      → valid_callback_token settings request.token ≡ o
      → IsAnswered request db
          (after_token p digest operation_of loads int_of settings request t o now db)
  unfolding after_token
  after_token_ok request none db post token = inl (IsRefusal.crashed, refl)
  after_token_ok request (some false) db post token = inl (IsRefusal.not_found, refl)
  after_token_ok request (some true) db post token =
      if_ok (IsAnswered request db) (request_body_too_large int_of request)
        (λ large. inl (IsRefusal.request_entity_too_large, refl))
        (λ small.
          after_loads_ok request (loads request.body) db post
            (valid_callback_token_ok settings request.token token) small refl)

  -- A request to the callback endpoint either is refused (405, 404, 413, 400, or the `TypeError` of a
  -- token that is not ASCII) and changes nothing; or it is a POST with the configured token, of at
  -- least 32 characters, and a body that is not too large and has a JSON payload, which is handled. If
  -- the capture raises, nothing changes and the answer is 500. If it returns, and the event is a
  -- conflict, or ingestion is not enabled, or this is no confirmation, the capture alone is done and the
  -- answer is 200. Else the event is also processed: if the processing returns, the answer is 200; if
  -- it raises, its failure is recorded too and the answer is 500.
  pub mpesa_callback_ok :
      (request : Request) (db : Db)
      → IsAnswered request db
          (mpesa_callback p digest operation_of loads int_of settings request t now db)
  unfolding mpesa_callback
  mpesa_callback_ok request db =
      if_ok (IsAnswered request db) (not request.is_post)
        (λ other. inl (IsRefusal.method_not_allowed, refl))
        (λ post. after_token_ok request _ db (double_negation request.is_post post) refl)
