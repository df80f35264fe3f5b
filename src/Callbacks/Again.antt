-- ===== src/Callbacks/Again.antt =====
-- The same callback captured once more.
use supersurf_billing_phase.Common.{
  ℕ, suc, ◌≡◌, refl, sym, ap, ◌∙◌, inl, inr, Bool, true, false, not, Option, none, some, List, [],
  ◌∷◌, ◌++◌, find, Text, codes, text_eq, text_eq_refl, is_blank, is_space, lstrip, rstrip, strip,
  all_codes, ascii_lower, rstrip-strip, rstrip-++, rstrip-hex, ascii_lower-hex, strip-hex,
  is_lower_hex, length, arith, Bool-cases, ltb, if◌then◌else◌,
}
use supersurf_billing_phase.Exec.{ok, ◌>>=◌}
use supersurf_billing_phase.Exec.Runs.{bind_run, atomic_run}
use supersurf_billing_phase.Schema.Choices.{EventType}
use supersurf_billing_phase.Schema.Json.{Json}
use supersurf_billing_phase.Schema.Rows.{MpesaCallbackEvent}
use supersurf_billing_phase.Schema.Database.{Db}
use supersurf_billing_phase.Payments.References.{is_sha256}
use supersurf_billing_phase.Service.Lookup.{fresh, record_event}
use supersurf_billing_phase.Callbacks.Extract.{
  Python, str, normalize_text, coalesce, first_value, metadata_value,
}
use supersurf_billing_phase.Callbacks.Capture.{
  event_name, key_with, event_full_clean, find_event, insert_or_get, create_event_with,
  create_event, CapturedCallback, extract_callback_fields, event_row, report,
  capture_mpesa_callback,
}
use supersurf_billing_phase.Callbacks.Captured.{key_of, kept, capture_steps}

-- The text has no space at its end.
abbrev IsTrimmed : Option Text → Type 0
IsTrimmed none = Unit {0}
IsTrimmed (some t) = rstrip t ≡ t

if-IsTrimmed :
    (blank long : Bool) (t : Text)
    → rstrip t ≡ t
    → IsTrimmed (if blank then none else if long then none else some t)
if-IsTrimmed true long t h = tt
if-IsTrimmed false true t h = tt
if-IsTrimmed false false t h = h

normalize_text-IsTrimmed :
    (p : Python) (max : ℕ) (value : Option Json) → IsTrimmed (normalize_text p max false value)
unfolding normalize_text
normalize_text-IsTrimmed p max none = tt
normalize_text-IsTrimmed p max (some value) =
    if-IsTrimmed (is_blank (strip (str p value))) (ltb max (length (strip (str p value))))
      (strip (str p value)) (rstrip-strip (str p value))

strip-named :
    (t : EventType) (s : Text)
    → rstrip s ≡ s
    → is_blank s ≡ false
    → strip (event_name t ++ b':' ∷ s) ≡ event_name t ++ b':' ∷ s
unfolding strip lstrip is_space
strip-named EventType.c2b_validation s h filled = rstrip-++ (codes "c2b_validation:") s h filled
strip-named EventType.c2b_confirmation s h filled = rstrip-++ (codes "c2b_confirmation:") s h filled
strip-named EventType.stk_result s h filled = rstrip-++ (codes "stk_result:") s h filled

strip-digest :
    (t : EventType) (d : ℕ) (digest : Text)
    → is_sha256 (d ∷ digest) ≡ true
    → strip (event_name t ++ codes ":sha256:" ++ d ∷ digest)
      ≡ event_name t ++ codes ":sha256:" ++ d ∷ digest
unfolding strip lstrip is_space is_sha256
strip-digest EventType.c2b_validation d digest h =
    rstrip-++ (codes "c2b_validation:sha256:") (d ∷ digest) (rstrip-hex _ (ground (arith, h))) refl
strip-digest EventType.c2b_confirmation d digest h =
    rstrip-++ (codes "c2b_confirmation:sha256:") (d ∷ digest) (rstrip-hex _ (ground (arith, h)))
      refl
strip-digest EventType.stk_result d digest h =
    rstrip-++ (codes "stk_result:sha256:") (d ∷ digest) (rstrip-hex _ (ground (arith, h))) refl

key_with-strip :
    (t : EventType) (digest : Text) (value : Option Text)
    → is_sha256 digest ≡ true
    → IsTrimmed value
    → strip (key_with t digest value) ≡ key_with t digest value
unfolding is_sha256
key_with-strip t [] none h trimmed = cc
key_with-strip t [] (some []) h trimmed = cc
key_with-strip t (d ∷ digest) none h trimmed = strip-digest t d digest h
key_with-strip t (d ∷ digest) (some []) h trimmed = strip-digest t d digest h
key_with-strip t digest (some (c ∷ value)) h trimmed = strip-named t (c ∷ value) trimmed refl

module _ (p : Python) (digest : Json → Text) where
  -- The key of an event is stripped.
  key-strip :
      (t : EventType) (payload : Json)
      → is_sha256 (digest payload) ≡ true
      → strip (key_of p digest t payload) ≡ key_of p digest t payload
  unfolding extract_callback_fields
  key-strip EventType.c2b_validation payload h = key_with-strip EventType.c2b_validation _ _ h (
      normalize_text-IsTrimmed p 128 (
        coalesce (first_value p (codes "TransID") payload)
          (metadata_value p (codes "MpesaReceiptNumber") payload)))
  key-strip EventType.c2b_confirmation payload h = key_with-strip EventType.c2b_confirmation _ _ h (
      normalize_text-IsTrimmed p 128 (
        coalesce (first_value p (codes "TransID") payload)
          (metadata_value p (codes "MpesaReceiptNumber") payload)))
  key-strip EventType.stk_result payload h =
      key_with-strip EventType.stk_result _ _ h
        (normalize_text-IsTrimmed p 128 (first_value p (codes "CheckoutRequestID") payload))

-- The creation of a row whose key is taken answers the row that has it.
create_taken :
    (e old : MpesaCallbackEvent) (db : Db)
    → event_full_clean e ≡ []
    → strip e.idempotency_key ≡ e.idempotency_key
    → find_event e.idempotency_key db ≡ some old
    → create_event e db ≡ (ok (old, false), db)
unfolding create_event create_event_with insert_or_get
create_taken e old db clean stripped found = rw (clean, stripped, found) (rw found refl)

-- The answer for an event that was there.
report_old :
    (d : Text) (event : MpesaCallbackEvent) (db : Db)
    → ((report d (event, false) db).0
        ≡ ok (record {
          event = event;
          created = false;
          conflicting_duplicate = not (text_eq event.payload_sha256 d);
        }))
      × (kept (report d (event, false) db).1 ≡ kept db)
unfolding report record_event ◌>>=◌
report_old d event db = elim (Bool-cases (text_eq event.payload_sha256 d)) [
  | inl equal ↦ (rw equal refl, rw equal refl)
  | inr differs ↦ (rw differs refl, rw differs refl)
]

find_first :
    (e : MpesaCallbackEvent) (key : Text) (rows : List MpesaCallbackEvent)
    → e.idempotency_key ≡ key
    → find (λ (e : MpesaCallbackEvent). text_eq e.idempotency_key key) (e ∷ rows) ≡ some e
find_first e key rows same = rw (same, text_eq_refl key) refl

same_digest :
    (d d' : Text) → is_sha256 d ≡ true → ascii_lower (strip d) ≡ d' → not (text_eq d' d) ≡ false
unfolding is_sha256
same_digest d d' h same =
    let hex : all_codes is_lower_hex d ≡ true = ground (arith, h) in
    let back : d' ≡ d = sym same ∙ ap ascii_lower (strip-hex d hex) ∙ ascii_lower-hex d hex in
    rw (back, text_eq_refl d) refl

module _ (p : Python) (digest : Json → Text) (t : EventType) (payload : Json) where
  -- What a capture that returned leaves behind under the key.
  captured_at :
      (now : ℕ) (db db' : Db) (c : CapturedCallback)
      → is_sha256 (digest payload) ≡ true
      → capture_mpesa_callback p digest t payload now db ≡ (ok c, db')
      → (find_event (key_of p digest t payload) db' ≡ some c.event)
        × (c.conflicting_duplicate ≡ not (text_eq c.event.payload_sha256 (digest payload)))
        × (event_full_clean (event_row p digest t payload (extract_callback_fields p payload) now 0)
            ≡ [])
  unfolding event_full_clean
  captured_at now db db' c h run =
      let (k, s1, s2, same1, clean, recorded, same2, conflict) =
        capture_steps p digest t payload now db db' c run in
      elim recorded [
        | inl (old, found, same) ↦ (
          rw (sym (ap (λ x. x.0) same2), sym (ap (λ d. d.events) same)) found,
          rw old at conflict,
          clean,
        )
        | inr (new, row, free, same) ↦
            let key : c.event.idempotency_key ≡ key_of p digest t payload =
              sym (ap (λ e. e.idempotency_key) row) ∙ key-strip p digest t payload h in
            let table : c.event ∷ s1.events ≡ db'.events =
              ap (λ e. e ∷ s1.events) (sym row) ∙ ap (λ d. d.events) same ∙ ap (λ x. x.0) same2 in
            let differs = same_digest (digest payload) _ h (ap (λ e. e.payload_sha256) row) in
            (
              rw (sym table) (find_first c.event _ s1.events key),
              rw new at conflict ∙ sym differs,
              clean,
            )
      ]

  -- A callback that is captured once more is answered by the same event, as a duplicate that conflicts
  -- where the first capture did, at any time; no event is added and no money is touched. The digest of
  -- the payload is a SHA-256.
  pub capture_mpesa_callback-again :
      (now later : ℕ) (db db' : Db) (c : CapturedCallback)
      → is_sha256 (digest payload) ≡ true
      → capture_mpesa_callback p digest t payload now db ≡ (ok c, db')
      → ((capture_mpesa_callback p digest t payload later db').0
          ≡ ok (record c { created = false }))
        × (kept (capture_mpesa_callback p digest t payload later db').1 ≡ kept db')
  unfolding capture_mpesa_callback fresh event_full_clean
  capture_mpesa_callback-again now later db db' c h run =
      let (found, conflict, clean) = captured_at now db db' c h run in
      let s1 = record db' { next_id = suc db'.next_id } in
      let e = event_row p digest t payload (extract_callback_fields p payload) later db'.next_id in
      let taken : create_event e s1 ≡ (ok (c.event, false), s1) =
        create_taken e c.event s1 clean (key-strip p digest t payload h) found in
      let (answer, same) = report_old (digest payload) c.event s1 in
      let runs : capture_mpesa_callback p digest t payload later db'
          ≡ report (digest payload) (c.event, false) s1 =
        bind_run _ _ db' (atomic_run _ db' (bind_run _ _ db' refl ∙ taken)) in
      rw runs (
        answer
            ∙ ap (λ b. ok (record { event = c.event; created = false; conflicting_duplicate = b }))
                (sym conflict),
        same,
      )
