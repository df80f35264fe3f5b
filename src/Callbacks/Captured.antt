-- ===== src/Callbacks/Captured.antt =====
-- What the capture of a callback has done when it returns.
use supersurf_billing_phase.Common.{
  ◌&&◌, ℕ, ◌≡◌, refl, sym, ap, ◌∙◌, ◌⊎◌, inl, inr, Bool, true, false, not, Option, none, some, List,
  [], ◌∷◌, find, Text, codes, text_eq, Bool-cases,
}
use supersurf_billing_phase.Exec.{Result, ok, err, ◌>>=◌}
use supersurf_billing_phase.Exec.Runs.{bind_err, atomic_err, atomic_ok, bind_then, pure_ok}
use supersurf_billing_phase.Errors.{Issue, Error}
use supersurf_billing_phase.Schema.Choices.{EventType}
use supersurf_billing_phase.Schema.Json.{Json}
use supersurf_billing_phase.Schema.Rows.{
  MpesaCallbackEvent, Payment, PaymentAllocation, LedgerEntry,
}
use supersurf_billing_phase.Schema.Database.{Db}
use supersurf_billing_phase.Service.Lookup.{fresh, record_event}
use supersurf_billing_phase.Callbacks.Sanitize.{is_sensitive_key}
use supersurf_billing_phase.Callbacks.Hidden.{Hidden, hidden}
use supersurf_billing_phase.Callbacks.Extract.{Python}
use supersurf_billing_phase.Callbacks.Capture.{
  idempotency_key, cleaned_event, event_full_clean, find_event, insert_event, got, insert_or_get,
  create_event_with, create_event, CapturedCallback, extract_callback_fields, event_row, report,
  capture_mpesa_callback,
}

-- The event is there already under the key; or it is one new row, whose key was free.
abbrev Recorded : MpesaCallbackEvent → Db → Db → MpesaCallbackEvent → Bool → Type 0
Recorded e db db' saved created =
    ((created ≡ false) × (find_event e.idempotency_key db ≡ some saved) × (db ≡ db'))
    ⊎ ((created ≡ true)
        × (cleaned_event e ≡ saved)
        × (find_event (cleaned_event e).idempotency_key db ≡ none)
        × (insert_event (cleaned_event e) db ≡ db'))

insert_or_get_ok :
    (e : MpesaCallbackEvent) (o found : Option MpesaCallbackEvent) (db db' : Db)
    (saved : MpesaCallbackEvent) (created : Bool)
    → find_event (cleaned_event e).idempotency_key db ≡ o
    → find_event e.idempotency_key db ≡ found
    → insert_or_get (cleaned_event e) e.idempotency_key o db ≡ (ok (saved, created), db')
    → Recorded e db db' saved created
unfolding insert_or_get
insert_or_get_ok e (some taken) (some old) db db' saved created at_key found h =
    let answer : ◌≡◌ {A = Result Error (MpesaCallbackEvent × Bool)} (ok (old, false))
        (ok (saved, created)) =
      ap got (sym found) ∙ ap (λ x. x.0) h in
    inl (cc, found ∙ cc, ap (λ x. x.1) h)
insert_or_get_ok e (some taken) none db db' saved created at_key found h =
    let answer : ◌≡◌ {A = Result Error (MpesaCallbackEvent × Bool)} (err Error.does_not_exist)
        (ok (saved, created)) =
      ap got (sym found) ∙ ap (λ x. x.0) h in
    cc
insert_or_get_ok e none found db db' saved created at_key is h =
    inr (cc, cc, at_key, ap (λ x. x.1) h)

create_event_with_ok :
    (e : MpesaCallbackEvent) (issues : List Issue) (db db' : Db) (saved : MpesaCallbackEvent)
    (created : Bool)
    → create_event_with (cleaned_event e) e.idempotency_key issues db ≡ (ok (saved, created), db')
    → (issues ≡ []) × Recorded e db db' saved created
unfolding create_event_with
create_event_with_ok e [] db db' saved created h = (
  refl,
  insert_or_get_ok e (find_event (cleaned_event e).idempotency_key db)
      (find_event e.idempotency_key db) db db' saved created refl refl h,
)
create_event_with_ok e (issue ∷ issues) db db' saved created h = cc

create_event_ok :
    (e : MpesaCallbackEvent) (db db' : Db) (saved : MpesaCallbackEvent) (created : Bool)
    → create_event e db ≡ (ok (saved, created), db')
    → (event_full_clean e ≡ []) × Recorded e db db' saved created
unfolding create_event
create_event_ok e db db' saved created h =
    create_event_with_ok e (event_full_clean e) db db' saved created h

-- The tables that hold money and what was captured.
abbrev pub Kept : Type 0
Kept = List MpesaCallbackEvent × List Payment × List PaymentAllocation × List LedgerEntry

abbrev pub kept : Db → Kept
kept db = (db.events, db.payments, db.allocations, db.entries)

report_ok :
    (d : Text) (event : MpesaCallbackEvent) (created : Bool) (db db' : Db) (c : CapturedCallback)
    → report d (event, created) db ≡ (ok c, db')
    → (c.event ≡ event)
      × (c.created ≡ created)
      × (c.conflicting_duplicate ≡ (not created && not (text_eq event.payload_sha256 d)))
      × (kept db ≡ kept db')
unfolding report record_event
report_ok d event true db db' c h =
    let (answer, same) = pure_ok _ c db db' h in
    (
      sym (ap (λ x. x.event) answer),
      sym (ap (λ x. x.created) answer),
      sym (ap (λ x. x.conflicting_duplicate) answer),
      ap kept same,
    )
report_ok d event false db db' c h = elim (Bool-cases (text_eq event.payload_sha256 d)) [
  | inl equal ↦
      let (answer, same) = pure_ok _ c db db' (rw equal at h) in
      (
        sym (ap (λ x. x.event) answer),
        sym (ap (λ x. x.created) answer),
        sym (ap (λ x. x.conflicting_duplicate) answer) ∙ rw equal refl,
        ap kept same,
      )
  | inr differs ↦ bind_then _ _ db (rw differs at h) λ x s1 recorded h1.
      let (answer, same) = pure_ok _ c s1 db' h1 in
      (
        sym (ap (λ x. x.event) answer),
        sym (ap (λ x. x.created) answer),
        sym (ap (λ x. x.conflicting_duplicate) answer) ∙ rw differs refl,
        ap (λ r. kept r.1) recorded ∙ ap kept same,
      )
]

returned_err : {A C : Type 0} {a : A} {e : Error} → ok a ≡ err e → C
returned_err h = cc

report_returns :
    {C : Type 0} (d : Text) (event : MpesaCallbackEvent) (created : Bool) (db : Db) (e : Error)
    → (report d (event, created) db).0 ≡ err e
    → C
unfolding report record_event ◌>>=◌
report_returns d event true db e h = cc
report_returns d event false db e h = elim (Bool-cases (text_eq event.payload_sha256 d)) [
  | inl equal ↦ returned_err (rw equal at h)
  | inr differs ↦ returned_err (rw differs at h)
]

module _ (p : Python) (digest : Json → Text) (t : EventType) (payload : Json) where
  abbrev pub key_of : Text
  key_of = idempotency_key t (extract_callback_fields p payload) (digest payload)

  -- The steps of a capture that returned.
  pub capture_steps :
      (now : ℕ) (db db' : Db) (c : CapturedCallback)
      → capture_mpesa_callback p digest t payload now db ≡ (ok c, db')
      → (k : ℕ) × (s1 : Db) × (s2 : Db) × (kept db ≡ kept s1)
        × (event_full_clean (event_row p digest t payload (extract_callback_fields p payload) now k)
            ≡ [])
        × Recorded
            (event_row p digest t payload (extract_callback_fields p payload) now k)
            s1
            s2
            c.event
            c.created
        × (kept s2 ≡ kept db')
        × (c.conflicting_duplicate
            ≡ (not c.created && not (text_eq c.event.payload_sha256 (digest payload))))
  unfolding capture_mpesa_callback fresh
  capture_steps now db db' c h = bind_then _ _ db h λ saved s2 stored h2.
      bind_then _ _ db (atomic_ok _ db stored) λ k s1 drawn written.
        let (event, created, conflict, same) =
          report_ok (digest payload) saved.0 saved.1 s2 db' c h2 in
        let (clean, recorded) = create_event_ok _ s1 s2 saved.0 saved.1 written in
        (
          k,
          s1,
          s2,
          ap (λ x. kept x.1) drawn,
          clean,
          rw (event, created) recorded,
          same,
          rw (event, created) conflict,
        )

  -- A capture that raised wrote nothing.
  pub capture_err :
      (now : ℕ) (db : Db) (e : Error)
      → (capture_mpesa_callback p digest t payload now db).0 ≡ err e
      → (capture_mpesa_callback p digest t payload now db).1 ≡ db
  unfolding capture_mpesa_callback
  capture_err now db e h =
      elim (bind_err _ _ db (λ i. (h i, (capture_mpesa_callback p digest t payload now db).1))) [
        | inl raised ↦ sym (ap (λ x. x.1) raised) ∙ atomic_err _ db (ap (λ x. x.0) raised)
        | inr (saved, s1, stored, raised) ↦
            report_returns _ saved.0 saved.1 s1 e (ap (λ x. x.0) raised)
      ]

  -- What a capture that returns has done. Either the event is new: one row, under a key that no event
  -- had, of the given type, whose payload hides everything sensitive; or an event with the key was
  -- there, which is returned, and the call says whether its payload has another digest. Money is not
  -- touched. The key `Name` is not sensitive.
  pub capture_mpesa_callback_ok :
      (now : ℕ) (db db' : Db) (c : CapturedCallback)
      → is_sensitive_key p.unicode (codes "Name") ≡ false
      → capture_mpesa_callback p digest t payload now db ≡ (ok c, db')
      → (((c.created ≡ true)
            × (c.conflicting_duplicate ≡ false)
            × (db'.events ≡ c.event ∷ db.events)
            × (find_event c.event.idempotency_key db ≡ none)
            × (c.event.event_type ≡ t)
            × Hidden p.unicode c.event.sanitized_payload)
          ⊎ ((c.created ≡ false)
              × (c.conflicting_duplicate ≡ not (text_eq c.event.payload_sha256 (digest payload)))
              × (db'.events ≡ db.events)
              × (find_event key_of db ≡ some c.event)))
        × (db'.payments ≡ db.payments)
        × (db'.allocations ≡ db.allocations)
        × (db'.entries ≡ db.entries)
  capture_mpesa_callback_ok now db db' c plain h =
      let (k, s1, s2, same1, clean, recorded, same2, conflict) = capture_steps now db db' c h in
      elim recorded [
        | inl (old, found, same) ↦
            let all : kept db' ≡ kept db = sym (same1 ∙ ap kept same ∙ same2) in
            let there : find_event key_of db ≡ some c.event =
              ap (find (λ (e : MpesaCallbackEvent). text_eq e.idempotency_key key_of))
                (ap (λ x. x.0) same1)
              ∙ found in
            (
              inr (old, rw old at conflict, ap (λ x. x.0) all, there),
              ap (λ x. x.1) all,
              ap (λ x. x.2) all,
              ap (λ x. x.3) all,
            )
        | inr (new, row, free, same) ↦
            let row_is = event_row p digest t payload (extract_callback_fields p payload) now k in
            let table : db'.events ≡ cleaned_event row_is ∷ db.events = sym (
              ap (λ l. cleaned_event row_is ∷ l) (ap (λ x. x.0) same1)
              ∙ ap (λ d. d.events) same
              ∙ ap (λ x. x.0) same2) in
            let key_free : find_event (cleaned_event row_is).idempotency_key db ≡ none =
              ap
                (find (λ (e : MpesaCallbackEvent).
                  text_eq e.idempotency_key (cleaned_event row_is).idempotency_key))
                (ap (λ x. x.0) same1)
              ∙ free in
            (
              inl (
                new,
                rw new at conflict,
                table ∙ ap (λ e. e ∷ db.events) row,
                rw (sym row) key_free,
                sym (ap (λ e. e.event_type) row),
                rw (sym row) (hidden p.unicode plain [] payload),
              ),
              sym (ap (λ x. x.1) same1 ∙ ap (λ d. d.payments) same ∙ ap (λ x. x.1) same2),
              sym (ap (λ x. x.2) same1 ∙ ap (λ d. d.allocations) same ∙ ap (λ x. x.2) same2),
              sym (ap (λ x. x.3) same1 ∙ ap (λ d. d.entries) same ∙ ap (λ x. x.3) same2),
            )
      ]
