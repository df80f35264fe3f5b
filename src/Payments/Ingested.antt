-- ===== src/Payments/Ingested.antt =====
-- What the ingestion of a payment has done when it returns.
use supersurf_billing_phase.Common.{
  suc, ℕ, Text, codes, strip, ascii_lower, text_eq-eq, find, find_sound, find_IsIn, IsIn, ◌≡◌, sym,
  refl, ap, ◌∙◌, ◌⊎◌, inl, inr, Bool, true, false, Option, none, some, List, [], ◌∷◌, Bool-cases,
  Option-cases, arith,
}
use supersurf_billing_phase.Exec.{ok, lift}
use supersurf_billing_phase.Exec.Runs.{bind_then, lift_ok, gets_ok, ask_ok}
use supersurf_billing_phase.Errors.{Issue}
use supersurf_billing_phase.Schema.Rows.{Payment, Subscriber, Wallet}
use supersurf_billing_phase.Schema.Database.{Db}
use supersurf_billing_phase.Service.Lookup.{fresh, record_event}
use supersurf_billing_phase.Service.Effects.{Tables, tables}
use supersurf_billing_phase.Common.{Unicode}
use supersurf_billing_phase.Payments.References.{upper_text}
use supersurf_billing_phase.Payments.Clean.{cleaned_payment, same_transaction}
use supersurf_billing_phase.Payments.Save.{
  find_payment, insert_payment, or_existing, create_payment_with, create_payment, reject_conflicts,
}
use supersurf_billing_phase.Payments.Ingest.{
  Ingestion, is_equivalent, equivalent, payment_row, referenced, place, place_new, ingest_new,
  ingest_existing, ingest_payment_core,
}
use supersurf_billing_phase.Payments.Effects.{IsPlaced, place_ok}

IsPlaced-at :
    (r : Ingestion) {p q : Payment} {s s' : Option Subscriber} {old old' : Tables} (new : Tables)
    (wallets : List Wallet)
    → p ≡ q
    → s ≡ s'
    → old ≡ old'
    → IsPlaced r p s old new wallets
    → IsPlaced r q s' old' new wallets
IsPlaced-at r new wallets same_payment same_subject same_tables h =
    rw (← same_payment, ← same_subject, ← same_tables) h

-- A test has one outcome.
not_both : {b : Bool} → b ≡ true → b ≡ false → ⊥
not_both h k = cc

module _ (u : Unicode) (r : Ingestion) where
  -- The columns of the arguments' payment, under the given spelling of its texts.
  pub record IsContents (transaction reference digest : Text) (p : Payment) : Type 0 where
    pub profile : p.provider_profile_id ≡ r.profile
    pub transaction_lem : p.provider_transaction_id ≡ transaction
    pub amount : p.amount_minor ≡ r.amount
    pub currency : p.currency ≡ codes "KES"
    pub received_at : p.received_at ≡ r.received_at
    pub reference_lem : p.account_reference ≡ reference
    pub digest_lem : p.payload_digest ≡ digest

  -- The payment was there before, with the contents of the arguments.
  abbrev pub IsKnown : Payment → Db → Db → Type 0
  IsKnown p old new =
      IsIn p old.payments
      × (IsContents r.transaction r.reference r.digest p
          ⊎ IsContents (strip r.transaction) r.reference r.digest p)
      × (tables new ≡ tables old)

  -- The payment is new, and the operation ID is nowhere in use.
  abbrev pub IsReceived : Payment → Db → Db → Type 0
  IsReceived p old new =
      (reject_conflicts r.operation old ≡ ok tt)
      × IsContents (strip r.transaction) (upper_text u (strip r.reference))
          (ascii_lower (strip r.digest)) p
      × IsPlaced r p (referenced u r old)
          (old.entries, p ∷ old.payments, old.allocations, old.cases) (tables new) new.wallets

  pub equivalent_ok : (p q : Payment) → equivalent r p ≡ ok q → (p ≡ q) × (is_equivalent r q ≡ true)
  unfolding equivalent
  equivalent_ok p q h = elim (Bool-cases (is_equivalent r p)) [
    | inl same ↦ let it : p ≡ q = ground (arith, same) in (it, ap (is_equivalent r) (sym it) ∙ same)
    | inr other ↦ absurd (ground (arith, other))
  ]

  -- The tests that a known payment has passed.
  known-IsContents :
      (transaction : Text) (p : Payment)
      → same_transaction r.profile transaction p ≡ true
      → is_equivalent r p ≡ true
      → IsContents transaction r.reference r.digest p
  known-IsContents transaction p found same = record {
    profile = ground arith;
    transaction_lem = text_eq-eq _ _ (ground arith);
    amount = ground arith;
    currency = text_eq-eq _ _ (ground arith);
    received_at = ground arith;
    reference_lem = text_eq-eq _ _ (ground arith);
    digest_lem = text_eq-eq _ _ (ground arith);
  }

  known_at :
      (transaction : Text) (p q : Payment) (old mid : Db)
      → tables old ≡ tables mid
      → p ≡ q
      → find_payment r.profile transaction mid ≡ some p
      → is_equivalent r q ≡ true
      → IsIn q old.payments × IsContents transaction r.reference r.digest q
  known_at transaction p q old mid stays it found same =
      let there : find (same_transaction r.profile transaction) old.payments ≡ some q =
        ap (λ t. find (same_transaction r.profile transaction) t.1) stays
        ∙ found
        ∙ ap (λ x. some x) it in
      (
        find_IsIn _ old.payments q there,
        known-IsContents transaction q (find_sound _ old.payments q there) same,
      )

  -- The columns of a payment that was saved.
  created-IsContents :
      (q : Payment) (k : ℕ)
      → cleaned_payment u (payment_row r k) ≡ q
      → IsContents
          (strip r.transaction)
          (upper_text u (strip r.reference))
          (ascii_lower (strip r.digest))
          q
  created-IsContents q k it = rw (← it) record {
    profile = refl;
    transaction_lem = refl;
    amount = refl;
    currency = refl;
    received_at = refl;
    reference_lem = refl;
    digest_lem = refl;
  }

  or_existing_ok :
      (p q : Payment) (issue : Issue) (issues : List Issue) (db : Db) (b : Bool)
      → or_existing p issue issues db ≡ ok (q, b)
      → (b ≡ false) × (find_payment p.provider_profile_id p.provider_transaction_id db ≡ some q)
  or_existing_ok p q issue issues db b h =
      elim (Option-cases (find_payment p.provider_profile_id p.provider_transaction_id db)) [
        | inl gone ↦ absurd (ground (arith, gone))
        | inr (found, is) ↦ (ground (arith, is), ground (arith, is))
      ]

  created_ok :
      (p q : Payment) (issues : List Issue) (b : Bool) (db db' : Db)
      → create_payment_with p issues db ≡ (ok (q, b), db')
      → ((b ≡ true) × (p ≡ q) × (insert_payment p db ≡ db'))
        ⊎ ((b ≡ false)
            × (db ≡ db')
            × (find_payment p.provider_profile_id p.provider_transaction_id db ≡ some q))
  created_ok p q [] b db db' h = inl (cc, cc, cc)
  created_ok p q (issue ∷ issues) b db db' h =
      let (old, there) = or_existing_ok p q issue issues db b (ap (λ x. x.0) h) in
      inr (old, ap (λ x. x.1) h, there)

  -- A payment that was not created is compared, and one that was is placed.
  place_new_ok :
      (p q : Payment) (b : Bool) (db db' : Db)
      → place_new u r (p, b) db ≡ (ok q, db')
      → ((b ≡ false) × (p ≡ q) × (is_equivalent r q ≡ true) × (db ≡ db'))
        ⊎ ((b ≡ true)
            × (p ≡ q)
            × IsPlaced r p (referenced u r db) (tables db) (tables db') db'.wallets)
  unfolding place_new record_event referenced
  place_new_ok p q false db db' h =
      let (tested, same) = lift_ok _ q db db' h in
      let (it, equal) = equivalent_ok p q tested in inl (refl, it, equal, same)
  place_new_ok p q true db db' h = bind_then _ _ db h λ _ s1 told h1.
      bind_then _ _ s1 h1 λ s s2 queried h2.
        let (is_s, same2) = gets_ok _ s s1 s2 queried in
        let run : place u r p (referenced u r s1) s1 ≡ (ok q, db') =
          ap (λ o. place u r p o s1) is_s ∙ ap (place u r p s) same2 ∙ h2 in
        let same1 = ap (λ x. x.1) told in
        let (result, placed) = place_ok u r p q (referenced u r s1) s1 db' run in
        let subject : referenced u r db ≡ referenced u r s1 = ap (referenced u r) same1 in
        let same : tables db ≡ tables s1 = ap tables same1 in
        inr (refl, result, rw (subject, same) placed)

  ingest_new_ok :
      (q : Payment) (db db' : Db)
      → ingest_new u r db ≡ (ok q, db')
      → IsKnown q db db' ⊎ IsReceived q db db'
  unfolding ingest_new fresh create_payment referenced
  ingest_new_ok q db db' h = bind_then _ _ db h λ t s1 asked h1.
      bind_then _ _ s1 h1 λ k s2 drawn h2. bind_then _ _ s2 h2 λ created s3 saved h3.
        let (unused, same1) = ask_ok _ t db s1 asked in
        let same2 : record s1 { next_id = suc s1.next_id } ≡ s2 = ap (λ x. x.1) drawn in
        let row = cleaned_payment u (payment_row r k) in
        let known : tables db ≡ tables s2 = ap tables same1 ∙ ap tables same2 in
        elim (place_new_ok created.0 q created.1 s3 db' h3) [
          | inl (old, it, same_contents, same3) ↦
              elim (created_ok row created.0 _ created.1 s2 s3 saved) [
                | inl (new, _, _) ↦ absurd (not_both new old)
                | inr (_, stays, there) ↦
                    let (member, contents) =
                      known_at row.provider_transaction_id created.0 q db s2 known it there
                        same_contents in
                    inl (member, inr contents, sym (known ∙ ap tables (stays ∙ same3)))
              ]
          | inr (new, result, placed) ↦ elim (created_ok row created.0 _ created.1 s2 s3 saved) [
            | inr (old, _, _) ↦ absurd (not_both new old)
            | inl (_, is_row, inserted) ↦
                let it : row ≡ q = is_row ∙ result in
                let after : tables s3 ≡ (db.entries, q ∷ db.payments, db.allocations, db.cases) =
                  sym (ap tables inserted)
                  ∙ ap (λ t. (t.0, row ∷ t.1, t.2, t.3)) (sym known)
                  ∙ ap (λ p. (db.entries, p ∷ db.payments, db.allocations, db.cases)) it in
                let subject : referenced u r s3 ≡ referenced u r db =
                  sym (ap (referenced u r) inserted)
                  ∙ sym (ap (referenced u r) same2)
                  ∙ sym (ap (referenced u r) same1) in
                inr (
                  unused,
                  created-IsContents q k it,
                  IsPlaced-at r (tables db') db'.wallets result subject after placed,
                )
          ]
        ]

  -- What the ingestion of a payment that returns has done. Either the payment is one that was stored
  -- before, of the provider profile, the transaction ID (perhaps stripped), the amount, the time, the
  -- account reference and the digest of the arguments, and the payments, the allocations, the cases
  -- and the ledger entries are as before; or it is one new row of the profile, the transaction ID, the
  -- amount, the time, the reference and the digest of the arguments (the texts stripped, the reference
  -- in upper case and the digest in lower case), its operation ID was in use nowhere, and it went to the subscriber whose account number its reference is: one ledger entry
  -- credits the whole payment to the wallet of this subscriber, with one allocation. When the
  -- reference names nobody, the payment gets one open case instead, and no ledger entry.
  pub ingest_payment_core_ok :
      (p : Payment) (db db' : Db)
      → ingest_payment_core u r db ≡ (ok p, db')
      → IsKnown p db db' ⊎ IsReceived p db db'
  unfolding ingest_payment_core ingest_existing
  ingest_payment_core_ok p db db' h = bind_then _ _ db h λ existing s1 queried h1.
      let (found, same) = gets_ok _ existing db s1 queried in
      elim (Option-cases existing) [
        | inl missing ↦
            let run : ingest_new u r db ≡ (ok p, db') =
              ap (λ s. ingest_existing u r none s) same
              ∙ sym (ap (λ o. ingest_existing u r o s1) missing)
              ∙ h1 in
            ingest_new_ok p db db' run
        | inr (q, there) ↦
            let run : lift (equivalent r q) s1 ≡ (ok p, db') =
              sym (ap (λ o. ingest_existing u r o s1) there) ∙ h1 in
            let (tested, stays) = lift_ok _ p s1 db' run in
            let (it, equal) = equivalent_ok q p tested in
            let (member, contents) =
              known_at r.transaction q p db db refl it (found ∙ there) equal in
            inl (member, inl contents, sym (ap tables (same ∙ stays)))
      ]
