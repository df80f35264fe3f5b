-- ===== src/Payments/Again.antt =====
-- The ingestion of a payment is made again.
use supersurf_billing_phase.Common.{
  Unicode, Bool, true, ◌≡◌, sym, refl, ap, ◌∙◌, inl, inr, Option, some, none, List, [], ◌∷◌, find,
  IsIn, Text, text_eq, text_eq_refl, strip, ascii_lower, Bool-cases, Option-cases, arith,
}
use supersurf_billing_phase.Exec.{ok}
use supersurf_billing_phase.Exec.Runs.{bind_run, gets_run, lift_run, lift_ok}
use supersurf_billing_phase.Schema.Rows.{Payment, Subscriber, Wallet}
use supersurf_billing_phase.Schema.Database.{Db}
use supersurf_billing_phase.Service.Effects.{Tables, tables}
use supersurf_billing_phase.Payments.References.{upper_text}
use supersurf_billing_phase.Payments.Clean.{same_transaction}
use supersurf_billing_phase.Payments.Save.{find_payment}
use supersurf_billing_phase.Payments.Effects.{IsPlaced}
use supersurf_billing_phase.Payments.Ingest.{
  Ingestion, is_equivalent, equivalent, ingest_existing, ingest_payment_core,
}
use supersurf_billing_phase.Payments.Ingested.{IsContents, equivalent_ok, ingest_payment_core_ok}

-- A query misses no row that passes its test.
not_missed :
    {A : Type 0} (test : A → Bool) (xs : List A) (x : A)
    → IsIn x xs
    → test x ≡ true
    → find test xs ≡ none
    → ⊥
not_missed test [] x h is gone = absurd h
not_missed test (y ∷ xs) x h is gone = elim (Bool-cases (test y)) [
  | inl hit ↦ ground (arith, hit, gone)
  | inr miss ↦ elim h [
    | inl same ↦ let hit : test y ≡ true = ap test same ∙ is in ground (arith, hit, miss)
    | inr later ↦ not_missed test xs x later is (ground (arith, miss, gone))
  ]
]

same_text : (s t : Text) → s ≡ t → text_eq s t ≡ true
same_text s t h = ap (text_eq s) (sym h) ∙ text_eq_refl s

placed_payments :
    (r : Ingestion) (p : Payment) (s : Option Subscriber) (old new : Tables) (wallets : List Wallet)
    → IsPlaced r p s old new wallets
    → new.1 ≡ old.1
placed_payments r p none old new wallets (c, written, _, _) = ap (λ t. t.1) written
placed_payments r p (some s) old new wallets (a, credited) = credited.others.0

module _ (u : Unicode) (r : Ingestion) where
  contents_tested :
      (t reference digest : Text) (p : Payment)
      → t ≡ r.transaction
      → reference ≡ r.reference
      → digest ≡ r.digest
      → IsContents u r t reference digest p
      → (same_transaction r.profile r.transaction p ≡ true) × (is_equivalent r p ≡ true)
  contents_tested t reference digest p named referred digested c =
      let transaction = same_text _ _ (c.transaction_lem ∙ named) in
      let currency = same_text _ _ c.currency in
      let account = same_text _ _ (c.reference_lem ∙ referred) in
      let payload = same_text _ _ (c.digest_lem ∙ digested) in
      (
        ground (arith, c.profile, transaction),
        ground (arith, c.amount, c.received_at, currency, account, payload),
      )

  run_existing :
      (p : Payment) (db : Db)
      → find_payment r.profile r.transaction db ≡ some p
      → ingest_payment_core u r db ≡ ingest_existing u r (some p) db
  unfolding ingest_payment_core
  run_existing p db found =
      bind_run _ _ db (gets_run _ db) ∙ ap (λ o. ingest_existing u r o db) found

  replay :
      (p : Payment) (db : Db)
      → find_payment r.profile r.transaction db ≡ some p
      → is_equivalent r p ≡ true
      → ingest_payment_core u r db ≡ (ok p, db)
  unfolding ingest_existing equivalent
  replay p db found same = run_existing p db found ∙ lift_run (equivalent r p) p db (rw same refl)

  -- An ingestion is idempotent: made again right after it returned, with the same arguments, it returns
  -- the same payment and changes nothing. The texts of the arguments are normalised, as the callers
  -- make them: stripped, the reference in upper case and the digest in lower case.
  pub ingest_payment_core-again :
      (p : Payment) (db db' : Db)
      → strip r.transaction ≡ r.transaction
      → upper_text u (strip r.reference) ≡ r.reference
      → ascii_lower (strip r.digest) ≡ r.digest
      → ingest_payment_core u r db ≡ (ok p, db')
      → ingest_payment_core u r db' ≡ (ok p, db')
  unfolding ingest_existing
  ingest_payment_core-again p db db' named referred digested h =
      elim (Option-cases (find_payment r.profile r.transaction db)) [
        | inr (q, found) ↦
            let (tested, same) = lift_ok _ p db db' (sym (run_existing q db found) ∙ h) in
            let (it, equal) = equivalent_ok u r q p tested in
            replay p db'
              (ap (find_payment r.profile r.transaction) (sym same) ∙ found ∙ ap (λ x. some x) it)
              equal
        | inl missing ↦ elim (ingest_payment_core_ok u r p db db' h) [
          | inl (member, contents, stays) ↦ elim contents [
            | inl plain ↦ absurd (
                not_missed (same_transaction r.profile r.transaction) db.payments p member
                  (contents_tested r.transaction r.reference r.digest p refl refl refl plain).0
                  missing)
            | inr stripped ↦ absurd (
                not_missed (same_transaction r.profile r.transaction) db.payments p member
                  (contents_tested (strip r.transaction) r.reference r.digest p named refl refl
                    stripped).0
                  missing)
          ]
          | inr (unused, contents, placed) ↦
              let now : db'.payments ≡ p ∷ db.payments =
                placed_payments r p _ _ (tables db') db'.wallets placed in
              let (same, equal) =
                contents_tested (strip r.transaction) (upper_text u (strip r.reference))
                  (ascii_lower (strip r.digest)) p named referred digested contents in
              let found : find_payment r.profile r.transaction db' ≡ some p =
                ap (find (same_transaction r.profile r.transaction)) now ∙ rw same refl in
              replay p db' found equal
        ]
      ]
