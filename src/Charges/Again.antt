-- ===== src/Charges/Again.antt =====
-- The same call of `activate_service_from_wallet` or `renew_service_from_wallet` made twice.
use supersurf_billing_phase.Common.{
  Bool-cases, is_blank, ltb, length, ℕ, ◌≡◌, refl, sym, ap, ◌∙◌, inl, inr, Option, none, some, ◌==◌,
  find, Text, true, text_eq, text_eq_refl, strip, strip_idem, arith, opt_eq,
}
use supersurf_billing_phase.Exec.{Result, ok}
use supersurf_billing_phase.Exec.Runs.{
  bind_run, lift_run, ask_run, reuse_run, atomic_run, atomic_ok, bind_then, lift_ok,
}
use supersurf_billing_phase.Errors.{Error}
use supersurf_billing_phase.Schema.Choices.{PeriodType, period_type_eq}
use supersurf_billing_phase.Schema.Rows.{BillingCharge, BillingPeriod}
use supersurf_billing_phase.Schema.Database.{Db}
use supersurf_billing_phase.Service.Access.{Actor}
use supersurf_billing_phase.Service.Inputs.{
  normalize_operation_id, normalize_previous_period_id, or_now, RawId, Timestamp,
  validate_ledger_reason,
}
use supersurf_billing_phase.Charges.Post.{
  ChargeRequest, same_charge, existing_charge, post_wallet_funded_period,
}
use supersurf_billing_phase.Charges.Funded.{IsFunded}
use supersurf_billing_phase.Charges.Calls.{post_wallet_funded_period_ok}

period_type_eq_refl : (t : PeriodType) → period_type_eq t t ≡ true
period_type_eq_refl PeriodType.activation = refl
period_type_eq_refl PeriodType.renewal = refl

opt_eq_refl : (o : Option ℕ) → opt_eq o o ≡ true
opt_eq_refl none = refl
opt_eq_refl (some k) = ground arith

charged_same :
    (r : ChargeRequest) (db db' : Db) (c : BillingCharge)
    → strip r.reason ≡ r.reason
    → IsFunded r db db' c
    → existing_charge r db' ≡ ok (some c)
unfolding existing_charge
charged_same r db db' c stripped f =
    let (services, kinds, operations, reasons, price, _, _, periods, _) = f.charged.charge_lem in
    let (_, _, _, follows, _, prices) = f.charged.period_lem in
    let texts : text_eq c.reason r.reason ≡ true =
      ap (λ t. text_eq t r.reason) (reasons ∙ stripped) ∙ text_eq_refl r.reason in
    let types : period_type_eq c.charge_type r.charge_type ≡ true =
      ap (λ t. period_type_eq t r.charge_type) kinds ∙ period_type_eq_refl r.charge_type in
    let links : opt_eq f.charged.period.previous_period_id r.expected ≡ true =
      ap (λ o. opt_eq o r.expected) follows ∙ opt_eq_refl r.expected in
    let found : find (λ x. x.operation_id == r.operation) db'.charges ≡ some c =
      ap (find (λ (x : BillingCharge). x.operation_id == r.operation)) f.charged.charges
      ∙ ground (arith, operations) in
    let place : find (λ x. x.id == c.billing_period_id) db'.periods ≡ some f.charged.period =
      ap (find (λ (x : BillingPeriod). x.id == c.billing_period_id)) f.charged.periods
      ∙ ground (arith, periods) in
    let same : same_charge db' r c ≡ true =
      rw place (ground (arith, texts, types, links, services, prices)) in
    ground (arith, found, same)

same_ok : {A : Type 0} {x : Result Error A} {a b : A} → x ≡ ok a → x ≡ ok b → a ≡ b
same_ok h k = cc

same_request :
    (q r : ChargeRequest) (db : Db)
    → q.operation ≡ r.operation
    → q.reason ≡ r.reason
    → q.expected ≡ r.expected
    → q.service ≡ r.service
    → q.charge_type ≡ r.charge_type
    → existing_charge q db ≡ existing_charge r db
unfolding existing_charge
same_request q r db operations reasons links services kinds =
    rw (operations, reasons, links, services, kinds)

stripped_reason : (reason text : Text) → validate_ledger_reason reason ≡ ok text → strip text ≡ text
unfolding validate_ledger_reason
stripped_reason reason text h = elim (Bool-cases (is_blank (strip reason))) [
  | inl blank ↦ absurd (ground (arith, blank))
  | inr named ↦ elim (Bool-cases (ltb 240 (length (strip reason)))) [
    | inl long ↦ absurd (ground (arith, named, long))
    | inr fits ↦
        let it : strip reason ≡ text = ground (arith, named, fits) in
        ap strip (sym it) ∙ strip_idem reason ∙ it
  ]
]

-- A call that finds its charge returns it.
answered :
    (service : ℕ) (operation_id expected : RawId) (reason : Text) (actor : Option Actor)
    (effective_at : Option Timestamp) (now : ℕ) (kind : PeriodType) (db db' db2 : Db)
    (c d : BillingCharge)
    → post_wallet_funded_period service operation_id expected reason actor effective_at now kind db
      ≡ (ok c, db')
    → ((r : ChargeRequest)
        → normalize_operation_id operation_id ≡ ok r.operation
        → validate_ledger_reason reason ≡ ok r.reason
        → normalize_previous_period_id expected ≡ ok r.expected
        → r.service ≡ service
        → r.charge_type ≡ kind
        → existing_charge r db2 ≡ ok (some d))
    → post_wallet_funded_period service operation_id expected reason actor effective_at now kind db2
      ≡ (ok d, db2)
unfolding post_wallet_funded_period
answered service operation_id expected reason actor effective_at now kind db db' db2 c d h found =
    bind_then _ _ db (atomic_ok _ db h) λ operator s1 allowed h1.
      bind_then _ _ s1 h1 λ text s2 reasoned h2. bind_then _ _ s2 h2 λ k s3 named h3.
        bind_then _ _ s3 h3 λ previous s4 seen h4. bind_then _ _ s4 h4 λ u s5 fits h5.
          let r : ChargeRequest = record {
            service = service;
            operation = k;
            expected = previous;
            reason = text;
            actor = operator.id;
            effective = or_now effective_at now;
            charge_type = kind;
          } in
          let may = (lift_ok _ operator db s1 allowed).0 in
          let is_text = (lift_ok _ text s1 s2 reasoned).0 in
          let is_k = (lift_ok _ k s2 s3 named).0 in
          let is_previous = (lift_ok _ previous s3 s4 seen).0 in
          let ordered = (lift_ok _ u s4 s5 fits).0 in
          atomic_run _ db2 (
            bind_run _ _ db2 (lift_run _ operator db2 may)
            ∙ bind_run _ _ db2 (lift_run _ text db2 is_text)
            ∙ bind_run _ _ db2 (lift_run _ k db2 is_k)
            ∙ bind_run _ _ db2 (lift_run _ previous db2 is_previous)
            ∙ bind_run _ _ db2 (lift_run _ u db2 ordered)
            ∙ bind_run _ _ db2 (ask_run _ (some d) db2 (found r is_k is_text is_previous refl refl))
            ∙ reuse_run d _ db2)

-- If an activation or a renewal from the wallet returns a charge, the same call on the database that
-- it leaves returns the same charge and changes nothing.
pub post_wallet_funded_period_again :
    (service : ℕ) (operation_id expected : RawId) (reason : Text) (actor : Option Actor)
    (effective_at : Option Timestamp) (now : ℕ) (kind : PeriodType) (db db' : Db)
    (c : BillingCharge)
    → post_wallet_funded_period service operation_id expected reason actor effective_at now kind db
      ≡ (ok c, db')
    → post_wallet_funded_period service operation_id expected reason actor effective_at now kind db'
      ≡ (ok c, db')
post_wallet_funded_period_again service operation_id expected reason actor effective_at now kind db
      db' c h =
    let (r, is_k, is_text, is_previous, is_service, is_kind, done) =
      post_wallet_funded_period_ok service operation_id expected reason actor effective_at now kind
        db db' c h in
    elim done [
      | inl (same, _, _, _) ↦
          ap
            (post_wallet_funded_period service operation_id expected reason actor effective_at now
              kind)
            (sym same)
          ∙ h
      | inr (_, funded) ↦
          answered service operation_id expected reason actor effective_at now kind db db' db' c c h
            λ q q_k q_text q_previous q_service q_kind.
              same_request q r db' (same_ok q_k is_k) (same_ok q_text is_text)
                (same_ok q_previous is_previous) (q_service ∙ sym is_service) (q_kind ∙ sym is_kind)
              ∙ charged_same r db db' c (stripped_reason reason r.reason is_text) funded
    ]
