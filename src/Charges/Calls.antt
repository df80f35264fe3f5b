-- ===== src/Charges/Calls.antt =====
-- What `activate_service_from_wallet` and `renew_service_from_wallet` have done when they return.
use supersurf_billing_phase.Common.{
  refl, sym, true, Bool-cases, ℕ, ◌≡◌, ap, ◌∙◌, ◌⊎◌, inl, inr, Option, none, some, ◌==◌, find, Text,
  Option-cases, arith,
}
use supersurf_billing_phase.Exec.{ok}
use supersurf_billing_phase.Exec.Runs.{
  bind_then, lift_ok, gets_ok, ask_ok, require_ok, reuse_ok, atomic_ok,
}
use supersurf_billing_phase.Schema.Choices.{PeriodType, period_type_eq, period_type_eq-eq}
use supersurf_billing_phase.Schema.Rows.{BillingCharge}
use supersurf_billing_phase.Schema.Database.{Db}
use supersurf_billing_phase.Ledger.Save.{latest_entry}
use supersurf_billing_phase.Service.Access.{Actor}
use supersurf_billing_phase.Service.Inputs.{
  RawId, Timestamp, normalize_operation_id, or_now, validate_ledger_reason,
  normalize_previous_period_id,
}
use supersurf_billing_phase.Service.Lookup.{wallet_of, lock_service, lock_existing_wallet}
use supersurf_billing_phase.Periods.Save.{active_subscription}
use supersurf_billing_phase.Charges.Post.{
  ChargeRequest, check_expected, same_charge, existing_charge, charge_checked, charge_locked,
  post_wallet_funded_period,
}
use supersurf_billing_phase.Charges.Funded.{IsFunded, eligible_ok, charge_checked_ok}

module _ (r : ChargeRequest) (db : Db) where
  some_existing :
      (c : BillingCharge)
      → existing_charge r db ≡ ok (some c)
      → (find (λ c. c.operation_id == r.operation) db.charges ≡ some c)
        × (same_charge db r c ≡ true)
  unfolding existing_charge
  some_existing c h = elim (Option-cases (find (λ c. c.operation_id == r.operation) db.charges)) [
    | inl free ↦ absurd (ground (arith, free))
    | inr (other, found) ↦ elim (Bool-cases (same_charge db r other)) [
      | inl same ↦
          let it : other ≡ c = ground (arith, found, same) in
          (found ∙ ap some it, ap (same_charge db r) (sym it) ∙ same)
      | inr differs ↦ absurd (ground (arith, found, differs))
    ]
  ]

  same_lem :
      (c : BillingCharge)
      → same_charge db r c ≡ true
      → (c.service_id ≡ r.service) × (c.charge_type ≡ r.charge_type)
  same_lem c h =
      let kinds : period_type_eq c.charge_type r.charge_type ≡ true = ground arith in
      (ground arith, period_type_eq-eq c.charge_type r.charge_type kinds)

  none_existing :
      existing_charge r db ≡ ok none → find (λ c. c.operation_id == r.operation) db.charges ≡ none
  unfolding existing_charge
  none_existing h = elim (Option-cases (find (λ c. c.operation_id == r.operation) db.charges)) [
    | inl free ↦ free
    | inr (other, found) ↦ absurd (ground (arith, found))
  ]

clash :
    (r : ChargeRequest) (db : Db) (c : BillingCharge)
    → find (λ c. c.operation_id == r.operation) db.charges ≡ none
    → find (λ c. c.operation_id == r.operation) db.charges ≡ some c
    → ⊥
clash r db c free found = cc

-- A locked charge whose operation was new has written its rows.
charge_locked_ok :
    (r : ChargeRequest) (db db' : Db) (c : BillingCharge) (u : Unit)
    → check_expected r.charge_type r.expected ≡ ok u
    → find (λ c. c.operation_id == r.operation) db.charges ≡ none
    → charge_locked r db ≡ (ok c, db')
    → IsFunded r db db' c
unfolding charge_locked lock_service lock_existing_wallet
charge_locked_ok r db db' c u fits free h = bind_then _ _ db h λ locked s1 found h1.
    bind_then _ _ s1 h1 λ w s2 owned h2. bind_then _ _ s2 h2 λ current s3 queried h3.
      bind_then _ _ s3 h3 λ s s4 allowed h4. bind_then _ _ s4 h4 λ period s5 dated h5.
        bind_then _ _ s5 h5 λ entry s6 summed h6. bind_then _ _ s6 h6 λ existing s7 asked h7.
          let (place, same1) = require_ok _ _ locked db s1 found in
          let (owner, same2) = require_ok _ _ w s1 s2 owned in
          let (active, same3) = gets_ok _ current s2 s3 queried in
          let (eligibly, same4) = lift_ok _ s s3 s4 allowed in
          let same5 = (gets_ok _ period s4 s5 dated).1 in
          let (top, same6) = gets_ok _ entry s5 s6 summed in
          let (tested, same7) = ask_ok _ existing s6 s7 asked in
          let to5 : db ≡ s5 = same1 ∙ same2 ∙ same3 ∙ same4 ∙ same5 in
          let to6 : db ≡ s6 = to5 ∙ same6 in
          let latest : latest_entry w.id db.entries ≡ entry =
            ap (λ d. latest_entry w.id d.entries) to5 ∙ top in
          let before : existing_charge r db ≡ ok existing = ap (existing_charge r) to6 ∙ tested in
          elim (reuse_ok existing _ s7 h7) [
            | inl (again, same) ↦
                absurd (clash r db c free (some_existing r db c (before ∙ ap ok again)).0)
            | inr (new_one, charged) ↦
                let at_start = ap (charge_checked r s w period entry) (to6 ∙ same7) ∙ charged in
                record {
                  locked = locked;
                  subscription = s;
                  wallet = w;
                  found = place;
                  owner = ap (λ d. wallet_of locked.subscriber.id d.wallets) same1 ∙ owner;
                  current =
                      ap (λ d. active_subscription r.service d.subscriptions) (same1 ∙ same2)
                      ∙ active
                      ∙ eligible_ok locked current s eligibly;
                  charged =
                      charge_checked_ok r s w period db db' c u fits
                        (ap (λ l. charge_checked r s w period l db) latest ∙ at_start);
                }
          ]

-- What an activation or a renewal from the wallet has done when it returns. Its operation ID was
-- used before, and the answer is the charge that has it, of the same service and kind, with the
-- database unchanged; or no charge has its operation ID, and there are one new billing period, one
-- new ledger entry and one new charge, of the service and the kind of the call and under its
-- operation ID, all with the price of the active subscription of the service, which the entry takes
-- from the balance of the wallet of its subscriber. The new period names the expected period, if any,
-- as the one before it, and the charge has the reason of the call.
pub post_wallet_funded_period_ok :
    (service : ℕ) (operation_id expected : RawId) (reason : Text) (actor : Option Actor)
    (effective_at : Option Timestamp) (now : ℕ) (kind : PeriodType) (db db' : Db)
    (c : BillingCharge)
    → post_wallet_funded_period service operation_id expected reason actor effective_at now kind db
      ≡ (ok c, db')
    → (r : ChargeRequest) × (normalize_operation_id operation_id ≡ ok r.operation)
      × (validate_ledger_reason reason ≡ ok r.reason)
      × (normalize_previous_period_id expected ≡ ok r.expected)
      × (r.service ≡ service)
      × (r.charge_type ≡ kind)
      × (((db ≡ db')
            × (find (λ c. c.operation_id == r.operation) db.charges ≡ some c)
            × (c.service_id ≡ service)
            × (c.charge_type ≡ kind))
          ⊎ ((find (λ c. c.operation_id == r.operation) db.charges ≡ none) × IsFunded r db db' c))
unfolding post_wallet_funded_period
post_wallet_funded_period_ok service operation_id expected reason actor effective_at now kind db db'
      c h =
    bind_then _ _ db (atomic_ok _ db h) λ operator s1 allowed h1.
      bind_then _ _ s1 h1 λ text s2 reasoned h2. bind_then _ _ s2 h2 λ k s3 named h3.
        bind_then _ _ s3 h3 λ previous s4 seen h4. bind_then _ _ s4 h4 λ u s5 fits h5.
          bind_then _ _ s5 h5 λ existing s6 asked h6.
            let r : ChargeRequest = record {
              service = service;
              operation = k;
              expected = previous;
              reason = text;
              actor = operator.id;
              effective = or_now effective_at now;
              charge_type = kind;
            } in
            let (is_k, same3) = lift_ok _ k s2 s3 named in
            let (is_text, same2) = lift_ok _ text s1 s2 reasoned in
            let (is_previous, same4) = lift_ok _ previous s3 s4 seen in
            let (ordered, same5) = lift_ok _ u s4 s5 fits in
            let to5 : db ≡ s5 =
              (lift_ok _ operator db s1 allowed).1 ∙ same2 ∙ same3 ∙ same4 ∙ same5 in
            let (tested, same6) = ask_ok _ existing s5 s6 asked in
            let before : existing_charge r db ≡ ok existing = ap (existing_charge r) to5 ∙ tested in
            elim (reuse_ok existing _ s6 h6) [
              | inl (again, same) ↦
                  let (found, contents) = some_existing r db c (before ∙ ap ok again) in
                  let (services, kinds) = same_lem r db c contents in
                  (
                    r,
                    is_k,
                    is_text,
                    is_previous,
                    refl,
                    refl,
                    inl (to5 ∙ same6 ∙ same, found, services, kinds),
                  )
              | inr (new_one, charged) ↦
                  let free = none_existing r db (before ∙ ap ok new_one) in
                  let run = ap (charge_locked r) (to5 ∙ same6) ∙ charged in
                  (
                    r,
                    is_k,
                    is_text,
                    is_previous,
                    refl,
                    refl,
                    inr (free, charge_locked_ok r db db' c u ordered free run),
                  )
            ]
