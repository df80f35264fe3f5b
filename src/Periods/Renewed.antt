-- ===== src/Periods/Renewed.antt =====
-- What the activation and the renewal of a billing period have done when they return.
use supersurf_billing_phase.Common.{
  sym, Bool-cases, ℕ, ◌+◌, ◌*◌, ◌≡◌, refl, ap, ◌∙◌, ◌⊎◌, inl, inr, Option, none, some, List, ◌∷◌,
  ◌==◌, find, Text, Bool-cases, Option-cases, arith,
}
use supersurf_billing_phase.Exec.{ok}
use supersurf_billing_phase.Exec.Runs.{
  bind_then, lift_ok, gets_ok, ask_ok, require_ok, pure_ok, raise_ok, reuse_ok, atomic_ok,
}
use supersurf_billing_phase.Schema.Choices.{PeriodType}
use supersurf_billing_phase.Schema.Rows.{BillingPeriod, Subscription}
use supersurf_billing_phase.Schema.Database.{Db}
use supersurf_billing_phase.Periods.Dates.{micros_per_day, micros_per_hour, start_of}
use supersurf_billing_phase.Periods.Timeline.{period_dates_ok}
use supersurf_billing_phase.Periods.Save.{period_id_of, latest_period, same_period, existing_period}
use supersurf_billing_phase.Periods.Renew.{
  PeriodRequest, post_period, expect_latest, renew_locked, renew_expecting, with_request,
  renew_billing_period,
}
use supersurf_billing_phase.Service.Access.{Actor}
use supersurf_billing_phase.Service.Inputs.{
  RawId, Timestamp, validate_aware, or_now, normalize_operation_id, normalize_previous_period_id,
}
use supersurf_billing_phase.Service.Lookup.{record_event, lock_service}
use supersurf_billing_phase.Periods.Opened.{open_period_ok}

-- `p` is the one new period: of the service, the next in its sequence, linked to the previous one,
-- started where that says, and as long as its own snapshot of the plan.
pub record IsOpened (service operation : ℕ) (kind : PeriodType) (previous : Option BillingPeriod)
    (sequence effective : ℕ) (old new : List BillingPeriod) (p : BillingPeriod) : Type 0 where
  pub written : new ≡ p ∷ old
  pub owner : p.service_id ≡ service
  pub operation_lem : p.operation_id ≡ operation
  pub kind_lem : p.period_type ≡ kind
  pub numbered : p.sequence_number ≡ sequence
  pub linked : p.previous_period_id ≡ period_id_of previous
  pub starts : p.starts_at ≡ start_of previous effective
  pub expires : p.expires_at ≡ p.starts_at + p.duration_days * micros_per_day
  pub ends : p.grace_until ≡ p.expires_at + p.grace_period_hours * micros_per_hour

post_period_ok :
    (r : PeriodRequest) (s : Subscription) (sequence : ℕ) (kind : PeriodType)
    (previous : Option BillingPeriod) (db db' : Db) (p : BillingPeriod)
    → post_period r s sequence kind previous db ≡ (ok p, db')
    → (t : ℕ) × (validate_aware r.effective ≡ ok t)
      × IsOpened r.service r.operation kind previous sequence t db.periods db'.periods p
unfolding post_period record_event
post_period_ok r s sequence kind previous db db' p h = bind_then _ _ db h λ t s1 timed h1.
    bind_then _ _ s1 h1 λ row s2 opened h2. bind_then _ _ s2 h2 λ _ s3 told h3.
      let (is_t, same1) = lift_ok _ t db s1 timed in
      let (dates, k, dated, is_row, same2) =
        open_period_ok r.service s sequence kind r.operation previous t s1 s2 row opened in
      let same3 = ap (λ x. x.1) told in
      let (result, same4) = pure_ok row p s3 db' h3 in
      let (starts, expires, ends, _) =
        period_dates_ok previous t s.duration_days s.grace_period_hours dates dated in
      (
        t,
        is_t,
        rw (← same4, ← same3, ← same2, ← same1, ← result, ← is_row)
            record {
              written = refl;
              owner = refl;
              operation_lem = refl;
              kind_lem = refl;
              numbered = refl;
              linked = refl;
              starts = starts;
              expires = expires;
              ends = ends;
            },
      )

expect_latest_ok :
    (o : Option BillingPeriod) (expected : ℕ) (p : BillingPeriod)
    → expect_latest o expected ≡ ok p
    → (o ≡ some p) × (p.id ≡ expected)
unfolding expect_latest
expect_latest_ok none expected p h = cc
expect_latest_ok (some q) expected p h = elim (Bool-cases (q.id == expected)) [
  | inl same ↦ ground (arith, same)
  | inr other ↦ absurd (ground (arith, other))
]

module _ (service operation : ℕ) (kind : PeriodType) (previous : Option ℕ) (db : Db) where
  some_existing :
      (p : BillingPeriod)
      → existing_period service operation kind previous db ≡ ok (some p)
      → (find (λ p. p.operation_id == operation) db.periods ≡ some p) × (p.service_id ≡ service)
  unfolding existing_period
  some_existing p h = elim (Option-cases (find (λ p. p.operation_id == operation) db.periods)) [
    | inl free ↦ absurd (ground (arith, free))
    | inr (other, found) ↦ elim (Bool-cases (same_period service kind previous other)) [
      | inl same ↦
          let it : other ≡ p = ground (arith, found, same) in
          let owner : other.service_id ≡ service = ground (arith, same) in
          (found ∙ ap some it, sym (ap (λ x. x.service_id) it) ∙ owner)
      | inr differs ↦ absurd (ground (arith, found, differs))
    ]
  ]

-- The answer of a renewal: an earlier period under the same operation ID, or a new one after the
-- latest period of the service, which is the expected one.
abbrev pub IsRenewed : ℕ → ℕ → ℕ → Timestamp → Db → Db → BillingPeriod → Type 0
IsRenewed service operation expected effective old new p =
    ((old ≡ new)
      × (find (λ p. p.operation_id == operation) old.periods ≡ some p)
      × (p.service_id ≡ service))
    ⊎ ((previous : BillingPeriod) × (t : ℕ) × (latest_period service old.periods ≡ some previous)
        × (previous.id ≡ expected)
        × (validate_aware effective ≡ ok t)
        × IsOpened service operation PeriodType.renewal (some previous)
            (previous.sequence_number + 1) t old.periods new.periods p)

module _ (r : PeriodRequest) (expected : ℕ) (db db' : Db) (p : BillingPeriod) where
  renew_locked_ok :
      renew_locked r expected db ≡ (ok p, db')
      → IsRenewed r.service r.operation expected r.effective db db' p
  unfolding renew_locked lock_service
  renew_locked_ok h = bind_then _ _ db h λ locked s1 found h1.
      bind_then _ _ s1 h1 λ current s2 queried h2. bind_then _ _ s2 h2 λ s s3 allowed h3.
        bind_then _ _ s3 h3 λ latest s4 ordered h4. bind_then _ _ s4 h4 λ existing s5 asked h5.
          let to3 : db ≡ s3 =
            (require_ok _ _ locked db s1 found).1
            ∙ (gets_ok _ current s1 s2 queried).1
            ∙ (lift_ok _ s s2 s3 allowed).1 in
          let (top, same4) = gets_ok _ latest s3 s4 ordered in
          let (tested, same5) = ask_ok _ existing s4 s5 asked in
          let to4 : db ≡ s4 = to3 ∙ same4 in
          let before =
            ap (existing_period r.service r.operation PeriodType.renewal (some expected)) to4
            ∙ tested in
          elim (reuse_ok existing _ s5 h5) [
            | inl (again, same) ↦
                let (there, owner) =
                  some_existing _ _ PeriodType.renewal (some expected) db p
                    (before ∙ ap ok again) in
                inl (to4 ∙ same5 ∙ same, there, owner)
            | inr (new_one, ran) ↦ bind_then _ _ s5 ran λ previous s6 seen h6.
                let (is_so, same6) = lift_ok _ previous s5 s6 seen in
                let (is_latest, is_expected) = expect_latest_ok latest expected previous is_so in
                let run =
                  ap
                    (post_period r s (previous.sequence_number + 1) PeriodType.renewal
                      (some previous))
                    (to4 ∙ same5 ∙ same6)
                  ∙ h6 in
                let (t, is_t, opened) =
                  post_period_ok r s (previous.sequence_number + 1) PeriodType.renewal
                    (some previous) db db' p run in
                inr (
                  previous,
                  t,
                  ap (λ d. latest_period r.service d.periods) to3 ∙ top ∙ is_latest,
                  is_expected,
                  is_t,
                  opened,
                )
          ]

  renew_expecting_ok :
      renew_expecting r (some expected) db ≡ (ok p, db')
      → IsRenewed r.service r.operation expected r.effective db db' p
  unfolding renew_expecting
  renew_expecting_ok h = bind_then _ _ db h λ existing s1 asked h1.
      let (tested, same1) = ask_ok _ existing db s1 asked in
      elim (reuse_ok existing _ s1 h1) [
        | inl (again, same) ↦
            let (there, owner) =
              some_existing _ _ PeriodType.renewal (some expected) db p (tested ∙ ap ok again) in
            inl (same1 ∙ same, there, owner)
        | inr (new_one, ran) ↦ renew_locked_ok (ap (renew_locked r expected) same1 ∙ ran)
      ]

expecting_ok :
    (r : PeriodRequest) (expected : Option ℕ) (db db' : Db) (p : BillingPeriod)
    → renew_expecting r expected db ≡ (ok p, db')
    → (k : ℕ) × (expected ≡ some k) × IsRenewed r.service r.operation k r.effective db db' p
unfolding renew_expecting
expecting_ok r none db db' p h = raise_ok _ p db db' h
expecting_ok r (some k) db db' p h = (k, refl, renew_expecting_ok r k db db' p h)

-- What a renewal that returns has done. Its operation ID was used before, and the answer is the
-- period that has it, of the same service, with the database unchanged; or there is one new period
-- of the service, under that ID. It is the next in sequence after the latest period, which is the
-- one that the caller expected, and is linked to it. It starts where that one ends if that one has
-- not run out of grace, and else at the effective time; it lasts as many days, and has as many hours
-- of grace, as its own snapshot of the plan says.
pub renew_billing_period_ok :
    (service : ℕ) (operation_id expected : RawId) (reason : Text) (actor : Option Actor)
    (effective_at : Option Timestamp) (now : ℕ) (db db' : Db) (p : BillingPeriod)
    → renew_billing_period service operation_id expected reason actor effective_at now db
      ≡ (ok p, db')
    → (k : ℕ) × (n : ℕ) × (normalize_operation_id operation_id ≡ ok k)
      × (normalize_previous_period_id expected ≡ ok (some n))
      × IsRenewed service k n (or_now effective_at now) db db' p
unfolding renew_billing_period with_request
renew_billing_period_ok service operation_id expected reason actor effective_at now db db' p h =
    bind_then _ _ db (atomic_ok _ db h) λ operator s1 allowed h1.
      bind_then _ _ s1 h1 λ text s2 reasoned h2. bind_then _ _ s2 h2 λ k s3 named h3.
        bind_then _ _ s3 h3 λ seen s4 expecting h4.
          let (is_k, same3) = lift_ok _ k s2 s3 named in
          let (is_seen, same4) = lift_ok _ seen s3 s4 expecting in
          let same : db ≡ s4 =
            (lift_ok _ operator db s1 allowed).1
            ∙ (lift_ok _ text s1 s2 reasoned).1
            ∙ same3
            ∙ same4 in
          let r : PeriodRequest = record {
            service = service;
            operation = k;
            reason = text;
            actor = operator.id;
            effective = or_now effective_at now;
          } in
          let (n, is_n, renewed) =
            expecting_ok r seen db db' p (ap (renew_expecting r seen) same ∙ h4) in
          (k, n, is_k, is_seen ∙ ap ok is_n, renewed)
