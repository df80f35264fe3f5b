-- ===== src/Payments/Resolved.antt =====
-- What the resolution of an unmatched payment has done when it returns.
use supersurf_billing_phase.Common.{
  List, ◌&&◌, opt_eq-some, ℕ, ◌≡◌, sym, refl, ap, ◌∙◌, ◌⊎◌, inl, inr, Bool, true, false, Option,
  some, ◌==◌, find, exists, update, Text, opt_eq, if◌then◌else◌, Bool-cases, Option-cases, arith,
  find_sound, find_IsIn, IsIn, none, text_eq-eq,
}
use supersurf_billing_phase.Exec.{Result, ok, err}
use supersurf_billing_phase.Exec.Runs.{
  bind_then, lift_ok, gets_ok, ask_ok, require_ok, pure_ok, refuse_ok, atomic_ok,
}
use supersurf_billing_phase.Errors.{Error}
use supersurf_billing_phase.Schema.Choices.{CaseStatus}
use supersurf_billing_phase.Schema.Rows.{
  Wallet, Payment, PaymentAllocation, Subscriber, UnmatchedPaymentCase,
}
use supersurf_billing_phase.Schema.Database.{Db}
use supersurf_billing_phase.Ledger.Save.{save_valid_ok}
use supersurf_billing_phase.Service.Access.{Actor}
use supersurf_billing_phase.Service.Inputs.{RawId, normalize_operation_id, validate_ledger_reason}
use supersurf_billing_phase.Service.Lookup.{lock_subscriber, record_event, wallet_subscriber}
use supersurf_billing_phase.Service.Effects.{Tables, tables}
use supersurf_billing_phase.Payments.Clean.{payment_at, allocation_at}
use supersurf_billing_phase.Payments.Save.{replace_case, save_resolution, reject_conflicts}
use supersurf_billing_phase.Payments.Effects.{IsCredited, credit_wallet_ok}
use supersurf_billing_phase.Payments.Resolve.{
  Resolution, resolving_allocation, same_resolution, already_resolved, resolved_case, allocate_case,
  resolve_case, resolve_unmatched_payment,
}

-- The case was resolved before, with this reason: its payment has the stored allocation `a` under this
-- operation, in the wallet that the case names, which is the subscriber's.
pub record IsAnswered (case subscriber operation : ℕ) (reason : Text) (old : Db)
    (a : PaymentAllocation) : Type 0 where
  pub row : UnmatchedPaymentCase
  pub payment : Payment
  pub found : find (λ c. c.id == case) old.cases ≡ some row
  pub resolved_before : row.status ≡ CaseStatus.resolved
  pub its_payment : payment_at row.payment_id old.payments ≡ some payment
  pub stored : IsIn a old.allocations
  pub pays : a.payment_id ≡ payment.id
  pub wallet : row.resolved_wallet_id ≡ some a.wallet_id
  pub reason_lem : row.resolution_reason ≡ reason
  pub operation_lem : a.operation_id ≡ operation
  pub owner : wallet_subscriber a.wallet_id old ≡ some subscriber

-- An open case of a payment without allocation, whose operation ID was nowhere in use, is resolved:
-- the payment is credited, and the case names the wallet and the allocation.
pub record IsResolved (case subscriber operation : ℕ) (old new : Db) (a : PaymentAllocation)
    : Type 0 where
  pub row : UnmatchedPaymentCase
  pub answered : UnmatchedPaymentCase
  pub payment : Payment
  pub found : find (λ c. c.id == case) old.cases ≡ some row
  pub open_before : row.status ≡ CaseStatus.opened
  pub its_payment : payment_at row.payment_id old.payments ≡ some payment
  pub unallocated : exists (λ b. b.payment_id == payment.id) old.allocations ≡ false
  pub unused : reject_conflicts operation old ≡ ok tt
  pub credited :
      IsCredited payment subscriber operation
        (tables old)
        (new.entries, new.payments, new.allocations, old.cases)
        new.wallets
        a
  pub cases : new.cases ≡ update (λ c. c.id == answered.id) (λ _. answered) old.cases
  pub answer_lem :
      (answered.id ≡ row.id)
      × (answered.status ≡ CaseStatus.resolved)
      × (answered.resolved_wallet_id ≡ some a.wallet_id)
      × (answered.resolution_allocation_id ≡ some a.id)

unguarded :
    {A : Type 0} (b : Bool) (e : Error) (db db' : Db) (a : A) (y : Result Error A × Db)
    → (if b then (err e, db) else y) ≡ (ok a, db')
    → y ≡ (ok a, db')
unguarded true e db db' a y h = cc
unguarded false e db db' a y h = h

save_resolution_ok :
    (c q : UnmatchedPaymentCase) (db db' : Db)
    → save_resolution c db ≡ (ok q, db')
    → (c ≡ q) × (replace_case c db ≡ db')
unfolding save_resolution
save_resolution_ok c q db db' h = save_valid_ok _ _ _ _ q db db' (unguarded _ _ db db' q _ h)

IsCredited-at :
    (wallets : List Wallet) (p : Payment) (operation : ℕ) (a : PaymentAllocation) {s s' : ℕ}
    {old old' new new' : Tables}
    → s ≡ s'
    → old ≡ old'
    → new ≡ new'
    → IsCredited p s operation old new wallets a
    → IsCredited p s' operation old' new' wallets a
IsCredited-at wallets p operation a same_subscriber same_old same_new h =
    rw (← same_subscriber, ← same_old, ← same_new) h

allocation_at_IsIn :
    (k : Option ℕ) (a : PaymentAllocation) (rows : List PaymentAllocation)
    → allocation_at k rows ≡ some a
    → IsIn a rows
allocation_at_IsIn none a rows h = cc
allocation_at_IsIn (some k) a rows h = find_IsIn _ rows a h

module _ (r : Resolution) (c : UnmatchedPaymentCase) (p : Payment) (db : Db) where
  resolving_IsIn :
      (a : PaymentAllocation) → resolving_allocation r c p db ≡ some a → IsIn a db.allocations
  resolving_IsIn a h =
      elim (Option-cases (allocation_at c.resolution_allocation_id db.allocations)) [
        | inr (b, is) ↦
            allocation_at_IsIn c.resolution_allocation_id a db.allocations (ground (arith, is, h))
        | inl gone ↦
            find_IsIn (λ a. a.payment_id == p.id && a.operation_id == r.operation) db.allocations a
              (ground (arith, gone, h))
      ]

  IsAnswered-ok :
      (a : PaymentAllocation)
      → c.status ≡ CaseStatus.resolved
      → find (λ x. x.id == r.case) db.cases ≡ some c
      → payment_at c.payment_id db.payments ≡ some p
      → already_resolved r c p db ≡ ok a
      → IsAnswered r.case r.subscriber r.operation r.reason db a
  unfolding already_resolved
  IsAnswered-ok a resolved at_case its_payment h =
      elim (Option-cases (resolving_allocation r c p db)) [
        | inl gone ↦ absurd (ground (arith, gone))
        | inr (b, found) ↦ elim (Bool-cases (same_resolution r c p db b)) [
          | inr differs ↦ absurd (ground (arith, found, differs))
          | inl same ↦
              let it : b ≡ a = ground (arith, found, same) in
              let owner : opt_eq (wallet_subscriber b.wallet_id db) (some r.subscriber) ≡ true =
                ground (arith, same) in
              let wallet : opt_eq c.resolved_wallet_id (some b.wallet_id) ≡ true =
                ground (arith, same) in
              rw (← it) record {
                row = c;
                payment = p;
                found = at_case;
                resolved_before = resolved;
                its_payment = its_payment;
                stored = resolving_IsIn b found;
                pays = ground (arith, same);
                wallet = opt_eq-some wallet;
                reason_lem = text_eq-eq _ _ (ground (arith, same));
                operation_lem = ground (arith, same);
                owner = opt_eq-some owner;
              }
        ]
      ]

  allocate_case_ok :
      (db' : Db) (a : PaymentAllocation)
      → c.status ≡ CaseStatus.opened
      → find (λ x. x.id == r.case) db.cases ≡ some c
      → payment_at c.payment_id db.payments ≡ some p
      → exists (λ b. b.payment_id == p.id) db.allocations ≡ false
      → allocate_case r c p db ≡ (ok a, db')
      → IsResolved r.case r.subscriber r.operation db db' a
  unfolding allocate_case lock_subscriber record_event
  allocate_case_ok db' a opened found its_payment free h = bind_then _ _ db h λ t s1 asked h1.
      bind_then _ _ s1 h1 λ s s2 locked h2. bind_then _ _ s2 h2 λ b s3 credited h3.
        bind_then _ _ s3 h3 λ saved s4 answered h4. bind_then _ _ s4 h4 λ _ s5 told1 h5.
          bind_then _ _ s5 h5 λ _ s6 told2 h6. bind_then _ _ s6 h6 λ _ s7 told3 h7.
            let (unused, same1) = ask_ok _ t db s1 asked in
            let (there, same2) = require_ok _ _ s s1 s2 locked in
            let owner : s.id ≡ r.subscriber = ground (
              arith,
              find_sound (λ (x : Subscriber). x.id == r.subscriber) s1.subscribers s there,
            ) in
            let before : db ≡ s2 = same1 ∙ same2 in
            let paid = credit_wallet_ok p s.id r.operation _ _ s2 s3 b credited in
            let (row, same4) = save_resolution_ok (resolved_case r c b) saved s3 s4 answered in
            let same5 = ap (λ x. x.1) told1 in
            let same6 = ap (λ x. x.1) told2 in
            let same7 = ap (λ x. x.1) told3 in
            let (result, same8) = pure_ok b a s7 db' h7 in
            let same_cases : s3.cases ≡ db.cases = paid.others.2 ∙ sym (ap (λ d. d.cases) before) in
            let new_tables : tables s3 ≡ (s3.entries, s3.payments, s3.allocations, db.cases) =
              ap (λ cs. (s3.entries, s3.payments, s3.allocations, cs)) same_cases in
            let answer = resolved_case r c b in
            rw (← same8, ← same7, ← same6, ← same5, ← same4, ← result)
              record {
                row = c;
                answered = answer;
                payment = p;
                found = found;
                open_before = opened;
                its_payment = its_payment;
                unallocated = free;
                unused = unused;
                credited =
                    IsCredited-at s3.wallets p r.operation b owner (sym (ap tables before))
                      new_tables paid;
                cases = ap (update (λ x. x.id == answer.id) (λ _. answer)) same_cases;
                answer_lem = (refl, refl, refl, refl);
              }

resolve_case_ok :
    (r : Resolution) (status : CaseStatus) (c : UnmatchedPaymentCase) (p : Payment) (db db' : Db)
    (a : PaymentAllocation)
    → c.status ≡ status
    → find (λ x. x.id == r.case) db.cases ≡ some c
    → payment_at c.payment_id db.payments ≡ some p
    → resolve_case r status c p db ≡ (ok a, db')
    → ((db ≡ db') × IsAnswered r.case r.subscriber r.operation r.reason db a)
      ⊎ IsResolved r.case r.subscriber r.operation db db' a
unfolding resolve_case
resolve_case_ok r CaseStatus.resolved c p db db' a is found its_payment h =
    let (answer, same) = ask_ok _ a db db' h in
    inl (same, IsAnswered-ok r c p db a is found its_payment answer)
resolve_case_ok r CaseStatus.opened c p db db' a is found its_payment h =
    bind_then _ _ db h λ allocated s1 queried h1.
      let (is_so, same) = gets_ok _ allocated db s1 queried in
      let (free, ran) = refuse_ok _ _ _ s1 h1 in
      inr (
        allocate_case_ok r c p db db' a is found its_payment (is_so ∙ free)
          (ap (allocate_case r c p) same ∙ ran))

-- What the resolution of an unmatched payment that returns has done. The case was resolved before
-- with the same reason, the stored allocation that is answered is its payment's, under the same
-- operation ID and in the wallet of the same subscriber, which the case names, and the database is
-- unchanged; or the case was open, its payment had no allocation, and the operation ID was in use nowhere. Then one ledger entry
-- credits the whole payment to the wallet of the subscriber, with one allocation, and in the table of
-- cases the row with its ID becomes one that is resolved and names that wallet and that allocation.
pub resolve_unmatched_payment_ok :
    (case subscriber : ℕ) (operation_id : RawId) (reason : Text) (actor : Option Actor) (now : ℕ)
    (db db' : Db) (a : PaymentAllocation)
    → resolve_unmatched_payment case subscriber operation_id reason actor now db ≡ (ok a, db')
    → (k : ℕ) × (text : Text) × (normalize_operation_id operation_id ≡ ok k)
      × (validate_ledger_reason reason ≡ ok text)
      × (((db ≡ db') × IsAnswered case subscriber k text db a)
          ⊎ IsResolved case subscriber k db db' a)
unfolding resolve_unmatched_payment
resolve_unmatched_payment_ok case subscriber operation_id reason actor now db db' a h =
    bind_then _ _ db (atomic_ok _ db h) λ operator s1 allowed h1.
      bind_then _ _ s1 h1 λ k s2 named h2. bind_then _ _ s2 h2 λ text s3 reasoned h3.
        bind_then _ _ s3 h3 λ c s4 found h4. bind_then _ _ s4 h4 λ p s5 paid h5.
          let (is_k, same2) = lift_ok _ k s1 s2 named in
          let (is_text, same3) = lift_ok _ text s2 s3 reasoned in
          let to3 : db ≡ s3 = (lift_ok _ operator db s1 allowed).1 ∙ same2 ∙ same3 in
          let (is_c, same4) = require_ok _ _ c s3 s4 found in
          let (is_p, same5) = require_ok _ _ p s4 s5 paid in
          let r : Resolution = record {
            case = case;
            subscriber = subscriber;
            operation = k;
            reason = text;
            actor = operator.id;
            now = now;
          } in
          let its_case = ap (λ d. find (λ x. x.id == case) d.cases) to3 ∙ is_c in
          let its_payment = ap (λ d. payment_at c.payment_id d.payments) (to3 ∙ same4) ∙ is_p in
          let run = ap (resolve_case r c.status c p) (to3 ∙ same4 ∙ same5) ∙ h5 in
          (
            k,
            text,
            is_k,
            is_text,
            resolve_case_ok r c.status c p db db' a refl its_case its_payment run,
          )
