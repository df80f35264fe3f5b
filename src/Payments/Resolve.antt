-- ===== src/Payments/Resolve.antt =====
-- `resolve_unmatched_payment` of billing/services.py.
use supersurf_billing_phase.Common.{
  ℕ, Bool, ◌&&◌, Option, none, some, ◌==◌, opt_eq, if◌then◌else◌, find, exists, Text, text_eq,
}
use supersurf_billing_phase.Exec.{
  Result, ok, err, pure, lift, gets, ask, require, refuse, atomic, ◌>>=◌, ◌>>◌,
}
use supersurf_billing_phase.Errors.{Error}
use supersurf_billing_phase.Schema.Choices.{CaseStatus, Source}
use supersurf_billing_phase.Schema.Rows.{
  Payment, PaymentAllocation, UnmatchedPaymentCase, AuditAction,
}
use supersurf_billing_phase.Schema.Database.{Db, Action}
use supersurf_billing_phase.Payments.Clean.{payment_at, allocation_at}
use supersurf_billing_phase.Payments.Save.{save_resolution, credit_wallet, reject_conflicts}
use supersurf_billing_phase.Service.Access.{Actor, require_permission, resolution_permissions}
use supersurf_billing_phase.Service.Inputs.{RawId, normalize_operation_id, validate_ledger_reason}
use supersurf_billing_phase.Service.Lookup.{lock_subscriber, wallet_subscriber, record_event}

-- The normalised arguments, with the time of the call.
pub record Resolution : Type 0 where
  pub case : ℕ
  pub subscriber : ℕ
  pub operation : ℕ
  pub reason : Text
  pub actor : ℕ
  pub now : ℕ

-- `case.resolution_allocation`, or the payment's allocation under this operation.
abbrev pub resolving_allocation :
    Resolution → UnmatchedPaymentCase → Payment → Db → Option PaymentAllocation
resolving_allocation r c p db = elim (allocation_at c.resolution_allocation_id db.allocations) [
  | some a ↦ some a
  | none ↦ find (λ a. a.payment_id == p.id && a.operation_id == r.operation) db.allocations
]

abbrev pub same_resolution :
    Resolution → UnmatchedPaymentCase → Payment → Db → PaymentAllocation → Bool
same_resolution r c p db a =
    a.operation_id == r.operation
    && a.payment_id == p.id
    && opt_eq c.resolved_wallet_id (some a.wallet_id)
    && opt_eq (wallet_subscriber a.wallet_id db) (some r.subscriber)
    && text_eq c.resolution_reason r.reason

-- A resolved case is answered by its allocation, to the same request alone.
unfoldable pub already_resolved :
    Resolution → UnmatchedPaymentCase → Payment → Db → Result Error PaymentAllocation
already_resolved r c p db = elim (resolving_allocation r c p db) [
  | none ↦ err Error.case_already_resolved
  | some a ↦ if same_resolution r c p db a then ok a else err Error.case_already_resolved
]

abbrev pub resolved_case :
    Resolution → UnmatchedPaymentCase → PaymentAllocation → UnmatchedPaymentCase
resolved_case r c a = record c {
  status = CaseStatus.resolved;
  resolved_wallet_id = some a.wallet_id;
  resolution_allocation_id = some a.id;
  resolution_reason = r.reason;
  resolved_by_id = some r.actor;
  resolved_at = some r.now;
}

unfoldable pub allocate_case :
    Resolution → UnmatchedPaymentCase → Payment → Action PaymentAllocation
allocate_case r c p = do
  ask (reject_conflicts r.operation)
  locked ← lock_subscriber r.subscriber
  allocation ← credit_wallet p locked.id r.operation (some r.actor) Source.operator
  saved ← save_resolution (resolved_case r c allocation)
  record_event (some r.actor) AuditAction.payment_allocated allocation.id r.reason
  record_event (some r.actor) AuditAction.payment_unmatched_resolved saved.id r.reason
  record_event (some r.actor) AuditAction.wallet_payment_credit allocation.ledger_entry_id r.reason
  pure allocation

unfoldable pub resolve_case :
    Resolution → CaseStatus → UnmatchedPaymentCase → Payment → Action PaymentAllocation
unfolding allocate_case
resolve_case r CaseStatus.resolved c p = ask (already_resolved r c p)
resolve_case r CaseStatus.opened c p = do
  allocated ← gets (λ db. exists (λ a. a.payment_id == p.id) db.allocations)
  refuse allocated Error.payment_already_allocated (allocate_case r c p)

unfoldable pub resolve : Resolution → Action PaymentAllocation
unfolding resolve_case
resolve r = do
  c ← require (λ db. find (λ c. c.id == r.case) db.cases) Error.does_not_exist
  p ← require (λ db. payment_at c.payment_id db.payments) Error.does_not_exist
  resolve_case r c.status c p

-- `resolve_unmatched_payment`
unfoldable pub resolve_unmatched_payment :
    ℕ → ℕ → RawId → Text → Option Actor → ℕ → Action PaymentAllocation
unfolding resolve
resolve_unmatched_payment unmatched_case subscriber operation_id reason actor now = atomic do
  operator ← lift (require_permission actor resolution_permissions)
  operation ← lift (normalize_operation_id operation_id)
  reason ← lift (validate_ledger_reason reason)
  resolve (record {
    case = unmatched_case;
    subscriber = subscriber;
    operation = operation;
    reason = reason;
    actor = operator.id;
    now = now;
  })
