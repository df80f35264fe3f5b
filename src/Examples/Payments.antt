-- ===== src/Examples/Payments.antt =====
-- The ingestion of payments on the small database.
use supersurf_billing_phase.Common.{ℕ, ◌≡◌, none, refl, ◌⊎◌, false, some, [], ◌∷◌, codes}
use supersurf_billing_phase.Schema.Choices.{Source}
use supersurf_billing_phase.Schema.Rows.{Payment}
use supersurf_billing_phase.Schema.Database.{Db}
use supersurf_billing_phase.Calls.{run}
use supersurf_billing_phase.Calls.Reach.{empty}
use supersurf_billing_phase.Payments.Ingest.{Ingestion}
use supersurf_billing_phase.Payments.Again.{ingest_payment_core-again}
use supersurf_billing_phase.Payments.Ingested.{IsKnown, IsReceived, ingest_payment_core_ok}
use supersurf_billing_phase.Examples.Data.{ascii, registry}
use supersurf_billing_phase.Exec.{atomic, ◌>>=◌}
use supersurf_billing_phase.Common.{Text, text_eq, strip, all_codes}
use supersurf_billing_phase.Validation.{complaints, first_complaint, collect}
use supersurf_billing_phase.Money.{normalize_ledger_amount}
use supersurf_billing_phase.Ledger.Clean as LedgerClean
use supersurf_billing_phase.Ledger.Save.{latest_entry, resulting_balance, save_ledger_entry}
use supersurf_billing_phase.Service.Access.{require_permission}
use supersurf_billing_phase.Service.Inputs.{
  normalize_operation_id, normalize_previous_period_id, normalize_direction, validate_reason,
  validate_ledger_reason, validate_aware,
}
use supersurf_billing_phase.Service.Lookup.{
  fresh, lock_subscriber, lock_service, wallet_checks, get_or_create_wallet, save_wallet,
  lock_wallet, lock_existing_wallet, record_event,
}
use supersurf_billing_phase.Payments.Clean.{
  payment_full_clean, allocation_full_clean, case_full_clean,
}
use supersurf_billing_phase.Payments.References.{
  normalize_account_reference, is_account_reference, normalize_payload_digest,
  unmatched_reason_code,
}
use supersurf_billing_phase.Payments.Save.{
  create_payment, save_allocation, save_case, credit_wallet, reject_conflicts,
}
use supersurf_billing_phase.Payments.Ingest.{
  equivalent, referenced, ingest_payment_core, ingest_fake_payment,
}
use supersurf_billing_phase.Exec.{ok}
use supersurf_billing_phase.Service.Inputs.{RawId}
use supersurf_billing_phase.Schema.Choices.{CaseStatus, ReasonCode}
use supersurf_billing_phase.Schema.Rows.{PaymentAllocation}
use supersurf_billing_phase.Payments.Resolved.{IsAnswered, IsResolved, resolve_unmatched_payment_ok}
use supersurf_billing_phase.Payments.Resolve.{already_resolved, resolve_unmatched_payment}
use supersurf_billing_phase.Payments.Save.{save_resolution}
use supersurf_billing_phase.Examples.Data.{operator}

abbrev unpaid : Db
unpaid = run ascii (registry ∷ []) empty

-- 500 shillings for the subscriber's account.
abbrev arrival : Ingestion
arrival = record {
  profile = 4;
  transaction = codes "T1";
  amount = 50000;
  received_at = 1000;
  reference = codes "SS000001";
  operation = 301;
  digest = [];
  actor = some 7;
  source = Source.operator;
  audit_reason = codes "Fake payment ingestion";
  callback = false;
}

abbrev paid : Db
paid = (ingest_payment_core ascii arrival unpaid).1

abbrev received : Payment
received = record {
  id = 0;
  provider_profile_id = 4;
  provider_transaction_id = codes "T1";
  amount_minor = 50000;
  currency = codes "KES";
  received_at = 1000;
  account_reference = codes "SS000001";
  payload_digest = [];
}

ingest_payment_core_ok_example :
    IsKnown ascii arrival received unpaid paid ⊎ IsReceived ascii arrival received unpaid paid
unfolding atomic ◌>>=◌ text_eq strip all_codes complaints first_complaint collect
    normalize_ledger_amount LedgerClean.full_clean latest_entry resulting_balance save_ledger_entry
    require_permission normalize_operation_id normalize_previous_period_id normalize_direction
    validate_reason validate_ledger_reason validate_aware fresh lock_subscriber lock_service
    wallet_checks get_or_create_wallet save_wallet lock_wallet lock_existing_wallet record_event
    payment_full_clean allocation_full_clean case_full_clean normalize_account_reference
    is_account_reference normalize_payload_digest unmatched_reason_code create_payment
    save_allocation save_case credit_wallet reject_conflicts equivalent referenced
    ingest_payment_core ingest_fake_payment
ingest_payment_core_ok_example = ingest_payment_core_ok ascii arrival received unpaid paid refl

ingest_payment_core-again_example : ingest_payment_core ascii arrival paid ≡ (ok received, paid)
unfolding atomic ◌>>=◌ text_eq strip all_codes complaints first_complaint collect
    normalize_ledger_amount LedgerClean.full_clean latest_entry resulting_balance save_ledger_entry
    require_permission normalize_operation_id normalize_previous_period_id normalize_direction
    validate_reason validate_ledger_reason validate_aware fresh lock_subscriber lock_service
    wallet_checks get_or_create_wallet save_wallet lock_wallet lock_existing_wallet record_event
    payment_full_clean allocation_full_clean case_full_clean normalize_account_reference
    is_account_reference normalize_payload_digest unmatched_reason_code create_payment
    save_allocation save_case credit_wallet reject_conflicts equivalent referenced
    ingest_payment_core ingest_fake_payment
ingest_payment_core-again_example =
    ingest_payment_core-again ascii arrival received unpaid paid refl refl refl refl

-- The same payment without a reference, and its case.
abbrev unmatched : Db
unmatched = record unpaid {
  next_id = 2;
  payments = record received { account_reference = [] } ∷ [];
  cases =
      record {
        id = 1;
        payment_id = 0;
        status = CaseStatus.opened;
        reason_code = ReasonCode.missing_reference;
        resolved_wallet_id = none;
        resolution_allocation_id = none;
        resolution_reason = [];
        resolved_by_id = none;
        resolved_at = none;
      }
      ∷ [];
}

abbrev matched : Db
matched = (resolve_unmatched_payment 1 1 (RawId.uuid 302) (codes "Found") operator 2000 unmatched).1

abbrev allocation : PaymentAllocation
allocation = record {
  id = 4;
  payment_id = 0;
  wallet_id = 2;
  ledger_entry_id = 3;
  operation_id = 302;
  amount_minor = 50000;
  currency = codes "KES";
  creation_source = Source.operator;
  created_by_id = some 7;
}

resolve_unmatched_payment_ok_example :
    (k : ℕ) × (text : Text) × (normalize_operation_id (RawId.uuid 302) ≡ ok k)
    × (validate_ledger_reason (codes "Found") ≡ ok text)
    × (((unmatched ≡ matched) × IsAnswered 1 1 k text unmatched allocation)
        ⊎ IsResolved 1 1 k unmatched matched allocation)
unfolding atomic ◌>>=◌ text_eq strip all_codes complaints first_complaint collect
    normalize_ledger_amount LedgerClean.full_clean latest_entry resulting_balance save_ledger_entry
    require_permission normalize_operation_id normalize_previous_period_id normalize_direction
    validate_reason validate_ledger_reason validate_aware fresh lock_subscriber lock_service
    wallet_checks get_or_create_wallet save_wallet lock_wallet lock_existing_wallet record_event
    payment_full_clean allocation_full_clean case_full_clean save_allocation save_resolution
    credit_wallet reject_conflicts already_resolved resolve_unmatched_payment
resolve_unmatched_payment_ok_example =
    resolve_unmatched_payment_ok 1 1 (RawId.uuid 302) (codes "Found") operator 2000 unmatched
      matched allocation refl
