-- ===== src/Examples/Guards.antt =====
-- A stored entry and a stored payment that are saved again.
use supersurf_billing_phase.Common.{◌≡◌, refl, none, some, [], ◌∷◌, codes, text_eq}
use supersurf_billing_phase.Schema.Choices.{EntryType, Direction, Source}
use supersurf_billing_phase.Schema.Rows.{LedgerEntry, Payment}
use supersurf_billing_phase.Schema.Database.{Db}
use supersurf_billing_phase.Calls.Reach.{empty}
use supersurf_billing_phase.Guards.Reject.{
  reject_changes, reject_entry_changes, reject_payment_changes,
}
use supersurf_billing_phase.Guards.Unchanged.{
  reject_entry_changes-unchanged, reject_payment_changes-unchanged,
}

abbrev entry : LedgerEntry
entry = record {
  id = 3;
  wallet_id = 0;
  sequence_number = 1;
  operation_id = 101;
  entry_type = EntryType.manual_credit;
  direction = Direction.credit;
  amount_minor = 200000;
  balance_after_minor = 200000;
  currency = codes "KES";
  previous_entry_id = none;
  reverses_entry_id = none;
  reason = codes "Opening";
  creation_source = Source.operator;
  created_by_id = some 7;
}

abbrev payment : Payment
payment = record {
  id = 5;
  provider_profile_id = 4;
  provider_transaction_id = codes "T1";
  amount_minor = 50000;
  currency = codes "KES";
  received_at = 1000;
  account_reference = codes "SS000001";
  payload_digest = [];
}

abbrev stored : Db
stored = record empty { entries = entry ∷ []; payments = payment ∷ [] }

reject_entry_changes-unchanged_example : entry ≡ entry
unfolding reject_entry_changes reject_changes text_eq
reject_entry_changes-unchanged_example =
    reject_entry_changes-unchanged (some (codes "updated_at" ∷ [])) entry entry stored refl refl

reject_payment_changes-unchanged_example : payment ≡ payment
unfolding reject_payment_changes reject_changes text_eq
reject_payment_changes-unchanged_example =
    reject_payment_changes-unchanged none payment payment stored refl refl
