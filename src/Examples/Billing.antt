-- ===== src/Examples/Billing.antt =====
-- Subscriptions, charges and periods on the small database.
use supersurf_billing_phase.Common.{ℕ, ◌≡◌, refl, ◌⊎◌, none, some, [], ◌∷◌, ◌==◌, find, codes}
use supersurf_billing_phase.Schema.Choices.{
  PeriodType, SubscriptionStatus, EntryType, Direction, Source,
}
use supersurf_billing_phase.Schema.Rows.{BillingCharge, BillingPeriod, Snapshot}
use supersurf_billing_phase.Periods.Renewed.{IsRenewed, renew_billing_period_ok}
use supersurf_billing_phase.Charges.Again.{post_wallet_funded_period_again}
use supersurf_billing_phase.Charges.Funded.{IsFunded}
use supersurf_billing_phase.Charges.Calls.{post_wallet_funded_period_ok}
use supersurf_billing_phase.Service.Inputs.{or_now}
use supersurf_billing_phase.Exec.{atomic, ◌>>=◌}
use supersurf_billing_phase.Common.{text_eq, strip, all_codes}
use supersurf_billing_phase.Validation.{complaints, first_complaint, collect}
use supersurf_billing_phase.Money.{normalize_ledger_amount}
use supersurf_billing_phase.Ledger.Clean as LedgerClean
use supersurf_billing_phase.Ledger.Save.{latest_entry, resulting_balance, save_ledger_entry}
use supersurf_billing_phase.Service.Access.{require_permission}
use supersurf_billing_phase.Service.Inputs.{
  normalize_operation_id, normalize_previous_period_id, normalize_direction, validate_reason,
  validate_ledger_reason, validate_aware,
}
use supersurf_billing_phase.Service.Lookup.{
  fresh, lock_subscriber, lock_service, wallet_checks, get_or_create_wallet, save_wallet,
  lock_wallet, lock_existing_wallet, record_event,
}
use supersurf_billing_phase.Periods.Clean as PeriodsClean
use supersurf_billing_phase.Periods.Dates.{period_dates}
use supersurf_billing_phase.Periods.Save.{
  latest_period, save_billing_period, eligible, open_period, existing_period,
}
use supersurf_billing_phase.Periods.Renew.{
  require_period_permission, activate_billing_period, renew_billing_period,
}
use supersurf_billing_phase.Charges.Clean.{save_billing_charge}
use supersurf_billing_phase.Charges.Clean as ChargesClean
use supersurf_billing_phase.Charges.Post.{ChargeRequest, existing_charge, post_wallet_funded_period}
use supersurf_billing_phase.Schema.Database.{Db}
use supersurf_billing_phase.Exec.{ok}
use supersurf_billing_phase.Calls.Reach.{empty}
use supersurf_billing_phase.Service.Inputs.{RawId, Timestamp}
use supersurf_billing_phase.Examples.Data.{operator, subscriber, line, plan, profile}

abbrev noon : ℕ
noon = 86400000000000

abbrev home : Snapshot
home = record {
  plan_name = codes "Home";
  download_speed_mbps = 10;
  price_minor = 150000;
  currency = codes "KES";
  duration_days = 30;
  grace_period_hours = 24;
}

-- The service has a package, and the wallet has 2000 shillings.
abbrev subscribed : Db
subscribed = record empty {
  next_id = 3;
  subscribers = subscriber ∷ [];
  services = line ∷ [];
  plans = plan ∷ [];
  profiles = profile ∷ [];
  subscriptions =
      record {
        id = 2;
        service_id = 2;
        plan_id = 3;
        status = SubscriptionStatus.active;
        starts_at = 86400000000000;
        ended_at = none;
        snapshot = home;
      }
      ∷ [];
  wallets = record { id = 0; subscriber_id = 1; currency = codes "KES" } ∷ [];
  entries =
      record {
        id = 1;
        wallet_id = 0;
        sequence_number = 1;
        operation_id = 101;
        entry_type = EntryType.manual_credit;
        direction = Direction.credit;
        amount_minor = 200000;
        balance_after_minor = 200000;
        currency = codes "KES";
        previous_entry_id = none;
        reverses_entry_id = none;
        reason = codes "Opening";
        creation_source = Source.operator;
        created_by_id = some 7;
      }
      ∷ [];
}

abbrev charged : Db
charged =
    (post_wallet_funded_period 2 (RawId.uuid 201) RawId.blank (codes "First") operator none noon
      PeriodType.activation subscribed).1

abbrev first_period : BillingPeriod
first_period = record {
  id = 3;
  service_id = 2;
  subscription_id = 2;
  sequence_number = 1;
  period_type = PeriodType.activation;
  operation_id = 201;
  previous_period_id = none;
  effective_at = 86400000000000;
  starts_at = 86400000000000;
  expires_at = 88992000000000;
  grace_until = 89078400000000;
  snapshot = home;
}

-- The service has its first period.
abbrev activated : Db
activated = record subscribed { next_id = 6; periods = first_period ∷ [] }

abbrev renewed : Db
renewed =
    (renew_billing_period 2 (RawId.uuid 202) (RawId.uuid 3) (codes "Next") operator
      (some (Timestamp.aware 87264000000000)) noon activated).1

abbrev first_charge : BillingCharge
first_charge = record {
  id = 5;
  service_id = 2;
  subscription_id = 2;
  billing_period_id = 3;
  wallet_id = 0;
  ledger_entry_id = 4;
  operation_id = 201;
  charge_type = PeriodType.activation;
  amount_minor = 150000;
  currency = codes "KES";
  reason = codes "First";
  created_by_id = some 7;
}

post_wallet_funded_period_ok_example :
    (r : ChargeRequest) × (normalize_operation_id (RawId.uuid 201) ≡ ok r.operation)
    × (validate_ledger_reason (codes "First") ≡ ok r.reason)
    × (normalize_previous_period_id RawId.blank ≡ ok r.expected)
    × (r.service ≡ 2)
    × (r.charge_type ≡ PeriodType.activation)
    × (((subscribed ≡ charged)
          × (find (λ c. c.operation_id == r.operation) subscribed.charges ≡ some first_charge)
          × (first_charge.service_id ≡ 2)
          × (first_charge.charge_type ≡ PeriodType.activation))
        ⊎ ((find (λ c. c.operation_id == r.operation) subscribed.charges ≡ none)
            × IsFunded r subscribed charged first_charge))
unfolding atomic ◌>>=◌ text_eq strip all_codes complaints first_complaint collect
    normalize_ledger_amount LedgerClean.full_clean latest_entry resulting_balance save_ledger_entry
    require_permission normalize_operation_id normalize_previous_period_id normalize_direction
    validate_reason validate_ledger_reason validate_aware fresh lock_subscriber lock_service
    wallet_checks get_or_create_wallet save_wallet lock_wallet lock_existing_wallet record_event
    PeriodsClean.full_clean period_dates latest_period save_billing_period eligible open_period
    existing_period require_period_permission activate_billing_period renew_billing_period
    ChargesClean.full_clean save_billing_charge existing_charge post_wallet_funded_period
post_wallet_funded_period_ok_example =
    post_wallet_funded_period_ok 2 (RawId.uuid 201) RawId.blank (codes "First") operator none noon
      PeriodType.activation subscribed charged first_charge refl

post_wallet_funded_period_again_example :
    post_wallet_funded_period 2
      (RawId.uuid 201)
      RawId.blank
      (codes "First")
      operator
      none
      noon
      PeriodType.activation
      charged
    ≡ (ok first_charge, charged)
unfolding atomic ◌>>=◌ text_eq strip all_codes complaints first_complaint collect
    normalize_ledger_amount LedgerClean.full_clean latest_entry resulting_balance save_ledger_entry
    require_permission normalize_operation_id normalize_previous_period_id normalize_direction
    validate_reason validate_ledger_reason validate_aware fresh lock_subscriber lock_service
    wallet_checks get_or_create_wallet save_wallet lock_wallet lock_existing_wallet record_event
    PeriodsClean.full_clean period_dates latest_period save_billing_period eligible open_period
    existing_period require_period_permission activate_billing_period renew_billing_period
    ChargesClean.full_clean save_billing_charge existing_charge post_wallet_funded_period
post_wallet_funded_period_again_example =
    post_wallet_funded_period_again 2 (RawId.uuid 201) RawId.blank (codes "First") operator none
      noon PeriodType.activation subscribed charged first_charge refl

-- The renewal on the tenth day starts when the first thirty days are over.
abbrev second_period : BillingPeriod
second_period = record {
  id = 6;
  service_id = 2;
  subscription_id = 2;
  sequence_number = 2;
  period_type = PeriodType.renewal;
  operation_id = 202;
  previous_period_id = some 3;
  effective_at = 87264000000000;
  starts_at = 88992000000000;
  expires_at = 91584000000000;
  grace_until = 91670400000000;
  snapshot = home;
}

renew_billing_period_ok_example :
    (k : ℕ) × (n : ℕ) × (normalize_operation_id (RawId.uuid 202) ≡ ok k)
    × (normalize_previous_period_id (RawId.uuid 3) ≡ ok (some n))
    × IsRenewed 2 k n
        (or_now (some (Timestamp.aware (87264000000000))) noon)
        activated
        renewed
        second_period
unfolding atomic ◌>>=◌ text_eq strip all_codes complaints first_complaint collect
    normalize_ledger_amount LedgerClean.full_clean latest_entry resulting_balance save_ledger_entry
    require_permission normalize_operation_id normalize_previous_period_id normalize_direction
    validate_reason validate_ledger_reason validate_aware fresh lock_subscriber lock_service
    wallet_checks get_or_create_wallet save_wallet lock_wallet lock_existing_wallet record_event
    PeriodsClean.full_clean period_dates latest_period save_billing_period eligible open_period
    existing_period require_period_permission activate_billing_period renew_billing_period
renew_billing_period_ok_example =
    renew_billing_period_ok 2 (RawId.uuid 202) (RawId.uuid 3) (codes "Next") operator
      (some (Timestamp.aware (87264000000000))) noon activated renewed second_period refl
