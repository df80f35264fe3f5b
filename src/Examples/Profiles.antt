-- ===== src/Examples/Profiles.antt =====
-- The profile of the sandbox Paybill is created from the configuration.
use supersurf_billing_phase.Common.{
  ◌≡◌, ◌⊎◌, refl, true, false, Option, none, some, text_eq, strip, lstrip, rstrip, is_space,
  all_codes,
}
use supersurf_billing_phase.Exec.{atomic, ◌>>=◌}
use supersurf_billing_phase.Schema.Rows.{PaymentProviderProfile}
use supersurf_billing_phase.Schema.Database.{Db}
use supersurf_billing_phase.Validation.{complaints, first_complaint, collect}
use supersurf_billing_phase.Ledger.Save.{save_valid}
use supersurf_billing_phase.Service.Lookup.{fresh, record_event}
use supersurf_billing_phase.Calls.Reach.{empty}
use supersurf_billing_phase.Paybill.Settings.{is_identifier, is_approved}
use supersurf_billing_phase.Paybill.Sync.{
  profile_full_clean, identity_protected, save_profile, sync_found, sync_approved,
  sync_mpesa_paybill_profile,
}
use supersurf_billing_phase.Paybill.Synced.{IsSynced, sync_mpesa_paybill_profile_ok}
use supersurf_billing_phase.Examples.Data.{ascii}
use supersurf_billing_phase.Examples.Paybill.{settings, operation_of, paybill}

abbrev configured : Db
configured = (sync_mpesa_paybill_profile settings empty).1

abbrev created : PaymentProviderProfile
created = record paybill { id = 0 }

sync_mpesa_paybill_profile_ok_example :
    ((settings.ingestion_enabled ≡ false)
      × (◌≡◌ {A = Option PaymentProviderProfile} (some created) none)
      × (configured.profiles ≡ empty.profiles))
    ⊎ ((settings.ingestion_enabled ≡ true)
        × (is_approved settings ≡ true)
        × IsSynced ascii settings operation_of configured.profiles)
unfolding atomic ◌>>=◌ text_eq strip lstrip rstrip is_space all_codes complaints first_complaint
    collect save_valid fresh record_event is_identifier is_approved profile_full_clean
    identity_protected save_profile sync_found sync_approved sync_mpesa_paybill_profile
sync_mpesa_paybill_profile_ok_example =
    sync_mpesa_paybill_profile_ok ascii settings operation_of empty configured (some created) tt
      refl
