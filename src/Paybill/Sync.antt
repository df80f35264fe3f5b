-- ===== src/Paybill/Sync.antt =====
-- `sync_mpesa_paybill_profile` of billing/services.py, with `PaymentProviderProfile.full_clean` and
-- `save` (billing/models.py).
use supersurf_billing_phase.Common.{
  ℕ, Bool, true, false, not, ◌&&◌, ◌||◌, Option, none, some, List, [], ◌∷◌, ◌==◌, ltb, length, find,
  exists, update, codes, text_eq, is_blank, strip, if◌then◌else◌,
}
use supersurf_billing_phase.Exec.{err, pure, gets, refuse, atomic, ◌>>=◌, ◌>>◌}
use supersurf_billing_phase.Errors.{Issue, Error}
use supersurf_billing_phase.Schema.Choices.{
  Provider, Product, ProfileEnvironment, provider_eq, product_eq, environment_eq, is_mpesa,
}
use supersurf_billing_phase.Schema.Rows.{PaymentProviderProfile, AuditAction}
use supersurf_billing_phase.Schema.Database.{Db, Action}
use supersurf_billing_phase.Validation.{Checks, collect}
use supersurf_billing_phase.Ledger.Save.{save_valid}
use supersurf_billing_phase.Service.Lookup.{fresh, record_event}
use supersurf_billing_phase.Paybill.Settings.{Settings, is_approved, is_sandbox_paybill_profile}

abbrev profile_field_checks : PaymentProviderProfile → Checks
profile_field_checks p =
    (is_blank p.name, Issue.text_blank)
    ∷ (ltb 120 (length p.name), Issue.text_too_long)
    ∷ (is_blank p.external_identifier, Issue.text_blank)
    ∷ (ltb 64 (length p.external_identifier), Issue.text_too_long)
    ∷ []

-- A fake provider has the fake product, M-PESA has another one.
abbrev mismatched : PaymentProviderProfile → Bool
mismatched p =
    (is_mpesa p.provider && product_eq p.product_type Product.fake)
    || (not (is_mpesa p.provider) && not (product_eq p.product_type Product.fake))

-- `PaymentProviderProfile.clean`
abbrev profile_clean_checks : PaymentProviderProfile → Checks
profile_clean_checks p =
    (is_blank (strip p.name), Issue.name_required)
    ∷ (is_blank (strip p.external_identifier), Issue.identifier_required)
    ∷ (mismatched p, Issue.product_not_of_provider)
    ∷ []

abbrev pub cleaned_profile : PaymentProviderProfile → PaymentProviderProfile
cleaned_profile p = record p {
  name = strip p.name;
  external_identifier = strip p.external_identifier;
}

abbrev same_place : PaymentProviderProfile → PaymentProviderProfile → Bool
same_place p r =
    product_eq r.product_type p.product_type && environment_eq r.environment p.environment

-- `payment_provider_profile_unique` and `one_active_mpesa_product_environment`, and the key.
abbrev profile_constraint_checks : Bool → Db → PaymentProviderProfile → Checks
profile_constraint_checks adding db p =
    (adding && exists (λ r. r.id == p.id) db.profiles, Issue.id_taken)
    ∷ (
      exists
          (λ r.
            (adding || not (r.id == p.id))
            && provider_eq r.provider p.provider
            && same_place p r
            && text_eq r.external_identifier p.external_identifier)
          db.profiles,
      Issue.profile_taken,
    )
    ∷ (
      is_mpesa p.provider
          && p.is_active
          && exists
              (λ r.
                (adding || not (r.id == p.id))
                && is_mpesa r.provider
                && r.is_active
                && same_place p r)
              db.profiles,
      Issue.active_profile_exists,
    )
    ∷ []

unfoldable pub profile_full_clean : Bool → Db → PaymentProviderProfile → List Issue
unfolding text_eq strip
profile_full_clean adding db p =
    collect (profile_field_checks p) (profile_clean_checks p)
      (profile_constraint_checks adding db (cleaned_profile p))

abbrev identity_differs : PaymentProviderProfile → PaymentProviderProfile → Bool
identity_differs p r = not (
    provider_eq r.provider p.provider
    && same_place p r
    && text_eq r.external_identifier p.external_identifier)

-- `_reject_paid_identity_changes`
unfoldable pub identity_protected : PaymentProviderProfile → Db → Bool
unfolding text_eq
identity_protected p db =
    exists (λ y. y.provider_profile_id == p.id) db.payments
    && exists (λ r. r.id == p.id && identity_differs p r) db.profiles

abbrev pub insert_profile : PaymentProviderProfile → Db → Db
insert_profile p db = record db { profiles = p ∷ db.profiles }

-- `save(update_fields=["is_active", "updated_at"])`
abbrev pub write_profile_active : PaymentProviderProfile → Db → Db
write_profile_active p db = record db {
  profiles = update (λ r. r.id == p.id) (λ r. record r { is_active = p.is_active }) db.profiles;
}

-- `PaymentProviderProfile.save`
unfoldable pub save_profile :
    Bool
    → (PaymentProviderProfile → Db → Db)
    → PaymentProviderProfile
    → Action PaymentProviderProfile
unfolding profile_full_clean save_valid identity_protected
save_profile adding write p db =
    if identity_protected p db
    then (err Error.immutable_row, db)
    else save_valid (Error.invalid_row Issue.profile_taken) (profile_full_clean adding db p)
        (write (cleaned_profile p)) (cleaned_profile p) db

module _ (settings : Settings) where
  abbrev pub new_profile : ℕ → PaymentProviderProfile
  new_profile k = record {
    id = k;
    name = codes "M-PESA Sandbox Paybill";
    provider = Provider.mpesa;
    product_type = Product.paybill;
    environment = ProfileEnvironment.sandbox;
    external_identifier = settings.external_identifier;
    is_active = true;
  }

  -- An active profile of the sandbox Paybill with another identifier.
  abbrev pub is_conflicting : PaymentProviderProfile → Bool
  is_conflicting p =
      is_sandbox_paybill_profile p
      && p.is_active
      && not (text_eq p.external_identifier settings.external_identifier)

  abbrev pub has_identifier : PaymentProviderProfile → Bool
  has_identifier p =
      is_sandbox_paybill_profile p && text_eq p.external_identifier settings.external_identifier

  -- The profile of the identifier is created, activated, or left as it is.
  unfoldable pub sync_found : Option PaymentProviderProfile → Action PaymentProviderProfile
  unfolding save_profile
  sync_found none = do
    k ← fresh
    saved ← save_profile true insert_profile (new_profile k)
    record_event none AuditAction.mpesa_paybill_profile_created saved.id
        (codes "approved_sandbox_paybill_configuration")
    pure saved
  sync_found (some p) = if p.is_active then pure p else do
    saved ← save_profile false write_profile_active (record p { is_active = true })
    record_event none AuditAction.mpesa_paybill_profile_activated saved.id
        (codes "approved_sandbox_paybill_configuration")
    pure saved

  unfoldable pub sync_approved : Action (Option PaymentProviderProfile)
  unfolding sync_found text_eq
  sync_approved = do
    conflict ← gets (λ db. exists is_conflicting db.profiles)
    refuse conflict Error.conflicting_profile do
      found ← gets (λ db. find has_identifier db.profiles)
      saved ← sync_found found
      pure (some saved)

  -- `sync_mpesa_paybill_profile`
  unfoldable pub sync_mpesa_paybill_profile : Action (Option PaymentProviderProfile)
  unfolding sync_approved is_approved
  sync_mpesa_paybill_profile = atomic (
      if not settings.ingestion_enabled
      then pure none
      else refuse (not (is_approved settings)) Error.profile_not_approved sync_approved)
