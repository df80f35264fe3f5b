-- ===== src/Subscribers/Services.antt =====
-- The services that write subscribers and their services (subscribers/services.py), with the `save`
-- of the two models. `valid_email` is Django's email validator.
use supersurf_billing_phase.Common.{
  ℕ, Bool, true, false, not, ◌&&◌, ◌∷◌, ◌==◌, if◌then◌else◌, exists, update, Option, Text, text_eq,
  Unicode,
}
use supersurf_billing_phase.Exec.{err, pure, refuse, atomic, ◌>>=◌, ◌>>◌}
use supersurf_billing_phase.Errors.{Issue, Error}
use supersurf_billing_phase.Schema.Choices.{CustomerType}
use supersurf_billing_phase.Schema.Rows.{Subscriber, Service, AuditAction}
use supersurf_billing_phase.Schema.Database.{Db, Action}
use supersurf_billing_phase.Ledger.Save.{save_valid}
use supersurf_billing_phase.Service.Lookup.{
  fresh, lock_subscriber, lock_service, record_event_labelled,
}
use supersurf_billing_phase.Subscribers.Clean.{
  subscriber_full_clean, cleaned_subscriber, service_full_clean, cleaned_service,
}
use supersurf_billing_phase.Subscribers.Allocate.{
  allocate_account_number, allocate_service_identity,
}

abbrev pub insert_subscriber : Subscriber → Db → Db
insert_subscriber s db = record db { subscribers = s ∷ db.subscribers }

abbrev pub replace_subscriber : Subscriber → Db → Db
replace_subscriber s db = record db {
  subscribers = update (λ r. r.id == s.id) (λ _. s) db.subscribers;
}

-- `save(update_fields=["is_active", "updated_at"])`
abbrev pub write_subscriber_active : Subscriber → Db → Db
write_subscriber_active s db = record db {
  subscribers =
      update (λ r. r.id == s.id) (λ r. record r { is_active = s.is_active }) db.subscribers;
}

abbrev pub insert_service : Service → Db → Db
insert_service s db = record db { services = s ∷ db.services }

abbrev pub replace_service : Service → Db → Db
replace_service s db = record db { services = update (λ r. r.id == s.id) (λ _. s) db.services }

abbrev pub write_service_active : Service → Db → Db
write_service_active s db = record db {
  services = update (λ r. r.id == s.id) (λ r. record r { is_active = s.is_active }) db.services;
}

-- `Subscriber._reject_identifier_change`
abbrev pub account_changed : Subscriber → Db → Bool
account_changed s db =
    exists (λ r. r.id == s.id && not (text_eq r.account_number s.account_number)) db.subscribers

-- `Service._reject_identifier_change`
abbrev pub identity_changed : Service → Db → Bool
identity_changed s db =
    exists
      (λ r.
        r.id == s.id
        && not (
            r.subscriber_id == s.subscriber_id
            && r.service_number == s.service_number
            && text_eq r.service_reference s.service_reference))
      db.services

-- The arguments of the forms.
pub record SubscriberForm : Type 0 where
  pub customer_type : CustomerType
  pub display_name : Text
  pub primary_phone : Text
  pub email : Text
  pub reason : Text

pub record ServiceForm : Type 0 where
  pub label : Text
  pub reason : Text

abbrev pub active_word : Bool → Error
active_word true = Error.already_active
active_word false = Error.already_inactive

abbrev same_flag : Bool → Bool → Bool
same_flag true b = b
same_flag false b = not b

module _ (u : Unicode) (valid_email : Text → Bool) where
  -- `Subscriber.save` of a new row, of a changed row, and of a changed status.
  unfoldable pub save_new_subscriber : Subscriber → Action Subscriber
  unfolding save_valid
  save_new_subscriber s db =
      save_valid (Error.invalid_row Issue.account_number_taken)
        (subscriber_full_clean u valid_email true db s) (insert_subscriber (cleaned_subscriber u s))
        (cleaned_subscriber u s) db

  unfoldable pub save_subscriber : (Subscriber → Db → Db) → Subscriber → Action Subscriber
  unfolding save_valid
  save_subscriber write s db =
      if account_changed s db
      then (err Error.immutable_row, db)
      else save_valid (Error.invalid_row Issue.account_number_taken)
          (subscriber_full_clean u valid_email false db s) (write (cleaned_subscriber u s))
          (cleaned_subscriber u s) db

  abbrev pub new_subscriber : SubscriberForm → Text → ℕ → Subscriber
  new_subscriber form account k = record {
    id = k;
    account_number = account;
    customer_type = form.customer_type;
    display_name = form.display_name;
    primary_phone = form.primary_phone;
    email = form.email;
    is_active = true;
  }

  unfoldable pub create_subscriber : SubscriberForm → Option ℕ → Action Subscriber
  unfolding allocate_account_number save_new_subscriber
  create_subscriber form actor = atomic do
    account ← allocate_account_number
    k ← fresh
    saved ← save_new_subscriber (new_subscriber form account k)
    record_event_labelled actor AuditAction.subscriber_created saved.account_number form.reason
    pure saved

  abbrev pub changed_subscriber : SubscriberForm → Subscriber → Subscriber
  changed_subscriber form s = record s {
    customer_type = form.customer_type;
    display_name = form.display_name;
    primary_phone = form.primary_phone;
    email = form.email;
  }

  unfoldable pub update_subscriber : ℕ → SubscriberForm → Option ℕ → Action Subscriber
  unfolding save_subscriber
  update_subscriber subscriber form actor = atomic do
    locked ← lock_subscriber subscriber
    saved ← save_subscriber replace_subscriber (changed_subscriber form locked)
    record_event_labelled actor AuditAction.subscriber_updated saved.account_number form.reason
    pure saved

  abbrev subscriber_action : Bool → AuditAction
  subscriber_action true = AuditAction.subscriber_reactivated
  subscriber_action false = AuditAction.subscriber_deactivated

  unfoldable pub set_subscriber_active : ℕ → Bool → Text → Option ℕ → Action Subscriber
  unfolding save_subscriber
  set_subscriber_active subscriber is_active reason actor = atomic do
    locked ← lock_subscriber subscriber
    refuse (same_flag locked.is_active is_active) (active_word is_active) do
      saved ← save_subscriber write_subscriber_active (record locked { is_active = is_active })
      record_event_labelled actor (subscriber_action is_active) saved.account_number reason
      pure saved

-- `Service.save` of a new row, of a changed row, and of a changed status.
module _ (u : Unicode) where
  unfoldable pub save_new_service : Service → Action Service
  unfolding save_valid
  save_new_service s db =
      save_valid (Error.invalid_row Issue.service_number_taken) (service_full_clean u true db s)
        (insert_service (cleaned_service s)) (cleaned_service s) db

  unfoldable pub save_service : (Service → Db → Db) → Service → Action Service
  unfolding save_valid
  save_service write s db =
      if identity_changed s db
      then (err Error.immutable_row, db)
      else save_valid (Error.invalid_row Issue.service_number_taken)
          (service_full_clean u false db s) (write (cleaned_service s)) (cleaned_service s) db

  abbrev pub new_service : ServiceForm → Subscriber → ℕ × Text → ℕ → Service
  new_service form owner (number, reference) k = record {
    id = k;
    subscriber_id = owner.id;
    service_number = number;
    service_reference = reference;
    label = form.label;
    is_active = true;
  }

  unfoldable pub create_service : ℕ → ServiceForm → Option ℕ → Action Service
  unfolding allocate_service_identity save_new_service
  create_service subscriber form actor = atomic do
    locked ← lock_subscriber subscriber
    identity ← allocate_service_identity locked
    k ← fresh
    saved ← save_new_service (new_service form locked identity k)
    record_event_labelled actor AuditAction.service_created saved.service_reference form.reason
    pure saved

  unfoldable pub update_service : ℕ → ServiceForm → Option ℕ → Action Service
  unfolding save_service
  update_service service form actor = atomic do
    locked ← lock_service service
    saved ← save_service replace_service (record locked.service { label = form.label })
    record_event_labelled actor AuditAction.service_updated saved.service_reference form.reason
    pure saved

  abbrev service_action : Bool → AuditAction
  service_action true = AuditAction.service_reactivated
  service_action false = AuditAction.service_deactivated

  unfoldable pub set_service_active : ℕ → Bool → Text → Option ℕ → Action Service
  unfolding save_service
  set_service_active service is_active reason actor = atomic do
    locked ← lock_service service
    refuse (same_flag locked.service.is_active is_active) (active_word is_active) do
      saved ← save_service write_service_active (record locked.service { is_active = is_active })
      record_event_labelled actor (service_action is_active) saved.service_reference reason
      pure saved
