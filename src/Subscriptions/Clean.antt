-- ===== src/Subscriptions/Clean.antt =====
-- `Subscription.full_clean`, `_reject_protected_changes` and `save`, and `_save_new_subscription`.
use supersurf_billing_phase.Common.{
  ℕ, Bool, true, false, not, ◌&&◌, ◌||◌, Option, none, some, List, [], ◌∷◌, ◌==◌, opt_eq, is_some,
  if◌then◌else◌, find, exists, update, text_eq, is_blank, strip,
}
use supersurf_billing_phase.Exec.{Result, ok, err}
use supersurf_billing_phase.Errors.{Issue, Error}
use supersurf_billing_phase.Schema.Choices.{is_active_status}
use supersurf_billing_phase.Schema.Rows.{Snapshot, Subscription}
use supersurf_billing_phase.Schema.Database.{Db, Action}
use supersurf_billing_phase.Validation.{Checks, collect}
use supersurf_billing_phase.Ledger.Save.{save_valid}
use supersurf_billing_phase.Periods.Clean.{snapshot_field_checks, snapshot_clean_checks}
use supersurf_billing_phase.Periods.Save.{strip_name}

-- A row counts against a unique column of the saved one: every row for a new one, and the other rows
-- for one that is there already.
abbrev pub counts : Bool → ℕ → ℕ → Bool
counts adding k row = adding || not (row == k)

-- An active subscription of the service.
abbrev pub holds_service : ℕ → Subscription → Bool
holds_service service r = r.service_id == service && is_active_status r.status

abbrev pub field_checks : Db → Subscription → Checks
field_checks db s =
    (not (exists (λ r. r.id == s.service_id) db.services), Issue.row_missing)
    ∷ (not (exists (λ r. r.id == s.plan_id) db.plans), Issue.row_missing)
    ∷ snapshot_field_checks s.snapshot

abbrev pub clean_checks : Subscription → Checks
clean_checks s =
    (is_blank (strip s.plan_name), Issue.plan_name_required)
    ∷ (is_active_status s.status && is_some s.ended_at, Issue.ended_at_forbidden)
    ∷ (not (is_active_status s.status) && not (is_some s.ended_at), Issue.ended_at_required)
    ∷ snapshot_clean_checks s.snapshot

module _ (adding : Bool) (db : Db) (s : Subscription) where
  -- The key, and `billing_subscription_one_active_per_service`.
  abbrev pub constraint_checks : Checks
  constraint_checks =
      (adding && exists (λ r. r.id == s.id) db.subscriptions, Issue.id_taken)
      ∷ (
        is_active_status s.status
            && exists (λ r. counts adding s.id r.id && holds_service s.service_id r)
                db.subscriptions,
        Issue.active_subscription_exists,
      )
      ∷ []

  unfoldable pub full_clean : List Issue
  full_clean = collect (field_checks db s) (clean_checks s) constraint_checks

abbrev pub cleaned_subscription : Subscription → Subscription
cleaned_subscription s = record s { snapshot = strip_name s.snapshot }

abbrev pub insert_subscription : Subscription → Db → Db
insert_subscription s db = record db { subscriptions = s ∷ db.subscriptions }

-- `_is_active_subscription_validation_conflict`
abbrev pub mentions_active : List Issue → Bool
mentions_active [] = false
mentions_active (Issue.active_subscription_exists ∷ issues) = true
mentions_active (_ ∷ issues) = mentions_active issues

abbrev pub save_new_with : Subscription → List Issue → Action Subscription
save_new_with s [] db = (ok s, insert_subscription s db)
save_new_with s (issue ∷ issues) db = (
  err (
      if mentions_active (issue ∷ issues)
      then Error.already_subscribed
      else Error.invalid_row issue),
  db,
)

-- `_save_new_subscription`
unfoldable pub save_new_subscription : Subscription → Action Subscription
save_new_subscription s db = save_new_with (cleaned_subscription s) (full_clean true db s) db

abbrev pub same_snapshot : Snapshot → Snapshot → Bool
same_snapshot a b =
    text_eq a.plan_name b.plan_name
    && a.download_speed_mbps == b.download_speed_mbps
    && a.price_minor == b.price_minor
    && text_eq a.currency b.currency
    && a.duration_days == b.duration_days
    && a.grace_period_hours == b.grace_period_hours

-- The `IMMUTABLE_FIELDS` agree.
abbrev pub same_immutables : Subscription → Subscription → Bool
same_immutables a b =
    a.service_id == b.service_id
    && a.plan_id == b.plan_id
    && a.starts_at == b.starts_at
    && same_snapshot a.snapshot b.snapshot

-- `_reject_protected_changes`
unfoldable pub reject_protected : Subscription → Subscription → Result Error Unit
reject_protected current s =
    if not (same_immutables current s)
    then err Error.immutable_row
    else if is_active_status current.status
    then ok tt
    else if is_active_status s.status
    then err Error.ended_reactivated
    else if opt_eq current.ended_at s.ended_at
    then ok tt
    else err Error.immutable_row

-- `save(update_fields=["status", "ended_at", "updated_at"])`: only these columns are written.
abbrev pub with_status : Subscription → Subscription → Subscription
with_status s r = record r { status = s.status; ended_at = s.ended_at }

abbrev pub write_status : Subscription → Db → Db
write_status s db = record db {
  subscriptions = update (λ r. r.id == s.id) (with_status s) db.subscriptions;
}

abbrev pub save_status_with : Subscription → Result Error Unit → Action Subscription
save_status_with s (err e) db = (err e, db)
save_status_with s (ok _) db =
    save_valid Error.already_subscribed (full_clean false db s) (write_status s) s db

-- The row in the table is compared with the one to be saved.
unfoldable pub save_found : Subscription → Option Subscription → Action Subscription
unfolding reject_protected save_valid
save_found s none db = (err Error.does_not_exist, db)
save_found s (some current) db = save_status_with s (reject_protected current s) db

unfoldable pub save_status : Subscription → Action Subscription
unfolding save_found
save_status s db = save_found s (find (λ r. r.id == s.id) db.subscriptions) db
