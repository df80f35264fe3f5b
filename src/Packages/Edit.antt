-- ===== src/Packages/Edit.antt =====
-- `create_package`, `update_package` and `set_package_active` of billing/services.py. A form holds what
-- `PlanForm` leaves in `cleaned_data`, where the price is in minor units.
use supersurf_billing_phase.Common.{ℕ, Bool, true, false, Option, Text}
use supersurf_billing_phase.Exec.{pure, atomic, ◌>>=◌, ◌>>◌}
use supersurf_billing_phase.Schema.Rows.{Plan, AuditAction}
use supersurf_billing_phase.Schema.Database.{Action}
use supersurf_billing_phase.Money.{kes}
use supersurf_billing_phase.Service.Lookup.{fresh, record_event}
use supersurf_billing_phase.Subscriptions.Assign.{lock_plan}
use supersurf_billing_phase.Packages.Clean.{
  replace_plan, write_plan_active, save_new_plan, save_plan,
}

pub record PackageForm : Type 0 where
  pub name : Text
  pub download_speed_mbps : ℕ
  pub price_ksh : ℕ
  pub duration_days : ℕ
  pub grace_period_hours : ℕ
  pub description : Text
  pub reason : Text

-- `PlanForm.save`
abbrev pub new_plan : PackageForm → ℕ → Plan
new_plan form k = record {
  id = k;
  name = form.name;
  download_speed_mbps = form.download_speed_mbps;
  price_minor = form.price_ksh;
  currency = kes;
  duration_days = form.duration_days;
  grace_period_hours = form.grace_period_hours;
  description = form.description;
  is_active = true;
}

abbrev pub edited_plan : PackageForm → Plan → Plan
edited_plan form p = record p {
  name = form.name;
  download_speed_mbps = form.download_speed_mbps;
  price_minor = form.price_ksh;
  currency = kes;
  duration_days = form.duration_days;
  grace_period_hours = form.grace_period_hours;
  description = form.description;
}

abbrev package_action : Bool → AuditAction
package_action true = AuditAction.package_reactivated
package_action false = AuditAction.package_deactivated

module _ (lower : Text → Text) where
  unfoldable pub create_package : PackageForm → Option ℕ → Action Plan
  unfolding save_new_plan
  create_package form actor = atomic do
    k ← fresh
    plan ← save_new_plan lower (new_plan form k)
    record_event actor AuditAction.package_created plan.id form.reason
    pure plan

  unfoldable pub update_package : ℕ → PackageForm → Option ℕ → Action Plan
  unfolding save_plan lock_plan
  update_package k form actor = atomic do
    locked ← lock_plan k
    plan ← save_plan lower replace_plan (edited_plan form locked)
    record_event actor AuditAction.package_updated plan.id form.reason
    pure plan

  unfoldable pub set_package_active : ℕ → Bool → Text → Option ℕ → Action Plan
  unfolding save_plan lock_plan
  set_package_active k is_active reason actor = atomic do
    locked ← lock_plan k
    plan ← save_plan lower write_plan_active (record locked { is_active = is_active })
    record_event actor (package_action is_active) plan.id reason
    pure plan
