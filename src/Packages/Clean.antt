-- ===== src/Packages/Clean.antt =====
-- `Plan.full_clean` and `Plan.save`. `lower` is the database's `LOWER`.
use supersurf_billing_phase.Common.{
  Bool, true, false, not, ◌&&◌, ◌||◌, List, [], ◌∷◌, ◌==◌, ltb, length, exists, update, Text,
  text_eq, is_blank, strip,
}
use supersurf_billing_phase.Errors.{Issue, Error}
use supersurf_billing_phase.Schema.Rows.{Plan}
use supersurf_billing_phase.Schema.Database.{Db, Action}
use supersurf_billing_phase.Money.{kes}
use supersurf_billing_phase.Validation.{Checks, collect}
use supersurf_billing_phase.Ledger.Clean.{out_of_range}
use supersurf_billing_phase.Ledger.Save.{save_valid}

abbrev pub plan_field_checks : Plan → Checks
plan_field_checks p =
    (is_blank p.name, Issue.plan_name_required)
    ∷ (ltb 120 (length p.name), Issue.text_too_long)
    ∷ (out_of_range 1 p.download_speed_mbps, Issue.speed_out_of_range)
    ∷ (out_of_range 1 p.price_minor, Issue.price_out_of_range)
    ∷ (is_blank p.currency, Issue.text_blank)
    ∷ (ltb 3 (length p.currency), Issue.text_too_long)
    ∷ (out_of_range 1 p.duration_days, Issue.duration_out_of_range)
    ∷ (out_of_range 0 p.grace_period_hours, Issue.grace_out_of_range)
    ∷ []

-- `Plan.clean`
abbrev pub plan_clean_checks : Plan → Checks
plan_clean_checks p =
    (is_blank (strip p.name), Issue.plan_name_required)
    ∷ (not (text_eq p.currency kes), Issue.currency_not_kes)
    ∷ (p.price_minor == 0, Issue.price_out_of_range)
    ∷ (p.download_speed_mbps == 0, Issue.speed_out_of_range)
    ∷ (p.duration_days == 0, Issue.duration_out_of_range)
    ∷ []

-- What `save` and `clean` leave in the row.
abbrev pub cleaned_plan : Plan → Plan
cleaned_plan p = record p { name = strip p.name }

abbrev pub insert_plan : Plan → Db → Db
insert_plan p db = record db { plans = p ∷ db.plans }

abbrev pub replace_plan : Plan → Db → Db
replace_plan p db = record db { plans = update (λ r. r.id == p.id) (λ _. p) db.plans }

-- `save(update_fields=["is_active", "updated_at"])`
abbrev pub write_plan_active : Plan → Db → Db
write_plan_active p db = record db {
  plans = update (λ r. r.id == p.id) (λ r. record r { is_active = p.is_active }) db.plans;
}

module _ (lower : Text → Text) where
  -- The rows that the name is unique among: all for a new row, the others for a saved one.
  abbrev pub same_name : Plan → Plan → Bool
  same_name p r = text_eq (lower r.name) (lower p.name)

  abbrev pub plan_constraint_checks : Bool → Db → Plan → Checks
  plan_constraint_checks adding db p =
      (adding && exists (λ r. r.id == p.id) db.plans, Issue.id_taken)
      ∷ (
        exists (λ r. (adding || not (r.id == p.id)) && same_name p r) db.plans,
        Issue.plan_name_taken,
      )
      ∷ []

  unfoldable pub plan_full_clean : Bool → Db → Plan → List Issue
  unfolding text_eq strip
  plan_full_clean adding db p =
      collect (plan_field_checks p) (plan_clean_checks p) (plan_constraint_checks adding db p)

  -- `Plan.save` of a new row, and of a changed one; the name is stripped before the tests.
  unfoldable pub save_new_plan : Plan → Action Plan
  unfolding plan_full_clean save_valid
  save_new_plan p db =
      save_valid (Error.invalid_row Issue.plan_name_taken)
        (plan_full_clean true db (cleaned_plan p)) (insert_plan (cleaned_plan p)) (cleaned_plan p)
        db

  unfoldable pub save_plan : (Plan → Db → Db) → Plan → Action Plan
  unfolding plan_full_clean save_valid
  save_plan write p db =
      save_valid (Error.invalid_row Issue.plan_name_taken)
        (plan_full_clean false db (cleaned_plan p)) (write (cleaned_plan p)) (cleaned_plan p) db
