-- ===== src/Packages/Kept.antt =====
-- The three services of packages keep the catalogue.
use supersurf_billing_phase.Common.{ℕ, Bool, true, false, Option, [], Text, ◌≡◌, refl}
use supersurf_billing_phase.Exec.Keeps.{Keeps, keeps_rules}
use supersurf_billing_phase.Errors.{Issue, Error}
use supersurf_billing_phase.Schema.Rows.{Plan, AuditAction}
use supersurf_billing_phase.Schema.Database.{Db}
use supersurf_billing_phase.Service.Lookup.{fresh, record_event}
use supersurf_billing_phase.Subscriptions.Assign.{lock_plan}
use supersurf_billing_phase.Stable.Saves.{Keeps-save_valid}
use supersurf_billing_phase.Validation.{collect-Passes}
use supersurf_billing_phase.Packages.Clean.{
  cleaned_plan, insert_plan, replace_plan, write_plan_active, plan_full_clean, save_new_plan,
  save_plan,
}
use supersurf_billing_phase.Packages.Edit.{
  PackageForm, create_package, update_package, set_package_active,
}
use supersurf_billing_phase.Packages.Catalogue.{
  IsCatalogue, clean-IsSellable, new-IsCatalogue, same_key_at, changed-Distinct, changed-All,
  kept-UniqueNames, renamed-UniqueNames,
}

module _ (lower : Text → Text) where
  abbrev Kept : Db → Type 0
  Kept db = IsCatalogue lower db.plans

  fresh-Kept : Keeps Kept fresh
  unfolding fresh
  fresh-Kept = record { at = λ db h. h }

  record_event-Kept :
      (actor : Option ℕ) (action : AuditAction) (target : ℕ) (reason : Text)
      → Keeps Kept (record_event actor action target reason)
  unfolding record_event
  record_event-Kept actor action target reason = record { at = λ db h. h }

  lock_plan-Kept : (k : ℕ) → Keeps Kept (lock_plan k)
  unfolding lock_plan
  lock_plan-Kept k = search keeps_rules

  replaced-IsCatalogue :
      (p : Plan) (db : Db)
      → plan_full_clean lower false db p ≡ []
      → Kept db
      → Kept (replace_plan p db)
  unfolding plan_full_clean
  replaced-IsCatalogue p db clean c =
      let (fields, cleans, uniques) = collect-Passes _ _ _ clean in
      let fit = clean-IsSellable p fields cleans in
      record {
        keys = changed-Distinct p.id (λ _. p) (same_key_at p) db.plans c.keys;
        sellable = changed-All p.id (λ _. p) (same_key_at p) db.plans (λ r h. fit) c.sellable;
        names = renamed-UniqueNames lower p db.plans c.keys c.names uniques.1.0;
      }

  switched-IsCatalogue : (p : Plan) (db : Db) → Kept db → Kept (write_plan_active p db)
  switched-IsCatalogue p db c =
      let switch = λ (r : Plan). record r { is_active = p.is_active } in
      record {
        keys =
            changed-Distinct p.id (λ r. record r { is_active = p.is_active }) (λ r hit. refl)
              db.plans c.keys;
        sellable =
            changed-All p.id (λ r. record r { is_active = p.is_active }) (λ r hit. refl) db.plans
              (λ r h. record {
                named = h.named;
                speed = h.speed;
                price = h.price;
                duration = h.duration;
                grace = h.grace;
                currency = h.currency;
              })
              c.sellable;
        names = kept-UniqueNames lower p.id p.is_active db.plans c.names;
      }

  save_new_plan-Kept : (p : Plan) → Keeps Kept (save_new_plan lower p)
  unfolding save_new_plan
  save_new_plan-Kept p =
      Keeps-save_valid (Error.invalid_row Issue.plan_name_taken)
        (λ db. plan_full_clean lower true db (cleaned_plan p)) (insert_plan (cleaned_plan p))
        (cleaned_plan p) (new-IsCatalogue lower (cleaned_plan p))

  save_replaced-Kept : (p : Plan) → Keeps Kept (save_plan lower replace_plan p)
  unfolding save_plan
  save_replaced-Kept p =
      Keeps-save_valid (Error.invalid_row Issue.plan_name_taken)
        (λ db. plan_full_clean lower false db (cleaned_plan p)) (replace_plan (cleaned_plan p))
        (cleaned_plan p) (replaced-IsCatalogue (cleaned_plan p))

  save_switched-Kept : (p : Plan) → Keeps Kept (save_plan lower write_plan_active p)
  unfolding save_plan
  save_switched-Kept p =
      Keeps-save_valid (Error.invalid_row Issue.plan_name_taken)
        (λ db. plan_full_clean lower false db (cleaned_plan p)) (write_plan_active (cleaned_plan p))
        (cleaned_plan p) (λ db clean h. switched-IsCatalogue (cleaned_plan p) db h)

  ruleset rules = (keeps_rules, fresh-Kept, record_event-Kept, lock_plan-Kept)

  create_package-Kept :
      (form : PackageForm) (actor : Option ℕ) → Keeps Kept (create_package lower form actor)
  unfolding create_package
  create_package-Kept form actor = search (rules, save_new_plan-Kept) depth 8

  update_package-Kept :
      (k : ℕ) (form : PackageForm) (actor : Option ℕ)
      → Keeps Kept (update_package lower k form actor)
  unfolding update_package
  update_package-Kept k form actor = search (rules, save_replaced-Kept) depth 8

  set_package_active-Kept :
      (k : ℕ) (b : Bool) (reason : Text) (actor : Option ℕ)
      → Keeps Kept (set_package_active lower k b reason actor)
  unfolding set_package_active
  set_package_active-Kept k b reason actor = search (rules, save_switched-Kept) depth 8

  -- A catalogue stays one when a package is created, edited, withdrawn or put up again, with any
  -- arguments, whether the service returns or raises: every package is sellable, and no two have one
  -- key or one name up to the case of its letters.
  pub packages-IsCatalogue :
      (db : Db)
      → IsCatalogue lower db.plans
      → ((form : PackageForm) (actor : Option ℕ)
          → IsCatalogue lower (create_package lower form actor db).1.plans)
        × ((k : ℕ) (form : PackageForm) (actor : Option ℕ)
            → IsCatalogue lower (update_package lower k form actor db).1.plans)
        × ((k : ℕ) (b : Bool) (reason : Text) (actor : Option ℕ)
            → IsCatalogue lower (set_package_active lower k b reason actor db).1.plans)
  packages-IsCatalogue db h = (
    λ form actor. (create_package-Kept form actor).at db h,
    (λ k form actor. (update_package-Kept k form actor).at db h),
    (λ k b reason actor. (set_package_active-Kept k b reason actor).at db h),
  )
