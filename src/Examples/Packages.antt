-- ===== src/Examples/Packages.antt =====
-- A catalogue of one package.
use supersurf_billing_phase.Common.{ℕ, Bool, Option, [], ◌∷◌, Text, ascii_lower, refl, arith}
use supersurf_billing_phase.Schema.Database.{Db}
use supersurf_billing_phase.Calls.Reach.{empty}
use supersurf_billing_phase.Packages.Edit.{
  PackageForm, create_package, update_package, set_package_active,
}
use supersurf_billing_phase.Packages.Catalogue.{IsCatalogue}
use supersurf_billing_phase.Packages.Kept.{packages-IsCatalogue}
use supersurf_billing_phase.Examples.Data.{plan}

abbrev offered : Db
offered = record empty { plans = plan ∷ [] }

offered-IsCatalogue : IsCatalogue ascii_lower offered.plans
offered-IsCatalogue = record {
  keys = (refl, tt);
  sellable = (
    record {
      named = refl;
      speed = (omega arith, omega arith);
      price = (omega arith, omega arith);
      duration = (omega arith, omega arith);
      grace = omega arith;
      currency = refl;
    },
    tt,
  );
  names = (refl, tt);
}

packages-IsCatalogue_example :
    ((form : PackageForm) (actor : Option ℕ)
      → IsCatalogue ascii_lower (create_package ascii_lower form actor offered).1.plans)
    × ((k : ℕ) (form : PackageForm) (actor : Option ℕ)
        → IsCatalogue ascii_lower (update_package ascii_lower k form actor offered).1.plans)
    × ((k : ℕ) (b : Bool) (reason : Text) (actor : Option ℕ)
        → IsCatalogue ascii_lower (set_package_active ascii_lower k b reason actor offered).1.plans)
packages-IsCatalogue_example = packages-IsCatalogue ascii_lower offered offered-IsCatalogue
