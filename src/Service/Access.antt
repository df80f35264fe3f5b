-- ===== src/Service/Access.antt =====
-- `_require_permission` and the permission lists of billing/services.py.
use supersurf_billing_phase.Common.{
  ℕ, Bool, true, not, ◌&&◌, Option, none, some, List, [], ◌∷◌, if◌then◌else◌,
}
use supersurf_billing_phase.Exec.{Result, ok, err}
use supersurf_billing_phase.Errors.{Error}

-- The permission code names that the services ask for.
pub data Permission : Type 0 where
  view_subscriber view_service : Permission
  view_subscription add_subscription change_subscription : Permission
  view_billingperiod add_billingperiod view_billingcharge add_billingcharge : Permission
  view_wallet view_ledgerentry add_ledgerentry : Permission
  view_paymentproviderprofile view_payment add_payment : Permission
  view_paymentallocation add_paymentallocation : Permission
  view_unmatchedpaymentcase change_unmatchedpaymentcase : Permission

-- A request's user.
pub record Actor : Type 0 where
  pub id : ℕ
  pub is_authenticated : Bool
  pub has_perm : Permission → Bool

abbrev pub has_all : Actor → List Permission → Bool
has_all actor [] = true
has_all actor (p ∷ permissions) = actor.has_perm p && has_all actor permissions

-- `_require_permission`
unfoldable pub require_permission : Option Actor → List Permission → Result Error Actor
require_permission none permissions = err Error.not_authenticated
require_permission (some actor) permissions =
    if not actor.is_authenticated
    then err Error.not_authenticated
    else if has_all actor permissions
    then ok actor
    else err Error.permission_denied

-- The lists of `post_manual_wallet_adjustment` and `reverse_ledger_entry`.
abbrev pub ledger_permissions : List Permission
ledger_permissions = view_subscriber ∷ view_wallet ∷ view_ledgerentry ∷ add_ledgerentry ∷ []

-- `activate_billing_period` and `renew_billing_period`; `view_subscription` is asked for after.
abbrev pub period_permissions : List Permission
period_permissions = view_service ∷ add_billingperiod ∷ []

-- `_wallet_charge_permissions`
abbrev pub charge_permissions : List Permission
charge_permissions =
    view_subscriber ∷ view_service ∷ view_subscription ∷ view_billingperiod ∷ add_billingperiod
    ∷ view_wallet ∷ view_ledgerentry ∷ add_ledgerentry ∷ view_billingcharge ∷ add_billingcharge ∷ []

-- `_payment_mutation_permissions`
abbrev pub payment_permissions : List Permission
payment_permissions =
    view_subscriber ∷ view_paymentproviderprofile ∷ view_payment ∷ add_payment
    ∷ view_paymentallocation ∷ add_paymentallocation ∷ view_wallet ∷ view_ledgerentry
    ∷ add_ledgerentry ∷ []

-- `_unmatched_resolution_permissions`
abbrev pub resolution_permissions : List Permission
resolution_permissions =
    view_subscriber ∷ view_payment ∷ view_paymentallocation ∷ add_paymentallocation
    ∷ view_unmatchedpaymentcase ∷ change_unmatchedpaymentcase ∷ view_wallet ∷ view_ledgerentry
    ∷ add_ledgerentry ∷ []
