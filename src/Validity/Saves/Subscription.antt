-- ===== src/Validity/Saves/Subscription.antt =====
-- The saves of subscriptions keep the invariant.
use supersurf_billing_phase.Common.{
  ◌≡◌, refl, ℕ, true, false, ◌&&◌, List, [], ◌∷◌, ◌==◌, exists, update, arith,
}
use supersurf_billing_phase.Schema.Choices.{is_active_status}
use supersurf_billing_phase.Schema.Rows.{Subscription}
use supersurf_billing_phase.Schema.Database.{Db}
use supersurf_billing_phase.Validation.{collect-Passes}
use supersurf_billing_phase.Subscriptions.Clean.{
  holds_service, field_checks, clean_checks, constraint_checks, full_clean, cleaned_subscription,
  insert_subscription, with_status, write_status,
}
use supersurf_billing_phase.Subscriptions.Assign.{ended_row}
use supersurf_billing_phase.Validity.Invariant.{OneActive, IsValid}

IsValid-subscriptions :
    (subscriptions : List Subscription) (db : Db)
    → OneActive subscriptions
    → IsValid db
    → IsValid (record db { subscriptions = subscriptions })
IsValid-subscriptions subscriptions db one h = record {
  ledger = h.ledger;
  wallet_ids = h.wallet_ids;
  wallet_owners = h.wallet_owners;
  subscribed_once = one;
  charged_once = h.charged_once;
  charges = h.charges;
  allocated_once = h.allocated_once;
  allocations = h.allocations;
}

constraint_passes :
    (s : Subscription) (db : Db)
    → full_clean true db s ≡ []
    → (is_active_status s.status && exists (holds_service s.service_id) db.subscriptions) ≡ false
unfolding full_clean
constraint_passes s db accepted =
    (collect-Passes (field_checks db s) (clean_checks s) (constraint_checks true db s)
      accepted).2.1.0

-- A new subscription without complaints keeps the invariant.
pub subscription-IsValid :
    (s : Subscription) (db : Db)
    → full_clean true db s ≡ []
    → IsValid db
    → IsValid (insert_subscription (cleaned_subscription s) db)
subscription-IsValid s db accepted h =
    IsValid-subscriptions (cleaned_subscription s ∷ db.subscriptions) db
      (constraint_passes s db accepted, h.subscribed_once) h

module _ (now : ℕ) (s : Subscription) where
  -- Ending rows makes no other row active.
  exists-update :
      (service : ℕ) (rows : List Subscription)
      → exists (holds_service service) rows ≡ false
      → exists
          (holds_service service)
          (update (λ r. r.id == s.id) (with_status (ended_row now s)) rows)
        ≡ false
  exists-update service [] h = refl
  exists-update service (r ∷ rows) h = ground (arith, exists-update service rows)

  OneActive-update :
      (rows : List Subscription)
      → OneActive rows
      → OneActive (update (λ r. r.id == s.id) (with_status (ended_row now s)) rows)
  OneActive-update [] h = tt
  OneActive-update (r ∷ rows) h =
      (ground (arith, h.0, exists-update r.service_id rows), OneActive-update rows h.1)

  -- The ending of a subscription keeps the invariant.
  pub ending-IsValid : (db : Db) → IsValid db → IsValid (write_status (ended_row now s) db)
  ending-IsValid db h =
      IsValid-subscriptions
        (update (λ r. r.id == s.id) (with_status (ended_row now s)) db.subscriptions) db
        (OneActive-update db.subscriptions h.subscribed_once) h
