-- ===== src/Service/Lookup.antt =====
-- The locked rows of billing/services.py. A transaction runs alone on the rows that it locks, so a
-- lock is a query here. Also new keys, the wallet of a subscriber, and the audit trail.
use supersurf_billing_phase.Common.{
  ℕ, suc, not, Option, none, some, List, [], ◌∷◌, ◌==◌, find, exists, Text, text_eq,
}
use supersurf_billing_phase.Exec.{ok, require, ◌>>=◌}
use supersurf_billing_phase.Errors.{Issue, Error}
use supersurf_billing_phase.Schema.Rows.{Subscriber, Service, Wallet, AuditAction, Target}
use supersurf_billing_phase.Schema.Database.{Db, Action}
use supersurf_billing_phase.Money.{kes}
use supersurf_billing_phase.Validation.{Checks, complaints}
use supersurf_billing_phase.Ledger.Save.{save_valid}

-- `_lock_service_and_subscriber`: a service with its subscriber's row.
pub record LockedService : Type 0 where
  pub service : Service
  pub subscriber : Subscriber

-- `uuid.uuid4()`
unfoldable pub fresh : Action ℕ
fresh db = (ok db.next_id, record db { next_id = suc db.next_id })

-- `_lock_subscriber`
unfoldable pub lock_subscriber : ℕ → Action Subscriber
lock_subscriber k = require (λ db. find (λ s. s.id == k) db.subscribers) Error.does_not_exist

abbrev service_with_subscriber : Db → Service → Option LockedService
service_with_subscriber db service =
    elim (find (λ s. s.id == service.subscriber_id) db.subscribers) [
      | none ↦ none
      | some s ↦ some (record { service = service; subscriber = s })
    ]

abbrev pub find_service : ℕ → Db → Option LockedService
find_service k db = elim (find (λ s. s.id == k) db.services) [
  | none ↦ none
  | some service ↦ service_with_subscriber db service
]

unfoldable pub lock_service : ℕ → Action LockedService
lock_service k = require (find_service k) Error.does_not_exist

-- `Wallet.full_clean`
unfoldable pub wallet_checks : Db → Wallet → Checks
wallet_checks db w =
    (not (exists (λ s. s.id == w.subscriber_id) db.subscribers), Issue.row_missing)
    ∷ (not (text_eq w.currency kes), Issue.currency_not_kes)
    ∷ (exists (λ r. r.id == w.id) db.wallets, Issue.id_taken)
    ∷ (exists (λ r. r.subscriber_id == w.subscriber_id) db.wallets, Issue.subscriber_has_wallet)
    ∷ []

abbrev pub insert_wallet : Wallet → Db → Db
insert_wallet w db = record db { wallets = w ∷ db.wallets }

-- `_save_wallet` with `Wallet.save` of a new row
unfoldable pub save_wallet : Wallet → Action Wallet
unfolding save_valid
save_wallet w db =
    save_valid (Error.invalid_row Issue.id_taken) (complaints (wallet_checks db w))
      (insert_wallet w) w db

abbrev pub wallet_of : ℕ → List Wallet → Option Wallet
wallet_of subscriber wallets = find (λ w. w.subscriber_id == subscriber) wallets

unfoldable pub create_wallet : ℕ → Action Wallet
create_wallet subscriber = do
  k ← fresh
  save_wallet (record { id = k; subscriber_id = subscriber; currency = kes })

-- The wallet that the query found, or a new one.
unfoldable pub found_or_create : Option Wallet → ℕ → Action Wallet
unfolding create_wallet
found_or_create (some w) subscriber db = (ok w, db)
found_or_create none subscriber db = create_wallet subscriber db

-- `_get_or_create_locked_wallet`
unfoldable pub get_or_create_wallet : ℕ → Action Wallet
unfolding found_or_create
get_or_create_wallet subscriber db = found_or_create (wallet_of subscriber db.wallets) subscriber db

-- `_lock_wallet`
unfoldable pub lock_wallet : ℕ → Action Wallet
lock_wallet k = require (λ db. find (λ w. w.id == k) db.wallets) Error.does_not_exist

-- `_lock_existing_wallet`
unfoldable pub lock_existing_wallet : ℕ → Action Wallet
lock_existing_wallet subscriber =
    require (λ db. wallet_of subscriber db.wallets) Error.wallet_required

-- `entry.wallet.subscriber_id`
abbrev pub wallet_subscriber : ℕ → Db → Option ℕ
wallet_subscriber wallet_id db = elim (find (λ w. w.id == wallet_id) db.wallets) [
  | none ↦ none
  | some w ↦ some w.subscriber_id
]

-- `record_event` of a service, without a request, for the row with the key.
unfoldable pub record_event : Option ℕ → AuditAction → ℕ → Text → Action Unit
record_event actor action target reason db = (
  ok tt,
  record db {
    audit =
        record {
          actor_id = actor;
          action = action;
          target_identifier = Target.keyed target;
          reason = reason;
        }
        ∷ db.audit;
  },
)

-- The same for a target with an account number or reference.
unfoldable pub record_event_labelled : Option ℕ → AuditAction → Text → Text → Action Unit
record_event_labelled actor action target reason db = (
  ok tt,
  record db {
    audit =
        record {
          actor_id = actor;
          action = action;
          target_identifier = Target.labelled target;
          reason = reason;
        }
        ∷ db.audit;
  },
)
