-- ===== src/Stable/Parts.antt =====
-- The parts that the services share keep what every save keeps.
use supersurf_billing_phase.Common.{ℕ, Option, none, some}
use supersurf_billing_phase.Exec.Keeps.{Keeps, keeps_rules}
use supersurf_billing_phase.Schema.Rows.{Wallet}
use supersurf_billing_phase.Schema.Database.{Db}
use supersurf_billing_phase.Service.Lookup.{
  lock_subscriber, lock_service, lock_wallet, lock_existing_wallet, wallet_of, create_wallet,
  found_or_create, get_or_create_wallet,
}
use supersurf_billing_phase.Stable.{IsStable}
use supersurf_billing_phase.Stable.Saves.{
  fresh-Keeps, record_event-Keeps, save_wallet-Keeps, save_ledger_entry-Keeps,
}

module _ {P : Db → Type 0} (stable : IsStable P) where
  pub lock_subscriber-Keeps : (k : ℕ) → Keeps P (lock_subscriber k)
  unfolding lock_subscriber
  lock_subscriber-Keeps k = search keeps_rules

  pub lock_service-Keeps : (k : ℕ) → Keeps P (lock_service k)
  unfolding lock_service
  lock_service-Keeps k = search keeps_rules

  pub lock_wallet-Keeps : (k : ℕ) → Keeps P (lock_wallet k)
  unfolding lock_wallet
  lock_wallet-Keeps k = search keeps_rules

  pub lock_existing_wallet-Keeps : (k : ℕ) → Keeps P (lock_existing_wallet k)
  unfolding lock_existing_wallet
  lock_existing_wallet-Keeps k = search keeps_rules

  pub ruleset base_rules = (
    keeps_rules, fresh-Keeps, record_event-Keeps, lock_subscriber-Keeps, lock_service-Keeps,
    lock_wallet-Keeps, lock_existing_wallet-Keeps, save_wallet-Keeps, save_ledger_entry-Keeps,
  )

  create_wallet-Keeps : (k : ℕ) → Keeps P (create_wallet k)
  unfolding create_wallet
  create_wallet-Keeps k = search base_rules

  found_or_created : (o : Option Wallet) (k : ℕ) (db : Db) → P db → P (found_or_create o k db).1
  unfolding found_or_create
  found_or_created none k db h = (create_wallet-Keeps k).at db h
  found_or_created (some w) k db h = h

  pub get_or_create_wallet-Keeps : (k : ℕ) → Keeps P (get_or_create_wallet k)
  unfolding get_or_create_wallet
  get_or_create_wallet-Keeps k = record {
    at = λ db h. found_or_created (wallet_of k db.wallets) k db h;
  }

  pub ruleset wallet_rules = (base_rules, get_or_create_wallet-Keeps)
