-- ===== src/Calls/Reach.antt =====
-- Databases that service calls reach from an empty one.
use supersurf_billing_phase.Common.{ℕ, ◌+◌, ◌≤◌, ◌≡◌, List, [], ◌∷◌}
use supersurf_billing_phase.Schema.Choices.{Direction}
use supersurf_billing_phase.Schema.Database.{Db}
use supersurf_billing_phase.Money.{max_money_minor}
use supersurf_billing_phase.Ledger.Save.{latest_entry, current_balance}
use supersurf_billing_phase.Ledger.Invariant.{total, balance-eq-total, balance-le-max}
use supersurf_billing_phase.Common.{Unicode}
use supersurf_billing_phase.Validity.Invariant.{IsValid}
use supersurf_billing_phase.Validity.Services.{IsValid-beside, IsValid-IsCallbackStable}
use supersurf_billing_phase.Calls.{Call, perform, run}
use supersurf_billing_phase.Calls.Stable.{run-keeps}

abbrev pub empty : Db
empty = record {
  next_id = 0;
  subscribers = [];
  services = [];
  sequences = [];
  plans = [];
  subscriptions = [];
  periods = [];
  wallets = [];
  entries = [];
  charges = [];
  profiles = [];
  payments = [];
  allocations = [];
  cases = [];
  events = [];
  links = [];
  audit = [];
}

-- One call after the other, from the empty database.
pub data Reachable (u : Unicode) : Db → Type 0 where
  start : Reachable u empty
  step : (call : Call) (db : Db) → Reachable u db → Reachable u (perform u call db)

pub empty-IsValid : IsValid empty
empty-IsValid = record {
  ledger = (tt, tt);
  wallet_ids = tt;
  wallet_owners = tt;
  subscribed_once = tt;
  charged_once = tt;
  charges = tt;
  allocated_once = tt;
  allocations = tt;
}

-- A valid database stays valid under any sequence of service calls and registry changes, whatever
-- their arguments, and whether they return or raise. Valid means that the ledger is a chain for each
-- wallet, that no two wallets have one ID or one subscriber, that no service has two active
-- subscriptions, that no period has two charges and no payment two allocations, that each charge has
-- the amount of its ledger entry and the price of its period, and each allocation the amounts of its
-- ledger entry and of its payment.
pub run-IsValid :
    (u : Unicode) (calls : List Call) (db : Db) → IsValid db → IsValid (run u calls db)
run-IsValid u calls db h =
    run-keeps IsValid-IsCallbackStable
      (λ subscribers services plans profiles db.
        IsValid-beside db db.next_id subscribers services plans profiles db.events db.links
          db.audit)
      u calls db h

Reachable-IsValid : (u : Unicode) (db : Db) → Reachable u db → IsValid db
Reachable-IsValid u _ start = empty-IsValid
Reachable-IsValid u _ (step call db r) = run-IsValid u (call ∷ []) db (Reachable-IsValid u db r)

-- In every reachable database the balance of every wallet is what was credited to it less what was
-- debited from it, and is at most the maximum.
pub Reachable-balance :
    (u : Unicode) (db : Db) (w : ℕ)
    → Reachable u db
    → (current_balance (latest_entry w db.entries) + total Direction.debit w db.entries
        ≡ total Direction.credit w db.entries)
      × (current_balance (latest_entry w db.entries) ≤ max_money_minor)
Reachable-balance u db w r =
    let h = Reachable-IsValid u db r in
    (balance-eq-total w db.entries h.ledger.0, balance-le-max w db.entries h.ledger.0)
