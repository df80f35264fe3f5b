-- ===== src/Stable/Services/Wallets.antt =====
-- The wallet services keep the invariant of the database.
use supersurf_billing_phase.Common.{ℕ, Option, Text}
use supersurf_billing_phase.Exec.Keeps.{Keeps}
use supersurf_billing_phase.Schema.Rows.{LedgerEntry, Wallet}
use supersurf_billing_phase.Money.{Decimal}
use supersurf_billing_phase.Service.Access.{Actor}
use supersurf_billing_phase.Service.Inputs.{RawId}
use supersurf_billing_phase.Wallets.Adjust.{
  Adjustment, post_entry, post_locked, post_adjustment, post_manual_wallet_adjustment,
}
use supersurf_billing_phase.Wallets.Reverse.{
  Reversal, post_reversal, check_target, reverse_locked, reverse_entry, reverse_ledger_entry,
}
use supersurf_billing_phase.Schema.Database.{Db}
use supersurf_billing_phase.Stable.{IsStable}
use supersurf_billing_phase.Stable.Parts.{wallet_rules}

module _ {P : Db → Type 0} (stable : IsStable P) where
  post_entry-Keeps :
      (a : Adjustment) (w : Wallet) (latest : Option LedgerEntry) → Keeps P (post_entry a w latest)
  unfolding post_entry
  post_entry-Keeps a w latest = search wallet_rules

  post_locked-Keeps : (a : Adjustment) → Keeps P (post_locked a)
  unfolding post_locked
  post_locked-Keeps a = search (wallet_rules, post_entry-Keeps) depth 8

  post_adjustment-Keeps : (a : Adjustment) → Keeps P (post_adjustment a)
  unfolding post_adjustment
  post_adjustment-Keeps a = search (wallet_rules, post_locked-Keeps)

  -- A manual adjustment, whatever its arguments and its outcome, leaves a valid database valid.
  pub post_manual_wallet_adjustment-Keeps :
      (subscriber : ℕ) (direction : Text) (amount : Decimal) (operation_id : RawId) (reason : Text)
      (actor : Option Actor)
      → Keeps P
          (post_manual_wallet_adjustment subscriber direction amount operation_id reason actor)
  unfolding post_manual_wallet_adjustment
  post_manual_wallet_adjustment-Keeps subscriber direction amount operation_id reason actor =
      search (wallet_rules, post_adjustment-Keeps) depth 8

  post_reversal-Keeps :
      (r : Reversal) (t : LedgerEntry) (w : Wallet) (latest : Option LedgerEntry)
      → Keeps P (post_reversal r t w latest)
  unfolding post_reversal
  post_reversal-Keeps r t w latest = search wallet_rules

  check_target-Keeps :
      (r : Reversal) (t : LedgerEntry) (w : Wallet) (latest : Option LedgerEntry)
      → Keeps P (check_target r t w latest)
  unfolding check_target
  check_target-Keeps r t w latest = search (wallet_rules, post_reversal-Keeps) depth 8

  reverse_locked-Keeps : (r : Reversal) (t : LedgerEntry) → Keeps P (reverse_locked r t)
  unfolding reverse_locked
  reverse_locked-Keeps r t = search (wallet_rules, check_target-Keeps) depth 8

  reverse_entry-Keeps : (r : Reversal) → Keeps P (reverse_entry r)
  unfolding reverse_entry
  reverse_entry-Keeps r = search (wallet_rules, reverse_locked-Keeps)

  -- A reversal, whatever its arguments and its outcome, leaves a valid database valid.
  pub reverse_ledger_entry-Keeps :
      (entry : ℕ) (operation_id : RawId) (reason : Text) (actor : Option Actor)
      → Keeps P (reverse_ledger_entry entry operation_id reason actor)
  unfolding reverse_ledger_entry
  reverse_ledger_entry-Keeps entry operation_id reason actor =
      search (wallet_rules, reverse_entry-Keeps) depth 8
