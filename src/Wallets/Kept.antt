-- ===== src/Wallets/Kept.antt =====
-- The entry of a manual adjustment, and the table of wallets while it is posted.
use supersurf_billing_phase.Common.{refl, ℕ, ◌≡◌, ap, ◌∙◌, inl, inr, Option, List, Text}
use supersurf_billing_phase.Exec.{ok}
use supersurf_billing_phase.Schema.Rows.{LedgerEntry, Wallet, AuditAction}
use supersurf_billing_phase.Schema.Database.{Db}
use supersurf_billing_phase.Ledger.Save.{save_ledger_entry}
use supersurf_billing_phase.Ledger.Invariant.{save_cases}
use supersurf_billing_phase.Exec.Keeps.{Keeps, keeps_rules}
use supersurf_billing_phase.Service.Lookup.{fresh, record_event}
use supersurf_billing_phase.Wallets.Adjust.{Adjustment, post_entry}

module _ (old : List Wallet) where
  fresh-Keeps_wallets : Keeps (λ db. old ≡ db.wallets) fresh
  unfolding fresh
  fresh-Keeps_wallets = record { at = λ db h. h }

  record_event-Keeps_wallets :
      (actor : Option ℕ) (action : AuditAction) (target : ℕ) (reason : Text)
      → Keeps (λ db. old ≡ db.wallets) (record_event actor action target reason)
  unfolding record_event
  record_event-Keeps_wallets actor action target reason = record { at = λ db h. h }

  save_ledger_entry-Keeps_wallets :
      (e : LedgerEntry) → Keeps (λ db. old ≡ db.wallets) (save_ledger_entry e)
  save_ledger_entry-Keeps_wallets e = record {
    at = λ db h. elim (save_cases e db) [
      | inl (error, raised) ↦ rw raised h
      | inr (accepted, saved) ↦ rw saved h
    ];
  }

  post_entry-Keeps_wallets :
      (a : Adjustment) (w : Wallet) (latest : Option LedgerEntry)
      → Keeps (λ db. old ≡ db.wallets) (post_entry a w latest)
  unfolding post_entry
  post_entry-Keeps_wallets a w latest = search (
    keeps_rules, fresh-Keeps_wallets, record_event-Keeps_wallets, save_ledger_entry-Keeps_wallets,
  )

pub post_entry_wallets :
    (a : Adjustment) (w : Wallet) (latest : Option LedgerEntry) (db db' : Db) (e : LedgerEntry)
    → post_entry a w latest db ≡ (ok e, db')
    → db.wallets ≡ db'.wallets
post_entry_wallets a w latest db db' e h =
    (post_entry-Keeps_wallets db.wallets a w latest).at db refl ∙ ap (λ x. x.1.wallets) h
