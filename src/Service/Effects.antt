-- ===== src/Service/Effects.antt =====
-- What the shared parts of the services do to the ledger entries.
use supersurf_billing_phase.Common.{
  ℕ, ◌≤◌, ◌≡◌, sym, refl, ap, ◌∙◌, inl, inr, Option, none, some, List, ◌∷◌, arith, Text,
}
use supersurf_billing_phase.Exec.{Result, ok}
use supersurf_billing_phase.Exec.Runs.{bind_then}
use supersurf_billing_phase.Errors.{Issue, Error}
use supersurf_billing_phase.Schema.Choices.{Direction}
use supersurf_billing_phase.Schema.Rows.{
  LedgerEntry, Wallet, AuditAction, Payment, PaymentAllocation, UnmatchedPaymentCase,
}
use supersurf_billing_phase.Schema.Database.{Db}
use supersurf_billing_phase.Money.{max_money_minor, kes}
use supersurf_billing_phase.Ledger.Save.{
  latest_entry, current_balance, resulting_balance, cleaned_entry, save_valid_ok, save_valid_cases,
  save_ledger_entry,
}
use supersurf_billing_phase.Ledger.Chain.{Moves}
use supersurf_billing_phase.Ledger.Balance.{resulting_balance_iff}
use supersurf_billing_phase.Service.Lookup.{
  fresh, record_event, save_wallet, wallet_checks, insert_wallet, create_wallet, found_or_create,
  wallet_of, get_or_create_wallet,
}
use supersurf_billing_phase.Validation.{complaints}
use supersurf_billing_phase.Exec.Keeps.{Keeps, keeps_rules}

-- `e` is the one new entry of the table, and moves the balance of its wallet by the amount.
pub record IsPosted (d : Direction) (amount operation : ℕ) (old new : List LedgerEntry)
    (e : LedgerEntry) : Type 0 where
  pub written : new ≡ e ∷ old
  pub direction_lem : e.direction ≡ d
  pub amount_lem : e.amount_minor ≡ amount
  pub operation_lem : e.operation_id ≡ operation
  pub moved : Moves d (current_balance (latest_entry e.wallet_id old)) amount e.balance_after_minor
  pub bounded : e.balance_after_minor ≤ max_money_minor

pub fresh_ok : (db db' : Db) (k : ℕ) → fresh db ≡ (ok k, db') → db.entries ≡ db'.entries
unfolding fresh
fresh_ok db db' k h = ap (λ x. x.1.entries) h

pub record_event_ok :
    (actor : Option ℕ) (action : AuditAction) (target : ℕ) (reason : Text) (db db' : Db) (u : Unit)
    → record_event actor action target reason db ≡ (ok u, db')
    → db.entries ≡ db'.entries
unfolding record_event
record_event_ok actor action target reason db db' u h = ap (λ x. x.1.entries) h

pub entries_lem :
    {a b c d f g : List LedgerEntry} {e : LedgerEntry}
    → a ≡ b
    → b ≡ c
    → e ∷ c ≡ d
    → d ≡ f
    → f ≡ g
    → g ≡ e ∷ a
entries_lem p q r s t = cc

pub saved_ok :
    (e r : LedgerEntry) (db db' : Db)
    → save_ledger_entry e db ≡ (ok r, db')
    → (cleaned_entry e ≡ r) × (cleaned_entry e ∷ db.entries ≡ db'.entries)
unfolding save_ledger_entry
saved_ok e r db db' h =
    let (row, rest) = save_valid_ok _ _ _ _ r db db' h in (row, ap (λ d. d.entries) rest)

-- The tables that a new wallet leaves alone.
abbrev pub Tables : Type 0
Tables = List LedgerEntry × List Payment × List PaymentAllocation × List UnmatchedPaymentCase

abbrev pub tables : Db → Tables
tables db = (db.entries, db.payments, db.allocations, db.cases)

module _ (old : Tables) where
  fresh-Keeps_old : Keeps (λ db. old ≡ tables db) fresh
  unfolding fresh
  fresh-Keeps_old = record { at = λ db h. h }

  save_wallet-Keeps_old : (w : Wallet) → Keeps (λ db. old ≡ tables db) (save_wallet w)
  unfolding save_wallet
  save_wallet-Keeps_old w = record {
    at = λ db h.
        elim (save_valid_cases (Error.invalid_row Issue.id_taken) (complaints (wallet_checks db w))
          (insert_wallet w) w db) [
            | inl (error, raised) ↦ rw raised h
            | inr (accepted, saved) ↦ rw saved h
          ];
  }

  created-Keeps_old : (k : ℕ) → Keeps (λ db. old ≡ tables db) (create_wallet k)
  unfolding create_wallet
  created-Keeps_old k = search (keeps_rules, fresh-Keeps_old, save_wallet-Keeps_old)

  found-Keeps_old :
      (o : Option Wallet) (k : ℕ) → Keeps (λ db. old ≡ tables db) (found_or_create o k)
  unfolding found_or_create
  found-Keeps_old none k = record { at = λ db h. (created-Keeps_old k).at db h }
  found-Keeps_old (some w) k = record { at = λ db h. h }

pub wallet_ok :
    (k : ℕ) (db db' : Db) (w : Wallet)
    → get_or_create_wallet k db ≡ (ok w, db')
    → tables db ≡ tables db'
unfolding get_or_create_wallet
wallet_ok k db db' w h =
    (found-Keeps_old (tables db) (wallet_of k db.wallets) k).at db refl ∙ ap (λ x. tables x.1) h

some_result :
    {db db' : Db} {x w : Wallet}
    → ◌≡◌ {A = Result Error Wallet × Db} (ok x, db) (ok w, db')
    → some x ≡ some w
some_result h = cc

found_owner :
    (o : Option Wallet) (k : ℕ) (db db' : Db) (w : Wallet)
    → wallet_of k db.wallets ≡ o
    → found_or_create o k db ≡ (ok w, db')
    → wallet_of k db'.wallets ≡ some w
unfolding found_or_create create_wallet save_wallet fresh
found_owner none k db db' w e h = bind_then _ _ db h λ n s1 drawn h1.
    let (row, same) = save_valid_ok _ _ _ _ w s1 db' h1 in
    let head : wallet_of k (record { id = n; subscriber_id = k; currency = kes } ∷ s1.wallets)
        ≡ some (record { id = n; subscriber_id = k; currency = kes }) =
      ground arith in
    sym (ap (λ d. wallet_of k d.wallets) same) ∙ head ∙ ap some row
found_owner (some x) k db db' w e h = sym (ap (λ r. wallet_of k r.1.wallets) h) ∙ e ∙ some_result h

-- The wallet is the one of this subscriber in the table.
pub wallet_owner :
    (k : ℕ) (db db' : Db) (w : Wallet)
    → get_or_create_wallet k db ≡ (ok w, db')
    → wallet_of k db'.wallets ≡ some w
unfolding get_or_create_wallet
wallet_owner k db db' w h = found_owner (wallet_of k db.wallets) k db db' w refl h

-- An entry that was written with the balance that its amount leads to.
pub IsPosted-of :
    (e r : LedgerEntry) (old new : List LedgerEntry)
    → resulting_balance (current_balance (latest_entry e.wallet_id old)) e.direction e.amount_minor
      ≡ ok e.balance_after_minor
    → new ≡ cleaned_entry e ∷ old
    → cleaned_entry e ≡ r
    → IsPosted e.direction e.amount_minor e.operation_id old new r
IsPosted-of e r old new resulting written same =
    let (moves, bounded) =
      (resulting_balance_iff _ e.direction e.amount_minor e.balance_after_minor).0 resulting in
    let posted : IsPosted e.direction e.amount_minor e.operation_id old new (cleaned_entry e) =
      record {
        written = written;
        direction_lem = refl;
        amount_lem = refl;
        operation_lem = refl;
        moved = moves;
        bounded = bounded;
      } in
    rw (sym same) posted
