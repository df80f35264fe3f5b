-- ===== src/Payments/Effects.antt =====
-- What the crediting of a payment has written, and where a new payment goes.
use supersurf_billing_phase.Common.{ℕ, suc, ◌≡◌, sym, refl, ap, ◌∙◌, Option, none, some, List, ◌∷◌}
use supersurf_billing_phase.Exec.{ok}
use supersurf_billing_phase.Exec.Runs.{bind_then, lift_ok, gets_ok, pure_ok}
use supersurf_billing_phase.Schema.Choices.{Direction, Source, CaseStatus}
use supersurf_billing_phase.Schema.Rows.{
  LedgerEntry, Payment, PaymentAllocation, Subscriber, UnmatchedPaymentCase, Wallet,
}
use supersurf_billing_phase.Schema.Database.{Db}
use supersurf_billing_phase.Ledger.Save.{
  latest_entry, current_balance, resulting_balance, save_valid_ok, cleaned_entry, save_ledger_entry,
}
use supersurf_billing_phase.Service.Lookup.{wallet_of, fresh, record_event}
use supersurf_billing_phase.Service.Effects.{
  IsPosted, Tables, tables, wallet_ok, wallet_owner, IsPosted-of,
}
use supersurf_billing_phase.Common.{Unicode}
use supersurf_billing_phase.Payments.Save.{
  credit_entry, allocation_row, credit_wallet, save_allocation, save_case,
}
use supersurf_billing_phase.Payments.Ingest.{Ingestion, place, open_case}

-- `p` has been credited in full to the wallet of the subscriber: one new ledger entry and one new
-- allocation, and no new payment or case.
pub record IsCredited (p : Payment) (subscriber operation : ℕ) (old new : Tables)
    (wallets : List Wallet) (a : PaymentAllocation) : Type 0 where
  pub entry : LedgerEntry
  pub wallet : Wallet
  pub owner : wallet_of subscriber wallets ≡ some wallet
  pub posted : IsPosted Direction.credit p.amount_minor operation old.0 new.0 entry
  pub others : (new.1 ≡ old.1) × (new.2 ≡ a ∷ old.2) × (new.3 ≡ old.3)
  pub allocation_lem :
      (a.payment_id ≡ p.id)
      × (a.ledger_entry_id ≡ entry.id)
      × (a.amount_minor ≡ p.amount_minor)
      × (a.operation_id ≡ operation)
      × (a.wallet_id ≡ wallet.id)
      × (entry.wallet_id ≡ wallet.id)

ap-IsPosted :
    {d : Direction} {amount operation : ℕ} {old new other : List LedgerEntry} {e : LedgerEntry}
    → new ≡ other
    → IsPosted d amount operation old new e
    → IsPosted d amount operation old other e
ap-IsPosted same h = rw (← same) h

pub credit_wallet_ok :
    (p : Payment) (subscriber operation : ℕ) (actor : Option ℕ) (source : Source) (db db' : Db)
    (a : PaymentAllocation)
    → credit_wallet p subscriber operation actor source db ≡ (ok a, db')
    → IsCredited p subscriber operation (tables db) (tables db') db'.wallets a
unfolding credit_wallet fresh save_ledger_entry save_allocation
credit_wallet_ok p subscriber operation actor source db db' a h =
    bind_then _ _ db h λ w s1 created h1. bind_then _ _ s1 h1 λ latest s2 queried h2.
      bind_then _ _ s2 h2 λ balance s3 lifted h3. bind_then _ _ s3 h3 λ k s4 drawn h4.
        bind_then _ _ s4 h4 λ e s5 entered h5. bind_then _ _ s5 h5 λ j s6 taken h6.
          let kept = wallet_ok subscriber db s1 w created in
          let (top, same2) = gets_ok _ latest s1 s2 queried in
          let (sum, same3) = lift_ok _ balance s2 s3 lifted in
          let same4 : record s3 { next_id = suc s3.next_id } ≡ s4 = ap (λ x. x.1) drawn in
          let (entry, same5) = save_valid_ok _ _ _ _ e s4 s5 entered in
          let same6 : record s5 { next_id = suc s5.next_id } ≡ s6 = ap (λ x. x.1) taken in
          let (row, same7) = save_valid_ok _ _ _ _ a s6 db' h6 in
          let row_is = credit_entry p w latest operation actor source balance k in
          let summed : resulting_balance (current_balance (latest_entry w.id db.entries))
                Direction.credit p.amount_minor
              ≡ ok balance =
            ap (λ l. resulting_balance (current_balance l) Direction.credit p.amount_minor)
              (ap (λ t. latest_entry w.id t.0) kept ∙ top)
            ∙ sum in
          let posted =
            IsPosted-of row_is (cleaned_entry row_is) db.entries (cleaned_entry row_is ∷ db.entries)
              summed refl refl in
          let rewritten = ap-IsPosted (ap (λ t. cleaned_entry row_is ∷ t.0) kept) posted in
          rw (← same7, ← same6, ← same5, ← same4, ← same3, ← same2, ← row, ← entry)
            record {
              entry = cleaned_entry row_is;
              wallet = w;
              owner = wallet_owner subscriber db s1 w created;
              posted = rewritten;
              others = (
                sym (ap (λ t. t.1) kept),
                ap (λ l. allocation_row p w (cleaned_entry row_is) operation actor source j ∷ l)
                    (sym (ap (λ t. t.2) kept)),
                sym (ap (λ t. t.3) kept),
              );
              allocation_lem = (refl, refl, refl, refl, refl, refl);
            }

-- A new payment is credited to the subscriber that its reference names, or has a new open case.
abbrev pub IsPlaced :
    Ingestion → Payment → Option Subscriber → Tables → Tables → List Wallet → Type 0
IsPlaced r p (some s) old new wallets =
    (a : PaymentAllocation) × IsCredited p s.id r.operation old new wallets a
IsPlaced r p none old new wallets =
    (c : UnmatchedPaymentCase) × (new ≡ (old.0, old.1, old.2, c ∷ old.3))
    × (c.payment_id ≡ p.id)
    × (c.status ≡ CaseStatus.opened)

pub place_ok :
    (u : Unicode) (r : Ingestion) (p q : Payment) (s : Option Subscriber) (db db' : Db)
    → place u r p s db ≡ (ok q, db')
    → (p ≡ q) × IsPlaced r p s (tables db) (tables db') db'.wallets
unfolding place fresh record_event save_case
place_ok u r p q none db db' h = bind_then _ _ db h λ k s1 drawn h1.
    bind_then _ _ s1 h1 λ c s2 opened h2. bind_then _ _ s2 h2 λ _ s3 told h3.
      let same1 : record db { next_id = suc db.next_id } ≡ s1 = ap (λ x. x.1) drawn in
      let (row, same2) = save_valid_ok _ _ _ _ c s1 s2 opened in
      let same3 = ap (λ x. x.1) told in
      let (result, same4) = pure_ok p q s3 db' h3 in
      (result, rw (← same4, ← same3, ← same2, ← same1) (open_case u r p k, refl, refl, refl))
place_ok u r p q (some s) db db' h = bind_then _ _ db h λ a s1 credited h1.
    bind_then _ _ s1 h1 λ _ s2 told1 h2. bind_then _ _ s2 h2 λ _ s3 told2 h3.
      let same2 = ap (λ x. x.1) told1 in
      let same3 = ap (λ x. x.1) told2 in
      let (result, same4) = pure_ok p q s3 db' h3 in
      let b = credit_wallet_ok p s.id r.operation r.actor r.source db s1 a credited in
      (result, rw (← same4, ← same3, ← same2) (a, b))
