-- ===== src/Wallets/Effects.antt =====
-- What a manual adjustment that returned has done to the ledger.
use supersurf_billing_phase.Common.{
  find_sound, ℕ, ◌≡◌, sym, ap, ◌∙◌, ◌⊎◌, inl, inr, Option, none, some, List, ◌==◌, find, Text,
  arith,
}
use supersurf_billing_phase.Exec.{ok}
use supersurf_billing_phase.Exec.Runs.{
  bind_then, lift_ok, gets_ok, ask_ok, require_ok, pure_ok, reuse_ok, atomic_ok,
}
use supersurf_billing_phase.Schema.Choices.{Direction}
use supersurf_billing_phase.Schema.Rows.{LedgerEntry, Wallet, Subscriber}
use supersurf_billing_phase.Schema.Database.{Db}
use supersurf_billing_phase.Ledger.Save.{latest_entry}
use supersurf_billing_phase.Money.{Decimal, normalize_ledger_amount}
use supersurf_billing_phase.Service.Access.{Actor}
use supersurf_billing_phase.Service.Inputs.{RawId, normalize_operation_id, normalize_direction}
use supersurf_billing_phase.Service.Lookup.{lock_subscriber, wallet_subscriber, wallet_of}
use supersurf_billing_phase.Service.Effects.{
  IsPosted, fresh_ok, record_event_ok, saved_ok, entries_lem, wallet_ok, wallet_owner, IsPosted-of,
}
use supersurf_billing_phase.Wallets.Found.{none_existing, some_existing, same_lem}
use supersurf_billing_phase.Wallets.Kept.{post_entry_wallets}
use supersurf_billing_phase.Wallets.Adjust.{
  Adjustment, adjustment_entry, existing_adjustment, post_entry, post_locked, post_adjustment,
  post_manual_wallet_adjustment,
}

-- The entry is one of the wallet that the table has for the subscriber.
abbrev pub InWalletOf : ℕ → List Wallet → LedgerEntry → Type 0
InWalletOf subscriber wallets e =
    (w : Wallet) × (wallet_of subscriber wallets ≡ some w) × (e.wallet_id ≡ w.id)

post_entry_ok :
    (a : Adjustment) (w : Wallet) (db db' : Db) (e : LedgerEntry)
    → post_entry a w (latest_entry w.id db.entries) db ≡ (ok e, db')
    → IsPosted a.direction a.amount a.operation db.entries db'.entries e × (e.wallet_id ≡ w.id)
unfolding post_entry
post_entry_ok a w db db' e h = bind_then _ _ db h λ balance s1 lifted h1.
    bind_then _ _ s1 h1 λ k s2 drawn h2. bind_then _ _ s2 h2 λ saved s3 inserted h3.
      bind_then _ _ s3 h3 λ u s4 recorded h4.
        let (resulting, same1) = lift_ok _ balance db s1 lifted in
        let (row, same3) = saved_ok _ saved s2 s3 inserted in
        let (result, same5) = pure_ok saved e s4 db' h4 in
        let row_is = adjustment_entry a w (latest_entry w.id db.entries) balance k in
        (
          IsPosted-of row_is e db.entries db'.entries resulting
              (entries_lem (ap (λ d. d.entries) same1) (fresh_ok s1 s2 k drawn) same3
                (record_event_ok _ _ _ _ s3 s4 u recorded) (ap (λ d. d.entries) same5))
              (row ∙ result),
          sym (ap (λ x. x.wallet_id) (row ∙ result)),
        )

clash :
    (a : Adjustment) (e : LedgerEntry) (old new : List LedgerEntry)
    → old ≡ new
    → find (λ e. e.operation_id == a.operation) old ≡ none
    → find (λ e. e.operation_id == a.operation) new ≡ some e
    → ⊥
clash a e old new same free found = cc

of_old :
    (a : Adjustment) (e : LedgerEntry) {old middle : List LedgerEntry} (new : List LedgerEntry)
    → old ≡ middle
    → IsPosted a.direction a.amount a.operation middle new e
    → IsPosted a.direction a.amount a.operation old new e
of_old a e new same h = rw same h

-- A locked adjustment whose operation was new has posted its entry.
post_locked_ok :
    (a : Adjustment) (db db' : Db) (e : LedgerEntry)
    → find (λ e. e.operation_id == a.operation) db.entries ≡ none
    → post_locked a db ≡ (ok e, db')
    → IsPosted a.direction a.amount a.operation db.entries db'.entries e
      × InWalletOf a.subscriber db'.wallets e
unfolding post_locked lock_subscriber
post_locked_ok a db db' e free h = bind_then _ _ db h λ locked s1 found h1.
    bind_then _ _ s1 h1 λ w s2 created h2. bind_then _ _ s2 h2 λ latest s3 queried h3.
      bind_then _ _ s3 h3 λ existing s4 asked h4.
        let (top, same3) = gets_ok _ latest s2 s3 queried in
        let owner : locked.id ≡ a.subscriber = ground (
          arith,
          find_sound (λ (x : Subscriber). x.id == a.subscriber) db.subscribers locked
              (require_ok _ _ locked db s1 found).0,
        ) in
        let (tested, same4) = ask_ok _ existing s3 s4 asked in
        let old : db.entries ≡ s4.entries =
          ap (λ d. d.entries) (require_ok _ _ locked db s1 found).1
          ∙ ap (λ x. x.0) (wallet_ok locked.id s1 s2 w created)
          ∙ ap (λ d. d.entries) (same3 ∙ same4) in
        let here : latest ≡ latest_entry w.id s4.entries =
          sym top ∙ ap (λ d. latest_entry w.id d.entries) (same3 ∙ same4) in
        let taken : existing_adjustment a s4 ≡ ok existing = rw (sym same4) tested in
        elim (reuse_ok existing _ s4 h4) [
          | inl (again, same) ↦
              let found_it = (some_existing a s4 e (taken ∙ ap ok again)).0 in
              absurd (clash a e db.entries s4.entries old free found_it)
          | inr (new_one, posted) ↦
              let run : post_entry a w (latest_entry w.id s4.entries) s4 ≡ (ok e, db') =
                sym (ap (λ l. post_entry a w l s4) here) ∙ posted in
              let (posted_there, in_wallet) = post_entry_ok a w s4 db' e run in
              let its_wallet : wallet_of a.subscriber db'.wallets ≡ some w =
                sym (ap (λ k. wallet_of k db'.wallets) owner)
                ∙ sym (
                    ap (wallet_of locked.id) (
                      ap (λ d. d.wallets) (same3 ∙ same4)
                      ∙ post_entry_wallets a w (latest_entry w.id s4.entries) s4 db' e run))
                ∙ wallet_owner locked.id s1 s2 w created in
              (of_old a e db'.entries old posted_there, (w, its_wallet, in_wallet))
        ]

post_adjustment_ok :
    (a : Adjustment) (db db' : Db) (e : LedgerEntry)
    → post_adjustment a db ≡ (ok e, db')
    → ((db ≡ db')
        × (find (λ e. e.operation_id == a.operation) db.entries ≡ some e)
        × (e.direction ≡ a.direction)
        × (e.amount_minor ≡ a.amount)
        × (wallet_subscriber e.wallet_id db ≡ some a.subscriber))
      ⊎ ((find (λ e. e.operation_id == a.operation) db.entries ≡ none)
          × IsPosted a.direction a.amount a.operation db.entries db'.entries e
          × InWalletOf a.subscriber db'.wallets e)
unfolding post_adjustment
post_adjustment_ok a db db' e h = bind_then _ _ db h λ existing s1 asked h1.
    let (tested, same) = ask_ok _ existing db s1 asked in
    elim (reuse_ok existing _ s1 h1) [
      | inl (again, stays) ↦
          let (found, contents) = some_existing a db e (tested ∙ ap ok again) in
          let (directions, amounts, owner) = same_lem a db e contents in
          inl (same ∙ stays, found, directions, amounts, owner)
      | inr (new_one, ran) ↦
          let free = none_existing a db (tested ∙ ap ok new_one) in
          let run : post_locked a db ≡ (ok e, db') = ap (λ d. post_locked a d) same ∙ ran in
          let (posted, in_wallet) = post_locked_ok a db db' e free run in
          inr (free, posted, in_wallet)
    ]

-- What a manual adjustment that returns has done. Its operation ID was used before, and the answer
-- is the entry that has it, of the same subscriber, direction and amount, with the database
-- unchanged; or no entry has its operation ID, and there is one new entry, under that ID, in the
-- wallet of the subscriber, with the direction and the amount of the arguments, which moves the
-- balance of this wallet by the amount, not below zero and at most to the maximum.
pub post_manual_wallet_adjustment_ok :
    (subscriber : ℕ) (direction : Text) (amount : Decimal) (operation_id : RawId) (reason : Text)
    (actor : Option Actor) (db db' : Db) (e : LedgerEntry)
    → post_manual_wallet_adjustment subscriber direction amount operation_id reason actor db
      ≡ (ok e, db')
    → (d : Direction) × (n : ℕ) × (k : ℕ) × (normalize_direction direction ≡ ok d)
      × (normalize_ledger_amount amount ≡ ok n)
      × (normalize_operation_id operation_id ≡ ok k)
      × (((db ≡ db')
            × (find (λ e. e.operation_id == k) db.entries ≡ some e)
            × (e.direction ≡ d)
            × (e.amount_minor ≡ n)
            × (wallet_subscriber e.wallet_id db ≡ some subscriber))
          ⊎ ((find (λ e. e.operation_id == k) db.entries ≡ none)
              × IsPosted d n k db.entries db'.entries e
              × InWalletOf subscriber db'.wallets e))
unfolding post_manual_wallet_adjustment
post_manual_wallet_adjustment_ok subscriber direction amount operation_id reason actor db db' e h =
    bind_then _ _ db (atomic_ok _ db h) λ operator s1 allowed h1.
      bind_then _ _ s1 h1 λ d s2 directed h2. bind_then _ _ s2 h2 λ n s3 counted h3.
        bind_then _ _ s3 h3 λ text s4 reasoned h4. bind_then _ _ s4 h4 λ k s5 named h5.
          let (_, same1) = lift_ok _ operator db s1 allowed in
          let (is_d, same2) = lift_ok _ d s1 s2 directed in
          let (is_n, same3) = lift_ok _ n s2 s3 counted in
          let (_, same4) = lift_ok _ text s3 s4 reasoned in
          let (is_k, same5) = lift_ok _ k s4 s5 named in
          let same : db ≡ s5 = same1 ∙ same2 ∙ same3 ∙ same4 ∙ same5 in
          let a : Adjustment = record {
            subscriber = subscriber;
            direction = d;
            amount = n;
            operation = k;
            reason = text;
            actor = operator.id;
          } in
          let run = ap (λ s. post_adjustment a s) same ∙ h5 in
          (d, n, k, is_d, is_n, is_k, post_adjustment_ok a db db' e run)
