-- ===== src/Wallets/Reversals.antt =====
-- What a reversal that returned has done to the ledger.
use supersurf_billing_phase.Common.{
  opt_eq-some, find_sound, Bool-cases, ℕ, ◌≡◌, sym, ap, ◌∙◌, ◌⊎◌, inl, inr, true, false, Option,
  some, List, ◌==◌, find, exists, Text, opt_eq, Option-cases, arith,
}
use supersurf_billing_phase.Exec.{ok}
use supersurf_billing_phase.Exec.Runs.{
  bind_then, lift_ok, gets_ok, ask_ok, require_ok, pure_ok, reuse_ok, refuse_ok, atomic_ok,
}
use supersurf_billing_phase.Schema.Choices.{is_manual}
use supersurf_billing_phase.Schema.Rows.{LedgerEntry, Wallet}
use supersurf_billing_phase.Schema.Database.{Db}
use supersurf_billing_phase.Ledger.Clean.{has_id, opposite_direction}
use supersurf_billing_phase.Ledger.Save.{latest_entry, cleaned_entry}
use supersurf_billing_phase.Service.Access.{Actor}
use supersurf_billing_phase.Service.Inputs.{RawId, normalize_operation_id}
use supersurf_billing_phase.Service.Lookup.{lock_subscriber, lock_wallet}
use supersurf_billing_phase.Service.Effects.{
  IsPosted, fresh_ok, record_event_ok, saved_ok, entries_lem, IsPosted-of,
}
use supersurf_billing_phase.Wallets.Reverse.{
  Reversal, same_reversal, reversal_entry, existing_reversal, is_reversed, post_reversal,
  check_target, reverse_locked, reverse_entry, reverse_ledger_entry,
}

-- `e` takes back a manual entry of its wallet that no entry had reversed.
pub record IsReversed (entry operation : ℕ) (old new : List LedgerEntry) (e : LedgerEntry)
    : Type 0 where
  pub target : LedgerEntry
  pub found : find (has_id entry) old ≡ some target
  pub manual : is_manual target.entry_type ≡ true
  pub first : exists (λ r. opt_eq r.reverses_entry_id (some target.id)) old ≡ false
  pub names : e.reverses_entry_id ≡ some target.id
  pub same_wallet : e.wallet_id ≡ target.wallet_id
  pub posted :
      IsPosted (opposite_direction target.direction) target.amount_minor operation old new e

post_reversal_ok :
    (r : Reversal) (t : LedgerEntry) (w : Wallet) (db db' : Db) (e : LedgerEntry)
    → post_reversal r t w (latest_entry w.id db.entries) db ≡ (ok e, db')
    → IsPosted (opposite_direction t.direction) t.amount_minor r.operation db.entries db'.entries e
      × (e.reverses_entry_id ≡ some t.id)
      × (e.wallet_id ≡ w.id)
unfolding post_reversal
post_reversal_ok r t w db db' e h = bind_then _ _ db h λ balance s1 lifted h1.
    bind_then _ _ s1 h1 λ k s2 drawn h2. bind_then _ _ s2 h2 λ saved s3 inserted h3.
      bind_then _ _ s3 h3 λ u s4 recorded h4.
        let (resulting, same1) = lift_ok _ balance db s1 lifted in
        let (row, same3) = saved_ok _ saved s2 s3 inserted in
        let (result, same5) = pure_ok saved e s4 db' h4 in
        let row_is = reversal_entry r t w (latest_entry w.id db.entries) balance k in
        let same : cleaned_entry row_is ≡ e = row ∙ result in
        (
          IsPosted-of row_is e db.entries db'.entries resulting
              (entries_lem (ap (λ d. d.entries) same1) (fresh_ok s1 s2 k drawn) same3
                (record_event_ok _ _ _ _ s3 s4 u recorded) (ap (λ d. d.entries) same5))
              same,
          sym (ap (λ x. x.reverses_entry_id) same),
          sym (ap (λ x. x.wallet_id) same),
        )

its_id :
    (k : ℕ) (t : LedgerEntry) (entries : List LedgerEntry)
    → find (has_id k) entries ≡ some t
    → some t.id ≡ some k
its_id k t entries found = ground (arith, find_sound (has_id k) entries t found)

module _ (r : Reversal) (t : LedgerEntry) (db : Db) where
  some_existing :
      (e : LedgerEntry)
      → existing_reversal r t db ≡ ok (some e)
      → (find (λ e. e.operation_id == r.operation) db.entries ≡ some e)
        × (e.reverses_entry_id ≡ some t.id)
  unfolding existing_reversal
  some_existing e h = elim (Option-cases (find (λ e. e.operation_id == r.operation) db.entries)) [
    | inl free ↦ absurd (ground (arith, free))
    | inr (other, found) ↦ elim (Bool-cases (same_reversal r t other)) [
      | inl same ↦
          let it : other ≡ e = ground (arith, found, same) in
          let names : opt_eq other.reverses_entry_id (some t.id) ≡ true = ground (arith, same) in
          (found ∙ ap some it, sym (ap (λ x. x.reverses_entry_id) it) ∙ opt_eq-some names)
      | inr differs ↦ absurd (ground (arith, found, differs))
    ]
  ]

  -- The answer is an entry that was there, or the reversal of the target.
  check_target_ok :
      (w : Wallet) (db' : Db) (e : LedgerEntry)
      → t.wallet_id ≡ w.id
      → find (has_id r.entry) db.entries ≡ some t
      → check_target r t w (latest_entry w.id db.entries) db ≡ (ok e, db')
      → ((db ≡ db')
          × (find (λ e. e.operation_id == r.operation) db.entries ≡ some e)
          × (e.reverses_entry_id ≡ some r.entry))
        ⊎ IsReversed r.entry r.operation db.entries db'.entries e
  unfolding check_target
  check_target_ok w db' e owner found h = bind_then _ _ db h λ existing s1 asked h1.
      let (tested, same1) = ask_ok _ existing db s1 asked in
      elim (reuse_ok existing _ s1 h1) [
        | inl (again, same) ↦
            let (there, names) = some_existing e (tested ∙ ap ok again) in
            inl (same1 ∙ same, there, names ∙ its_id r.entry t db.entries found)
        | inr (new_one, ran) ↦
            let (_, h2) = refuse_ok _ _ _ s1 ran in
            let (is_not, h3) = refuse_ok _ _ _ s1 h2 in
            bind_then _ _ s1 h3 λ reversed s2 queried h4.
              let (is_so, same2) = gets_ok _ reversed s1 s2 queried in
              let (first, h5) = refuse_ok _ _ _ s2 h4 in
              let run : post_reversal r t w (latest_entry w.id db.entries) db ≡ (ok e, db') =
                ap (post_reversal r t w (latest_entry w.id db.entries)) (same1 ∙ same2) ∙ h5 in
              let (posted, names, wallet) = post_reversal_ok r t w db db' e run in
              inr record {
                target = t;
                found = found;
                manual = ground (arith, is_not);
                first = ap (is_reversed t) same1 ∙ is_so ∙ first;
                names = names;
                same_wallet = wallet ∙ sym owner;
                posted = posted;
              }
      ]

module _ (r : Reversal) (db db' : Db) (e : LedgerEntry) where
  reverse_locked_ok :
      (lookup : LedgerEntry)
      → reverse_locked r lookup db ≡ (ok e, db')
      → ((db ≡ db')
          × (find (λ e. e.operation_id == r.operation) db.entries ≡ some e)
          × (e.reverses_entry_id ≡ some r.entry))
        ⊎ IsReversed r.entry r.operation db.entries db'.entries e
  unfolding reverse_locked lock_wallet lock_subscriber
  reverse_locked_ok lookup h = bind_then _ _ db h λ found s1 first h1.
      bind_then _ _ s1 h1 λ locked s2 second h2. bind_then _ _ s2 h2 λ w s3 third h3.
        bind_then _ _ s3 h3 λ latest s4 queried h4. bind_then _ _ s4 h4 λ t s5 targeted h5.
          let to3 : db ≡ s3 =
            (require_ok _ _ found db s1 first).1
            ∙ (require_ok _ _ locked s1 s2 second).1
            ∙ (require_ok _ _ w s2 s3 third).1 in
          let (top, same4) = gets_ok _ latest s3 s4 queried in
          let (here, same5) = require_ok _ _ t s4 s5 targeted in
          let (owner, ran) = refuse_ok _ _ _ s5 h5 in
          let latest_is : latest_entry w.id db.entries ≡ latest =
            ap (λ d. latest_entry w.id d.entries) to3 ∙ top in
          let is_there : find (has_id r.entry) db.entries ≡ some t =
            ap (λ d. find (has_id r.entry) d.entries) (to3 ∙ same4) ∙ here in
          let run = ap (check_target r t w latest) (to3 ∙ same4 ∙ same5) ∙ ran in
          check_target_ok r t db w db' e (ground (arith, owner)) is_there
            (ap (λ l. check_target r t w l db) latest_is ∙ run)

  reverse_entry_ok :
      reverse_entry r db ≡ (ok e, db')
      → ((db ≡ db')
          × (find (λ e. e.operation_id == r.operation) db.entries ≡ some e)
          × (e.reverses_entry_id ≡ some r.entry))
        ⊎ IsReversed r.entry r.operation db.entries db'.entries e
  unfolding reverse_entry
  reverse_entry_ok h = bind_then _ _ db h λ lookup s1 found h1.
      bind_then _ _ s1 h1 λ existing s2 asked h2.
        let (here, same1) = require_ok _ _ lookup db s1 found in
        let (tested, same2) = ask_ok _ existing s1 s2 asked in
        let before : existing_reversal r lookup db ≡ ok existing =
          ap (existing_reversal r lookup) same1 ∙ tested in
        elim (reuse_ok existing _ s2 h2) [
          | inl (again, same) ↦
              let (there, names) = some_existing r lookup db e (before ∙ ap ok again) in
              inl (same1 ∙ same2 ∙ same, there, names ∙ its_id r.entry lookup db.entries here)
          | inr (new_one, ran) ↦
              reverse_locked_ok lookup (ap (reverse_locked r lookup) (same1 ∙ same2) ∙ ran)
        ]

-- What a reversal that returns has done. Its operation ID was used before, and the answer is the
-- entry that has it, a reversal of the given entry, with the database unchanged; or there is one new entry under that ID, which
-- names the given entry, a manual one that no other entry had reversed, and moves the balance of the
-- same wallet by the same amount in the other direction, not below zero and at most to the maximum.
pub reverse_ledger_entry_ok :
    (entry : ℕ) (operation_id : RawId) (reason : Text) (actor : Option Actor) (db db' : Db)
    (e : LedgerEntry)
    → reverse_ledger_entry entry operation_id reason actor db ≡ (ok e, db')
    → (k : ℕ) × (normalize_operation_id operation_id ≡ ok k)
      × (((db ≡ db')
            × (find (λ e. e.operation_id == k) db.entries ≡ some e)
            × (e.reverses_entry_id ≡ some entry))
          ⊎ IsReversed entry k db.entries db'.entries e)
unfolding reverse_ledger_entry
reverse_ledger_entry_ok entry operation_id reason actor db db' e h =
    bind_then _ _ db (atomic_ok _ db h) λ operator s1 allowed h1.
      bind_then _ _ s1 h1 λ text s2 reasoned h2. bind_then _ _ s2 h2 λ k s3 named h3.
        let (is_k, same3) = lift_ok _ k s2 s3 named in
        let same : db ≡ s3 =
          (lift_ok _ operator db s1 allowed).1 ∙ (lift_ok _ text s1 s2 reasoned).1 ∙ same3 in
        let r : Reversal = record {
          entry = entry;
          operation = k;
          reason = text;
          actor = operator.id;
        } in
        (k, is_k, reverse_entry_ok r db db' e (ap (reverse_entry r) same ∙ h3))
