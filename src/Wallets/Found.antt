-- ===== src/Wallets/Found.antt =====
-- What it means that `post_manual_wallet_adjustment` finds an entry of its operation ID, or none.
use supersurf_billing_phase.Common.{
  opt_eq, opt_eq-some, true, Bool-cases, ◌≡◌, sym, ap, ◌∙◌, inl, inr, none, some, ◌==◌, find,
  Option-cases, arith,
}
use supersurf_billing_phase.Exec.{ok}
use supersurf_billing_phase.Schema.Choices.{direction_eq, direction_eq-eq}
use supersurf_billing_phase.Schema.Rows.{LedgerEntry}
use supersurf_billing_phase.Schema.Database.{Db}
use supersurf_billing_phase.Service.Lookup.{wallet_subscriber}
use supersurf_billing_phase.Wallets.Adjust.{Adjustment, same_adjustment, existing_adjustment}

module _ (a : Adjustment) (db : Db) where
  pub none_existing :
      existing_adjustment a db ≡ ok none
      → find (λ e. e.operation_id == a.operation) db.entries ≡ none
  unfolding existing_adjustment
  none_existing h = elim (Option-cases (find (λ e. e.operation_id == a.operation) db.entries)) [
    | inl free ↦ free
    | inr (e, found) ↦ absurd (ground (arith, found))
  ]

  pub some_existing :
      (e : LedgerEntry)
      → existing_adjustment a db ≡ ok (some e)
      → (find (λ e. e.operation_id == a.operation) db.entries ≡ some e)
        × (same_adjustment db a e ≡ true)
  unfolding existing_adjustment
  some_existing e h = elim (Option-cases (find (λ e. e.operation_id == a.operation) db.entries)) [
    | inl free ↦ absurd (ground (arith, free))
    | inr (other, found) ↦ elim (Bool-cases (same_adjustment db a other)) [
      | inl same ↦
          let it : other ≡ e = ground (arith, found, same) in
          (found ∙ ap some it, ap (same_adjustment db a) (sym it) ∙ same)
      | inr differs ↦ absurd (ground (arith, found, differs))
    ]
  ]

  pub same_lem :
      (e : LedgerEntry)
      → same_adjustment db a e ≡ true
      → (e.direction ≡ a.direction)
        × (e.amount_minor ≡ a.amount)
        × (wallet_subscriber e.wallet_id db ≡ some a.subscriber)
  same_lem e h =
      let directions : direction_eq e.direction a.direction ≡ true = ground arith in
      let owner : opt_eq (wallet_subscriber e.wallet_id db) (some a.subscriber) ≡ true =
        ground arith in
      (direction_eq-eq e.direction a.direction directions, ground arith, opt_eq-some owner)
