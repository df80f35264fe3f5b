-- ===== src/Ledger/Accepted.antt =====
-- What `LedgerEntry.full_clean` guarantees of a row that it accepts, whoever built the row.
use supersurf_billing_phase.Common.{
  ◌==◌, ◌+◌, ◌≤◌, ◌≡◌, ◌∙◌, ◌⊎◌, inl, inr, true, false, none, some, List, [], opt_eq, find,
  find_sound, exists, Bool-cases, Option-cases, arith,
}
use supersurf_billing_phase.Schema.Choices.{EntryType, entry_type_eq, is_manual}
use supersurf_billing_phase.Schema.Rows.{LedgerEntry}
use supersurf_billing_phase.Schema.Database.{Db}
use supersurf_billing_phase.Money.{max_money_minor}
use supersurf_billing_phase.Validation.{Passes, collect-Passes}
use supersurf_billing_phase.Ledger.Clean.{
  has_id, entry_at, opposite_direction, field_checks, clean_checks, constraint_checks, full_clean,
}
use supersurf_billing_phase.Ledger.Save.{latest_entry}
use supersurf_billing_phase.Ledger.Chain.{
  IsChain, Follows, Moves, taken, find-le-latest, taken-of-le, latest_positive,
}

-- A reversal names a manual entry of its wallet, of the same amount in the other direction, that no
-- entry has reversed before.
pub record Reverses (entries : List LedgerEntry) (e : LedgerEntry) : Type 0 where
  pub target : LedgerEntry
  pub found : entry_at e.reverses_entry_id entries ≡ some target
  pub same_wallet : target.wallet_id ≡ e.wallet_id
  pub manual : is_manual target.entry_type ≡ true
  pub same_amount : e.amount_minor ≡ target.amount_minor
  pub opposite : e.direction ≡ opposite_direction target.direction
  pub first : exists (λ r. opt_eq r.reverses_entry_id (some target.id)) entries ≡ false

-- An entry reverses another exactly when its type says so.
abbrev pub IsSettled : List LedgerEntry → LedgerEntry → Type 0
IsSettled entries e =
    ((entry_type_eq e.entry_type EntryType.reversal ≡ false) × (e.reverses_entry_id ≡ none))
    ⊎ ((entry_type_eq e.entry_type EntryType.reversal ≡ true) × Reverses entries e)

module _ (db : Db) (e : LedgerEntry) (accepted : full_clean db e ≡ []) where
  passes : Passes (field_checks db e) × Passes (clean_checks db e) × Passes (constraint_checks db e)
  unfolding full_clean
  passes = collect-Passes (field_checks db e) (clean_checks db e) (constraint_checks db e) accepted

  -- The previous entry's row, its wallet and its number are as the entry says.
  previous_lem :
      (p : LedgerEntry)
      → entry_at e.previous_entry_id db.entries ≡ some p
      → (p.wallet_id ≡ e.wallet_id)
        × (p.sequence_number + 1 ≡ e.sequence_number)
        × Moves e.direction p.balance_after_minor e.amount_minor e.balance_after_minor
  previous_lem p found = ground (arith, passes)

  first_lem :
      e.previous_entry_id ≡ none
      → (e.sequence_number ≡ 1) × Moves e.direction 0 e.amount_minor e.balance_after_minor
  first_lem no_previous = ground (arith, passes)

  range_lem : (1 ≤ e.amount_minor) × (e.balance_after_minor ≤ max_money_minor)
  range_lem = ground (arith, passes)

  number_free : taken e.wallet_id e.sequence_number db.entries ≡ false
  number_free = passes.2.1.1.1.0

  -- The previous entry is missing, or its row is there.
  previous_cases :
      (e.previous_entry_id ≡ none)
      ⊎ ((p : LedgerEntry) × (entry_at e.previous_entry_id db.entries ≡ some p)
          × (e.previous_entry_id ≡ some p.id))
  previous_cases = elim (Option-cases e.previous_entry_id) [
    | inl missing ↦ inl missing
    | inr (k, named) ↦ elim (Option-cases (find (has_id k) db.entries)) [
      | inl gone ↦ absurd (ground (arith, passes, named, gone))
      | inr (p, found) ↦ inr (
        p,
        ground (arith, named, found),
        ground (arith, named, find_sound (has_id k) db.entries p found),
      )
    ]
  ]

  pub accepted-Follows : IsChain db.entries → Follows (latest_entry e.wallet_id db.entries) e
  accepted-Follows chain = elim (Option-cases (latest_entry e.wallet_id db.entries)) [
    | inl first ↦ elim previous_cases [
      | inl missing ↦ ground (arith, first_lem missing, range_lem)
      | inr (p, found, named) ↦
          let here : find (has_id p.id) db.entries ≡ some p = ground (arith, found, named) in
          let (m, latest, order) = find-le-latest p.id db.entries p chain here in
          absurd (ground (arith, first, latest, previous_lem p found))
    ]
    | inr (m, latest) ↦ elim previous_cases [
      | inl missing ↦ absurd (
          ground (
            arith,
            number_free,
            first_lem missing,
            latest_positive e.wallet_id db.entries m chain latest,
            taken-of-le e.wallet_id 1 db.entries m chain latest,
          ))
      | inr (p, found, named) ↦
          let here : find (has_id p.id) db.entries ≡ some p = ground (arith, found, named) in
          let (q, top, order) = find-le-latest p.id db.entries p chain here in
          let same : q ≡ m = ground (arith, top, latest, previous_lem p found) in
          elim order [
            | inl last ↦
                let p_is : p ≡ m = last ∙ same in
                ground (arith, p_is, latest, named, previous_lem p found, range_lem)
            | inr earlier ↦ absurd (
                ground (
                  arith,
                  same,
                  earlier,
                  number_free,
                  previous_lem p found,
                  taken-of-le e.wallet_id e.sequence_number db.entries m chain latest,
                ))
          ]
    ]
  ]

  target_lem : entry_type_eq e.entry_type EntryType.reversal ≡ true → Reverses db.entries e
  target_lem is = elim (Option-cases (entry_at e.reverses_entry_id db.entries)) [
    | inl gone ↦ absurd (ground (arith, passes))
    | inr (t, found) ↦ record {
      target = t;
      found = found;
      same_wallet = ground (arith, passes);
      manual = ground (arith, passes);
      same_amount = ground (arith, passes);
      opposite = ground (arith, passes);
      first = ground (arith, passes);
    }
  ]

  pub accepted-IsSettled : IsSettled db.entries e
  accepted-IsSettled = elim (Bool-cases (entry_type_eq e.entry_type EntryType.reversal)) [
    | inl yes_it_is ↦ inr (yes_it_is, target_lem yes_it_is)
    | inr other ↦ inl (other, ground (arith, passes))
  ]

  pub accepted-id : exists (λ r. r.id == e.id) db.entries ≡ false
  accepted-id = passes.2.1.0
