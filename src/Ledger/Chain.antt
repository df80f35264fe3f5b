-- ===== src/Ledger/Chain.antt =====
-- The wallet ledger as a chain: what every row that `LedgerEntry.save` accepts owes to the rows
-- before it.
use supersurf_billing_phase.Common.{
  ℕ, ◌+◌, ◌≤◌, ◌<◌, ◌≡◌, sym, ◌⊎◌, inl, inr, Bool, true, ◌&&◌, Option, none, some, List, [], ◌∷◌,
  ◌==◌, if◌then◌else◌, find, exists, Bool-cases, Option-cases, arith,
}
use supersurf_billing_phase.Schema.Choices.{Direction}
use supersurf_billing_phase.Schema.Rows.{LedgerEntry}
use supersurf_billing_phase.Money.{max_money_minor}
use supersurf_billing_phase.Ledger.Clean.{has_id, balance_of}
use supersurf_billing_phase.Ledger.Save.{latest_entry, next_sequence}

-- The balance `before` and an amount give the balance `after`.
abbrev pub Moves : Direction → ℕ → ℕ → ℕ → Type 0
Moves Direction.credit before amount after = after ≡ before + amount
Moves Direction.debit before amount after = before ≡ after + amount

abbrev pub id_of : Option LedgerEntry → Option ℕ
id_of none = none
id_of (some e) = some e.id

-- An entry that follows the latest entry of its wallet.
pub record Follows (previous : Option LedgerEntry) (e : LedgerEntry) : Type 0 where
  pub positive : 1 ≤ e.amount_minor
  pub bounded : e.balance_after_minor ≤ max_money_minor
  pub numbered : e.sequence_number ≡ next_sequence previous
  pub linked : e.previous_entry_id ≡ id_of previous
  pub moved : Moves e.direction (balance_of previous) e.amount_minor e.balance_after_minor

-- Newest first, every entry follows the latest entry of its wallet among the older ones.
abbrev pub IsChain : List LedgerEntry → Type 0
IsChain [] = Unit
IsChain (e ∷ entries) = Follows (latest_entry e.wallet_id entries) e × IsChain entries

pub latest-head :
    (e : LedgerEntry) (entries : List LedgerEntry)
    → IsChain (e ∷ entries)
    → latest_entry e.wallet_id (e ∷ entries) ≡ some e
unfolding latest_entry
latest-head e entries h = elim (Option-cases (latest_entry e.wallet_id entries)) [
  | inl first ↦ ground arith
  | inr (m, found) ↦ ground (arith, h.0.numbered)
]

pub latest-cons :
    (w : ℕ) (e : LedgerEntry) (entries : List LedgerEntry)
    → IsChain (e ∷ entries)
    → latest_entry w (e ∷ entries) ≡ (if e.wallet_id == w then some e else latest_entry w entries)
latest-cons w e entries h = elim (Bool-cases (e.wallet_id == w)) [
  | inl same ↦ ground (arith, latest-head e entries h)
  | inr other ↦ unfold latest_entry in ground arith
]

-- A row of the table is the latest of its wallet or has a smaller number than that.
pub find-le-latest :
    (k : ℕ) (entries : List LedgerEntry) (q : LedgerEntry)
    → IsChain entries
    → find (has_id k) entries ≡ some q
    → (p : LedgerEntry) × (latest_entry q.wallet_id entries ≡ some p)
      × ((q ≡ p) ⊎ (q.sequence_number < p.sequence_number))
find-le-latest k [] q h found = cc
find-le-latest k (e ∷ entries) q h found = elim (Bool-cases (e.id == k)) [
  | inl hit ↦
      let same : e ≡ q = ground arith in
      (e, ground (arith, same, latest-head e entries h), inl (sym same))
  | inr miss ↦
      let (p, latest, order) = find-le-latest k entries q h.1 (ground arith) in
      elim (Bool-cases (e.wallet_id == q.wallet_id)) [
        | inl same ↦ (
          e,
          ground (arith, latest-cons q.wallet_id e entries h),
          inr (ground (arith, latest, order, h.0.numbered)),
        )
        | inr other ↦ (p, ground (arith, latest-cons q.wallet_id e entries h, latest), order)
      ]
]

abbrev pub taken : ℕ → ℕ → List LedgerEntry → Bool
taken w n entries = exists (λ r. r.wallet_id == w && r.sequence_number == n) entries

-- The numbers of a wallet's entries run from 1 to the latest without a gap.
pub taken-of-le :
    (w n : ℕ) (entries : List LedgerEntry) (p : LedgerEntry)
    → IsChain entries
    → latest_entry w entries ≡ some p
    → 1 ≤ n
    → n ≤ p.sequence_number
    → taken w n entries ≡ true
taken-of-le w n [] p h found lo hi = unfold latest_entry in cc
taken-of-le w n (e ∷ entries) p h found lo hi = elim (Option-cases (latest_entry w entries)) [
  | inl first ↦ ground (arith, latest-cons w e entries h, h.0.numbered)
  | inr (m, latest) ↦
      ground
        (arith, latest-cons w e entries h, h.0.numbered, taken-of-le w n entries m h.1 latest lo)
]

pub latest_positive :
    (w : ℕ) (entries : List LedgerEntry) (p : LedgerEntry)
    → IsChain entries
    → latest_entry w entries ≡ some p
    → 1 ≤ p.sequence_number
latest_positive w [] p h found = unfold latest_entry in cc
latest_positive w (e ∷ entries) p h found = elim (Option-cases (latest_entry e.wallet_id entries)) [
  | inl first ↦
      ground
        (arith, latest-cons w e entries h, h.0.numbered, first, latest_positive w entries p h.1)
  | inr (m, latest) ↦
      ground
        (arith, latest-cons w e entries h, h.0.numbered, latest, latest_positive w entries p h.1)
]
