-- ===== src/Ledger/Balance.antt =====
-- `_ledger_resulting_balance` against the arithmetic that it stands for.
use supersurf_billing_phase.Common.{ℕ, ◌+◌, ◌-◌, ◌≤◌, ◌≡◌, ◌↔◌, inl, inr, ltb, Bool-cases, arith}
use supersurf_billing_phase.Exec.{ok}
use supersurf_billing_phase.Schema.Choices.{Direction}
use supersurf_billing_phase.Money.{max_money_minor}
use supersurf_billing_phase.Ledger.Save.{below_max, resulting_balance}
use supersurf_billing_phase.Ledger.Chain.{Moves}

below_max_ok : (n r : ℕ) → below_max n ≡ ok r → (n ≡ r) × (r ≤ max_money_minor)
below_max_ok n r h = elim (Bool-cases (ltb max_money_minor n)) [
  | inl big ↦ ground arith
  | inr small ↦ ground arith
]

below_max_of : (n : ℕ) → n ≤ max_money_minor → below_max n ≡ ok n
below_max_of n le = ground arith

ok_moves :
    (balance : ℕ) (d : Direction) (amount r : ℕ)
    → resulting_balance balance d amount ≡ ok r
    → Moves d balance amount r × (r ≤ max_money_minor)
unfolding resulting_balance
ok_moves balance Direction.credit amount r h =
    let (e, le) = below_max_ok (balance + amount) r h in (omega arith, le)
ok_moves balance Direction.debit amount r h = elim (Bool-cases (ltb balance amount)) [
  | inl short ↦ absurd (ground arith)
  | inr enough ↦
      let (e, le) = below_max_ok (balance - amount) r (ground arith) in (ground arith, le)
]

moves_ok :
    (balance : ℕ) (d : Direction) (amount r : ℕ)
    → Moves d balance amount r × (r ≤ max_money_minor)
    → resulting_balance balance d amount ≡ ok r
unfolding resulting_balance
moves_ok balance Direction.credit amount r (m, le) =
    let e : balance + amount ≡ r = omega arith in rw e (below_max_of r le)
moves_ok balance Direction.debit amount r (m, le) = ground arith

-- The resulting balance is `r` exactly when the amount moves the balance to `r`, without going
-- below zero, and `r` is at most the maximum; in every other case the call raises.
pub resulting_balance_iff :
    (balance : ℕ) (d : Direction) (amount r : ℕ)
    → (resulting_balance balance d amount ≡ ok r)
      ↔ (Moves d balance amount r × (r ≤ max_money_minor))
resulting_balance_iff balance d amount r =
    (ok_moves balance d amount r, moves_ok balance d amount r)
