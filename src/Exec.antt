-- ===== src/Exec.antt =====
-- Service functions as actions on the database: what was written before a raise stays written until
-- `transaction.atomic` takes it back, so the state comes back beside the error too.
pub mod Keeps
pub mod Runs
use supersurf_billing_phase.Common.{Option, none, some, Bool, true, false}

pub data Result {ℓ} (E A : Type ℓ) : Type ℓ where
  ok : A → Result E A
  err : E → Result E A

-- An action on states `S` that returns an `A` or raises an `E`.
abbrev pub Exec {ℓ} : Type ℓ → Type ℓ → Type ℓ → Type ℓ
Exec S E A = S → Result E A × S

module _ {ℓ} {S E A : Type ℓ} where
  pub pure : A → Exec S E A
  pure a s = (ok a, s)

  pub raise : E → Exec S E A
  raise e s = (err e, s)

  pub lift : Result E A → Exec S E A
  lift r s = (r, s)

  pub gets : (S → A) → Exec S E A
  gets f s = (ok (f s), s)

  -- A query that may raise.
  pub ask : (S → Result E A) → Exec S E A
  ask f s = (f s, s)

  -- `.get(...)`: the row, or the exception for a missing one.
  pub require : (S → Option A) → E → Exec S E A
  require f e s = (elim (f s) [ none ↦ err e | some a ↦ ok a ], s)

  -- `if existing is not None: return existing`
  pub reuse : Option A → Exec S E A → Exec S E A
  reuse (some a) k s = (ok a, s)
  reuse none k s = k s

  -- `if test: raise error`, and then the rest.
  pub refuse : Bool → E → Exec S E A → Exec S E A
  refuse true e k s = (err e, s)
  refuse false e k s = k s

  -- A write, and its result.
  unfoldable pub write : (S → S) → A → Exec S E A
  write f a s = (ok a, f s)

  abbrev rollback : S → Result E A × S → Result E A × S
  rollback s (ok a, s') = (ok a, s')
  rollback s (err e, _) = (err e, s)

  -- `@transaction.atomic`
  unfoldable pub atomic : Exec S E A → Exec S E A
  atomic m s = rollback s (m s)

module _ {ℓ} {S E A B : Type ℓ} where
  abbrev continue : Result E A → (A → Exec S E B) → Exec S E B
  continue (ok a) f s = f a s
  continue (err e) f s = (err e, s)

  infixl 10 ◌>>=◌ ◌>>◌
  -- Opening this opens every way to build an action but `atomic`.
  unfoldable pub ◌>>=◌ : Exec S E A → (A → Exec S E B) → Exec S E B
  unfolding pure raise lift gets ask require reuse refuse write
  ◌>>=◌ m f s = let (r, s') = m s in continue r f s'

  abbrev pub ◌>>◌ : Exec S E A → Exec S E B → Exec S E B
  m >> n = m >>= λ _. n
