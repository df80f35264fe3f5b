-- ===== src/Exec/Keeps.antt =====
-- Invariants of actions: one rule for each way in which an action is built.
use supersurf_billing_phase.Common.{Option, none, some, Bool, true, false, if◌then◌else◌}
use supersurf_billing_phase.Exec.{
  rollback, continue, Result, ok, err, Exec, pure, raise, lift, gets, ask, require, reuse, refuse,
  write, atomic, ◌>>=◌,
}

-- Run from a state with `P`, the action leaves a state with `P`, also where it raises.
pub record Keeps {ℓ} {S E A : Type ℓ} (P : S → Type ℓ) (action : Exec S E A) : Type ℓ where
  pub at : (state : S) → P state → P (action state).1

rollback-keeps {ℓ} :
    {S E A : Type ℓ} (P : S → Type ℓ) (s : S) (x : Result E A × S)
    → P s
    → P x.1
    → P (rollback s x).1
rollback-keeps P s (ok a, s') h k = k
rollback-keeps P s (err e, s') h k = h

continue-keeps {ℓ} :
    {S E A B : Type ℓ} (P : S → Type ℓ) (r : Result E A) (f : A → Exec S E B) (s : S)
    → ((a : A) → Keeps P (f a))
    → P s
    → P (continue r f s).1
continue-keeps P (ok a) f s kf h = (kf a).at s h
continue-keeps P (err e) f s kf h = h

module _ {ℓ} {S E A : Type ℓ} {P : S → Type ℓ} where
  -- An action that reads the state and does not write it.
  Keeps-read : (answer : S → Result E A) → Keeps P (λ state. (answer state, state))
  Keeps-read answer = record { at = λ _ kept. kept }

  pub Keeps-require : (query : S → Option A) (missing : E) → Keeps P (require query missing)
  unfolding require
  Keeps-require query missing = Keeps-read _

  pub Keeps-ask : (query : S → Result E A) → Keeps P (ask query)
  unfolding ask
  Keeps-ask query = Keeps-read query

  pub Keeps-gets : (query : S → A) → Keeps P (gets {E = E} query)
  unfolding gets
  Keeps-gets query = Keeps-read (λ state. ok (query state))

  pub Keeps-lift : (result : Result E A) → Keeps P (lift result)
  unfolding lift
  Keeps-lift result = Keeps-read (λ _. result)

  pub Keeps-raise : (error : E) → Keeps P (raise {A = A} error)
  unfolding raise
  Keeps-raise error = Keeps-read (λ _. err error)

  pub Keeps-pure : (answer : A) → Keeps P (pure {E = E} answer)
  unfolding pure
  Keeps-pure answer = Keeps-read (λ _. ok answer)

  pub Keeps-reuse : (o : Option A) (k : Exec S E A) → Keeps P k → Keeps P (reuse o k)
  unfolding reuse
  Keeps-reuse none k kk = record { at = kk.at }
  Keeps-reuse (some a) k kk = record { at = λ s h. h }

  pub Keeps-refuse : (b : Bool) (e : E) (k : Exec S E A) → Keeps P k → Keeps P (refuse b e k)
  unfolding refuse
  Keeps-refuse true e k kk = record { at = λ s h. h }
  Keeps-refuse false e k kk = record { at = kk.at }

  pub Keeps-if :
      (b : Bool) (m n : Exec S E A) → Keeps P m → Keeps P n → Keeps P (if b then m else n)
  Keeps-if true m n km kn = km
  Keeps-if false m n km kn = kn

  pub Keeps-write : (f : S → S) (a : A) → ((s : S) → P s → P (f s)) → Keeps P (write {E = E} f a)
  unfolding write
  Keeps-write f a step = record { at = step }

  pub Keeps-atomic : (m : Exec S E A) → Keeps P m → Keeps P (atomic m)
  unfolding atomic
  Keeps-atomic m km = record { at = λ s h. rollback-keeps P s (m s) h (km.at s h) }

module _ {ℓ} {S E A B : Type ℓ} {P : S → Type ℓ} where
  pub Keeps-bind :
      (first : Exec S E A) (rest : A → Exec S E B)
      → ((answer : A) → Keeps P (rest answer))
      → Keeps P first
      → Keeps P (first >>= rest)
  unfolding ◌>>=◌
  Keeps-bind first rest kept_after kept = record {
    at = λ state h.
        continue-keeps P (first state).0 rest (first state).1 kept_after (kept.at state h);
  }

pub ruleset keeps_rules = (
  Keeps-if, Keeps-bind, Keeps-atomic, Keeps-refuse, Keeps-reuse, Keeps-require, Keeps-ask,
  Keeps-gets, Keeps-lift, Keeps-raise, Keeps-pure,
)
