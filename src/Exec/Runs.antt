-- ===== src/Exec/Runs.antt =====
-- What a successful run of an action has gone through, and what `atomic` makes of a run.
use supersurf_billing_phase.Common.{
  Option, none, some, Bool, true, false, ◌≡◌, refl, ap, ◌⊎◌, inl, inr, Option-cases, arith,
}
use supersurf_billing_phase.Exec.{
  Result, ok, err, Exec, rollback, continue, pure, raise, lift, gets, ask, require, reuse, refuse,
  atomic, ◌>>=◌,
}

module _ {ℓ} {S E A B : Type ℓ} where
  continue_ok :
      (r : Result E A) (f : A → Exec S E B) (s1 : S) {b : B} {s2 : S}
      → continue r f s1 ≡ (ok b, s2)
      → (a : A) × (r ≡ ok a) × (f a s1 ≡ (ok b, s2))
  continue_ok (ok a) f s1 h = (a, refl, h)
  continue_ok (err e) f s1 h = cc

  -- A block that returned went through its first action, and then through the rest.
  pub bind_ok :
      (m : Exec S E A) (f : A → Exec S E B) (s : S) {b : B} {s2 : S}
      → (m >>= f) s ≡ (ok b, s2)
      → (a : A) × (s1 : S) × (m s ≡ (ok a, s1)) × (f a s1 ≡ (ok b, s2))
  unfolding ◌>>=◌
  bind_ok m f s h =
      let (r, s1) = m s in let (a, e, k) = continue_ok r f s1 h in (a, s1, (λ i. (e i, s1)), k)

  continue_err :
      (r : Result E A) (f : A → Exec S E B) (s1 : S) {e : E} {s2 : S}
      → continue r f s1 ≡ (err e, s2)
      → ((r ≡ err e) × (s1 ≡ s2)) ⊎ ((a : A) × (r ≡ ok a) × (f a s1 ≡ (err e, s2)))
  continue_err (ok a) f s1 h = inr (a, refl, h)
  continue_err (err e) f s1 h = inl (cc, cc)

  -- A block that raised did so in its first action, or in the rest.
  pub bind_err :
      (m : Exec S E A) (f : A → Exec S E B) (s : S) {e : E} {s2 : S}
      → (m >>= f) s ≡ (err e, s2)
      → (m s ≡ (err e, s2)) ⊎ ((a : A) × (s1 : S) × (m s ≡ (ok a, s1)) × (f a s1 ≡ (err e, s2)))
  unfolding ◌>>=◌
  bind_err m f s h =
      let (r, s1) = m s in
      elim (continue_err r f s1 h) [
        | inl (raised, same) ↦ inl λ i. (raised i, same i)
        | inr (a, e, k) ↦ inr (a, s1, (λ i. (e i, s1)), k)
      ]

  pub bind_run :
      (m : Exec S E A) (f : A → Exec S E B) (s : S) {a : A} {s1 : S}
      → m s ≡ (ok a, s1)
      → (m >>= f) s ≡ f a s1
  unfolding ◌>>=◌
  bind_run m f s h = rw h

module _ {ℓ} {S E A : Type ℓ} where
  rollback_ok :
      (s : S) (x : Result E A × S) {a : A} {s' : S} → rollback s x ≡ (ok a, s') → x ≡ (ok a, s')
  rollback_ok s (ok a, s1) h = h
  rollback_ok s (err e, s1) h = cc

  rollback_err :
      (s : S) (x : Result E A × S) {e : E} → (rollback s x).0 ≡ err e → (rollback s x).1 ≡ s
  rollback_err s (ok a, s1) h = cc
  rollback_err s (err e, s1) h = refl

  pub atomic_ok :
      (m : Exec S E A) (s : S) {a : A} {s' : S} → atomic m s ≡ (ok a, s') → m s ≡ (ok a, s')
  unfolding atomic
  atomic_ok m s h = rollback_ok s (m s) h

  pub atomic_run :
      (m : Exec S E A) (s : S) {a : A} {s' : S} → m s ≡ (ok a, s') → atomic m s ≡ (ok a, s')
  unfolding atomic
  atomic_run m s h = rw h

  -- A transaction that raises leaves the database as it found it.
  pub atomic_err : (m : Exec S E A) (s : S) {e : E} → (atomic m s).0 ≡ err e → (atomic m s).1 ≡ s
  unfolding atomic
  atomic_err m s h = rollback_err s (m s) h

  pub refuse_ok :
      (b : Bool) (e : E) (k : Exec S E A) (s : S) {a : A} {s' : S}
      → refuse b e k s ≡ (ok a, s')
      → (b ≡ false) × (k s ≡ (ok a, s'))
  unfolding refuse
  refuse_ok true e k s h = cc
  refuse_ok false e k s h = (refl, h)

  pub reuse_ok :
      (o : Option A) (k : Exec S E A) (s : S) {a : A} {s' : S}
      → reuse o k s ≡ (ok a, s')
      → ((o ≡ some a) × (s ≡ s')) ⊎ ((o ≡ none) × (k s ≡ (ok a, s')))
  unfolding reuse
  reuse_ok none k s h = inr (refl, h)
  reuse_ok (some x) k s h = inl (cc, cc)

pub Result-cases {ℓ} :
    {E A : Type ℓ} (r : Result E A) → ((e : E) × (r ≡ err e)) ⊎ ((a : A) × (r ≡ ok a))
Result-cases (ok a) = inr (a, refl)
Result-cases (err e) = inl (e, refl)

module _ {ℓ} {S E A : Type ℓ} where
  pub pure_ok : (a b : A) (s s' : S) → pure {E = E} a s ≡ (ok b, s') → (a ≡ b) × (s ≡ s')
  unfolding pure
  pure_ok a b s s' h = (cc, cc)

  pub raise_ok : {C : Type ℓ} (e : E) (a : A) (s s' : S) → raise e s ≡ (ok a, s') → C
  unfolding raise
  raise_ok e a s s' h = cc

  pub lift_ok : (r : Result E A) (a : A) (s s' : S) → lift r s ≡ (ok a, s') → (r ≡ ok a) × (s ≡ s')
  unfolding lift
  lift_ok r a s s' h = (ap (λ x. x.0) h, ap (λ x. x.1) h)

  pub gets_ok :
      (f : S → A) (a : A) (s s' : S) → gets {E = E} f s ≡ (ok a, s') → (f s ≡ a) × (s ≡ s')
  unfolding gets
  gets_ok f a s s' h = (cc, cc)

  pub require_ok :
      (f : S → Option A) (e : E) (a : A) (s s' : S)
      → require f e s ≡ (ok a, s')
      → (f s ≡ some a) × (s ≡ s')
  unfolding require
  require_ok f e a s s' h = elim (Option-cases (f s)) [
    | inl gone ↦ absurd (ground (arith, gone))
    | inr (b, found) ↦ (ground (arith, found), ap (λ x. x.1) h)
  ]

  pub ask_ok :
      (f : S → Result E A) (a : A) (s s' : S) → ask f s ≡ (ok a, s') → (f s ≡ ok a) × (s ≡ s')
  unfolding ask
  ask_ok f a s s' h = (ap (λ x. x.0) h, ap (λ x. x.1) h)

module _ {ℓ} {S E A B C : Type ℓ} where
  -- What follows from the two runs of a block that returned.
  pub bind_then :
      (m : Exec S E A) (f : A → Exec S E B) (s : S) {b : B} {s2 : S}
      → (m >>= f) s ≡ (ok b, s2)
      → ((a : A) (s1 : S) → m s ≡ (ok a, s1) → f a s1 ≡ (ok b, s2) → C)
      → C
  bind_then m f s h k = let (a, s1, first, rest) = bind_ok m f s h in k a s1 first rest

-- Steps that return.
module _ {ℓ} {S E A : Type ℓ} where
  pub lift_run : (r : Result E A) (a : A) (s : S) → r ≡ ok a → lift r s ≡ (ok a, s)
  unfolding lift
  lift_run r a s h = rw h

  pub refuse_run : (b : Bool) (e : E) (k : Exec S E A) (s : S) → b ≡ false → refuse b e k s ≡ k s
  unfolding refuse
  refuse_run b e k s h = rw h refl

  pub pure_run : (a : A) (s : S) → pure {E = E} a s ≡ (ok a, s)
  unfolding pure
  pure_run a s = refl

  pub gets_run : (f : S → A) (s : S) → gets {E = E} f s ≡ (ok (f s), s)
  unfolding gets
  gets_run f s = refl

  pub require_run :
      (f : S → Option A) (e : E) (a : A) (s : S) → f s ≡ some a → require f e s ≡ (ok a, s)
  unfolding require
  require_run f e a s h = rw h refl

  pub ask_run : (f : S → Result E A) (a : A) (s : S) → f s ≡ ok a → ask f s ≡ (ok a, s)
  unfolding ask
  ask_run f a s h = rw h

  pub reuse_run : (a : A) (k : Exec S E A) (s : S) → reuse (some a) k s ≡ (ok a, s)
  unfolding reuse
  reuse_run a k s = refl
