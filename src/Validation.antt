-- ===== src/Validation.antt =====
-- How `full_clean` collects complaints: every failed test of the columns and the constraints, and
-- the first failed test of `clean`, which raises at once.
use supersurf_billing_phase.Common.{
  Bool, true, false, ◌≡◌, refl, List, [], ◌∷◌, ◌++◌, if◌then◌else◌,
}
use supersurf_billing_phase.Errors.{Issue}

-- Tests that must all be false, each with what it complains of.
abbrev pub Checks : Type 0
Checks = List (Bool × Issue)

unfoldable pub complaints : Checks → List Issue
complaints [] = []
complaints ((bad, issue) ∷ checks) = if bad then issue ∷ complaints checks else complaints checks

unfoldable pub first_complaint : Checks → List Issue
first_complaint [] = []
first_complaint ((bad, issue) ∷ checks) = if bad then issue ∷ [] else first_complaint checks

-- No test of the list is true.
abbrev pub Passes : Checks → Type 0
Passes [] = Unit
Passes ((bad, issue) ∷ checks) = (bad ≡ false) × Passes checks

pub complaints-Passes : (checks : Checks) → complaints checks ≡ [] → Passes checks
unfolding complaints
complaints-Passes [] h = tt
complaints-Passes ((true, issue) ∷ checks) h = cc
complaints-Passes ((false, issue) ∷ checks) h = (refl, complaints-Passes checks h)

pub first_complaint-Passes : (checks : Checks) → first_complaint checks ≡ [] → Passes checks
unfolding first_complaint
first_complaint-Passes [] h = tt
first_complaint-Passes ((true, issue) ∷ checks) h = cc
first_complaint-Passes ((false, issue) ∷ checks) h = (refl, first_complaint-Passes checks h)

pub append-eq-nil {ℓ} : {A : Type ℓ} (xs ys : List A) → xs ++ ys ≡ [] → (xs ≡ []) × (ys ≡ [])
append-eq-nil [] ys h = (refl, h)
append-eq-nil (x ∷ xs) ys h = cc

-- The shape of `full_clean`: columns, `clean`, unique columns, constraints.
unfoldable pub collect : Checks → Checks → Checks → List Issue
collect columns cleaning uniques =
    complaints columns ++ (first_complaint cleaning ++ complaints uniques)

pub collect-Passes :
    (columns cleaning uniques : Checks)
    → collect columns cleaning uniques ≡ []
    → Passes columns × Passes cleaning × Passes uniques
unfolding collect
collect-Passes columns cleaning uniques h =
    let (a, rest) =
      append-eq-nil (complaints columns) (first_complaint cleaning ++ complaints uniques) h in
    let (b, c) = append-eq-nil (first_complaint cleaning) (complaints uniques) rest in
    (complaints-Passes columns a, first_complaint-Passes cleaning b, complaints-Passes uniques c)
