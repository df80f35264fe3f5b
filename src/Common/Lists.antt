-- ===== src/Common/Lists.antt =====
-- Rows of a table: the queries that the code makes of one, and lemmas on lists.
use Prim.Native.Nat.{ℕ, suc, ◌+◌}
use mathlib.Core.Path.{◌≡◌, refl, subst}
use mathlib.Core.Bool.{Bool, true, false, ◌||◌}
use mathlib.Core.Option.{Option, none, some}
use mathlib.Core.Logic.{◌⊎◌, inl, inr}
use mathlib.Core.List.{List, [], ◌∷◌, ◌++◌}
use native.Mathlib.Omega.{arith}
use supersurf_billing_phase.Common.Tests.{Bool-cases, ◌==◌, if◌then◌else◌}

module _ {ℓ} {A : Type ℓ} where
  abbrev pub length : List A → ℕ
  length [] = 0
  length (x ∷ xs) = suc (length xs)

  -- `.filter(test).first()`
  abbrev pub find : (A → Bool) → List A → Option A
  find test [] = none
  find test (x ∷ xs) = if test x then some x else find test xs

  -- `.filter(test).exists()`
  abbrev pub exists : (A → Bool) → List A → Bool
  exists test [] = false
  exists test (x ∷ xs) = test x || exists test xs

  -- `UPDATE ... WHERE test`
  abbrev pub update : (A → Bool) → (A → A) → List A → List A
  update test change [] = []
  update test change (x ∷ xs) = (if test x then change x else x) ∷ update test change xs

  abbrev pub All {κ} : (A → Type κ) → List A → Type κ
  All P [] = Unit
  All P (x ∷ xs) = P x × All P xs

  pub length-append : (xs ys : List A) → length (xs ++ ys) ≡ length xs + length ys
  length-append [] ys = omega arith
  length-append (x ∷ xs) ys = omega (arith, length-append xs ys)

  -- What a query finds passes its test.
  pub find_sound : (test : A → Bool) (xs : List A) (x : A) → find test xs ≡ some x → test x ≡ true
  find_sound test [] x h = cc
  find_sound test (y ∷ xs) x h = ground (arith, find_sound test xs x)

  pub find-exists : (test : A → Bool) (xs : List A) → exists test xs ≡ false → find test xs ≡ none
  find-exists test [] h = refl
  find-exists test (y ∷ xs) h = ground (arith, find-exists test xs)

  pub find_All {κ} :
      (P : A → Type κ) (test : A → Bool) (xs : List A) (x : A)
      → All P xs
      → find test xs ≡ some x
      → P x
  find_All P test [] x all h = cc
  find_All P test (y ∷ xs) x all h = elim (Bool-cases (test y)) [
    | inl hit ↦ let e : y ≡ x = ground arith in subst P e all.0
    | inr miss ↦ find_All P test xs x all.1 (ground arith)
  ]

module _ {A : Type 0} where
  -- The row is in the table.
  abbrev pub IsIn : A → List A → Type 0
  IsIn x [] = ⊥
  IsIn x (y ∷ xs) = (y ≡ x) ⊎ IsIn x xs

  pub find_IsIn : (test : A → Bool) (xs : List A) (x : A) → find test xs ≡ some x → IsIn x xs
  find_IsIn test [] x h = cc
  find_IsIn test (y ∷ xs) x h = elim (Bool-cases (test y)) [
    | inl hit ↦ inl (ground (arith, hit))
    | inr miss ↦ inr (find_IsIn test xs x (ground (arith, miss)))
  ]

pub All-map {ℓ κ μ} :
    {A : Type ℓ} (P : A → Type κ) (Q : A → Type μ) (xs : List A)
    → ((x : A) → P x → Q x)
    → All P xs
    → All Q xs
All-map P Q [] step h = tt
All-map P Q (x ∷ xs) step h = (step x h.0, All-map P Q xs step h.1)

-- No two rows of a table have the same key.
module _ {ℓ} {A : Type ℓ} (key : A → ℕ) where
  abbrev pub Distinct : List A → Type 0
  Distinct [] = Unit
  Distinct (x ∷ xs) = (exists (λ y. key y == key x) xs ≡ false) × Distinct xs

  -- A row that some query finds is in the table.
  pub exists-find :
      (test : A → Bool) (xs : List A) (x : A)
      → find test xs ≡ some x
      → exists (λ y. key y == key x) xs ≡ true
  exists-find test [] x h = cc
  exists-find test (y ∷ xs) x h = ground (arith, exists-find test xs x)

  -- Of a table with distinct keys, the row that some query finds is found by its key.
  pub find-key :
      (test : A → Bool) (xs : List A) (x : A)
      → Distinct xs
      → find test xs ≡ some x
      → find (λ y. key y == key x) xs ≡ some x
  find-key test [] x d h = cc
  find-key test (y ∷ xs) x d h = elim (Bool-cases (test y)) [
    | inl hit ↦ ground arith
    | inr miss ↦
        let rest : find test xs ≡ some x = ground arith in
        ground (arith, d.0, exists-find test xs x rest, find-key test xs x d.1 rest)
  ]

  -- A row with a new key does not hide the row with another one.
  pub find-insert :
      (k : ℕ) (new : A) (xs : List A) (x : A)
      → exists (λ y. key y == key new) xs ≡ false
      → find (λ y. key y == k) xs ≡ some x
      → find (λ y. key y == k) (new ∷ xs) ≡ some x
  find-insert k new xs x free found =
      let at_k : (key x == k) ≡ true = find_sound (λ y. key y == k) xs x found in
      ground (arith, exists-find (λ y. key y == k) xs x found, at_k)
