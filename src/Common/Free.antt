-- ===== src/Common/Free.antt =====
-- The search for the first number that no row of a table uses.
use Prim.Native.Nat.{ℕ, zero, suc, ◌+◌, ◌≤◌, ◌<◌}
use mathlib.Core.Path.{◌≡◌, refl, sym, ◌∙◌}
use mathlib.Core.Logic.{inl, inr}
use mathlib.Core.Bool.{Bool, true, false}
use mathlib.Core.Option.{Option, none, some}
use mathlib.Core.List.{List, [], ◌∷◌}
use native.Mathlib.Omega.{arith}
use supersurf_billing_phase.Common.Tests.{ltb, ◌==◌, if◌then◌else◌, Bool-cases}
use supersurf_billing_phase.Common.Lists.{exists, length}
use supersurf_billing_phase.Common.Texts.{Text, text_eq, text_eq-eq}

-- `while taken(n): n += 1`; with no fuel left, the number is not tested any more.
unfoldable pub first_free : (ℕ → Bool) → ℕ → ℕ → ℕ
first_free taken zero n = n
first_free taken (suc fuel) n =
    let rest = first_free taken fuel (suc n) in if taken n then rest else n

-- `while True`: the first number that is not taken; `none` if the fuel is used up before.
unfoldable pub first_untaken : (ℕ → Bool) → ℕ → ℕ → Option ℕ
first_untaken taken zero n = none
first_untaken taken (suc fuel) n =
    let rest = first_untaken taken fuel (suc n) in if taken n then rest else some n

first_untaken-first_free :
    (taken : ℕ → Bool) (fuel n : ℕ)
    → first_untaken taken (suc fuel) n
      ≡ (if taken (first_free taken fuel n) then none else some (first_free taken fuel n))
unfolding first_untaken first_free
first_untaken-first_free taken zero n = refl
first_untaken-first_free taken (suc fuel) n = elim (Bool-cases (taken n)) [
  | inl used ↦ rw used (first_untaken-first_free taken fuel (suc n))
  | inr free ↦ rw (free, free) refl
]

pub first_untaken_ok :
    (taken : ℕ → Bool) (fuel n k : ℕ)
    → first_untaken taken (suc fuel) n ≡ some k
    → first_free taken fuel n ≡ k
first_untaken_ok taken fuel n k h =
    let tested = sym (first_untaken-first_free taken fuel n) ∙ h in
    elim (Bool-cases (taken (first_free taken fuel n))) [
      | inl used ↦ absurd (ground (arith, used, tested))
      | inr free ↦ ground (arith, free, tested)
    ]

pub first_untaken-returns :
    (taken : ℕ → Bool) (fuel n : ℕ)
    → taken (first_free taken fuel n) ≡ false
    → first_untaken taken (suc fuel) n ≡ some (first_free taken fuel n)
first_untaken-returns taken fuel n free = first_untaken-first_free taken fuel n ∙ rw free refl

pub first_free_ge : (taken : ℕ → Bool) (fuel n : ℕ) → n ≤ first_free taken fuel n
unfolding first_free
first_free_ge taken zero n = omega arith
first_free_ge taken (suc fuel) n = ground (arith, first_free_ge taken fuel (suc n))

pub first_free_le : (taken : ℕ → Bool) (fuel n : ℕ) → first_free taken fuel n ≤ n + fuel
unfolding first_free
first_free_le taken zero n = omega arith
first_free_le taken (suc fuel) n = ground (arith, first_free_le taken fuel (suc n))

-- What was passed over is taken.
pub first_free-passed :
    (taken : ℕ → Bool) (fuel n k : ℕ) → n ≤ k → k < first_free taken fuel n → taken k ≡ true
unfolding first_free
first_free-passed taken zero n k low high = absurd (omega arith)
first_free-passed taken (suc fuel) n k low high = elim (Bool-cases (taken n)) [
  | inl used ↦ elim (Bool-cases (n == k)) [
    | inl here ↦ let it : n ≡ k = ground (arith, here) in rw (sym it) used
    | inr other ↦
        first_free-passed taken fuel (suc n) k (ground (arith, other)) (ground (arith, used))
  ]
  | inr free ↦ absurd (ground (arith, free))
]

-- Before the fuel is used up, the number is free.
pub first_free-found :
    (taken : ℕ → Bool) (fuel n : ℕ)
    → first_free taken fuel n < n + fuel
    → taken (first_free taken fuel n) ≡ false
unfolding first_free
first_free-found taken zero n h = absurd (omega arith)
first_free-found taken (suc fuel) n h = elim (Bool-cases (taken n)) [
  | inl used ↦ rw used (first_free-found taken fuel (suc n) (ground (arith, used)))
  | inr free ↦ rw free free
]

-- How many of the numbers are taken.
abbrev hits : (ℕ → Bool) → ℕ → ℕ → ℕ
hits taken zero n = 0
hits taken (suc fuel) n = (if taken n then 1 else 0) + hits taken fuel (suc n)

hits-all :
    (taken : ℕ → Bool) (fuel n : ℕ)
    → ((k : ℕ) → n ≤ k → k < n + fuel → taken k ≡ true)
    → hits taken fuel n ≡ fuel
hits-all taken zero n h = refl
hits-all taken (suc fuel) n h =
    let here : taken n ≡ true = h n (omega arith) (omega arith) in
    ground
      (arith, here, hits-all taken fuel (suc n) (λ k low high. h k (omega arith) (omega arith)))

-- Whether a row has the name of the number.
abbrev pub is_taken : {A : Type 0} → (ℕ → Text) → (A → Text) → List A → ℕ → Bool
is_taken name key rows k = exists (λ r. text_eq (key r) (name k)) rows

module _ (name : ℕ → Text) (inj : (m n : ℕ) → name m ≡ name n → m ≡ n) where
  -- One text is the name of no other number.
  hits-other :
      (t : Text) (m fuel n : ℕ) → t ≡ name m → m < n → hits (λ k. text_eq t (name k)) fuel n ≡ 0
  hits-other t m zero n is low = refl
  hits-other t m (suc fuel) n is low = elim (Bool-cases (text_eq t (name n))) [
    | inl same ↦
        let both : m ≡ n = inj m n (sym is ∙ text_eq-eq t (name n) same) in absurd (omega arith)
    | inr other ↦ ground (arith, other, hits-other t m fuel (suc n) is (omega arith))
  ]

  hits-once : (t : Text) (fuel n : ℕ) → hits (λ k. text_eq t (name k)) fuel n ≤ 1
  hits-once t zero n = omega arith
  hits-once t (suc fuel) n = elim (Bool-cases (text_eq t (name n))) [
    | inl same ↦
        ground (arith, same, hits-other t n fuel (suc n) (text_eq-eq t (name n) same) (omega arith))
    | inr other ↦ ground (arith, other, hits-once t fuel (suc n))
  ]

  module _ {A : Type 0} (key : A → Text) where
    hits-or :
        (r : A) (rows : List A) (fuel n : ℕ)
        → hits (is_taken name key (r ∷ rows)) fuel n
          ≤ hits (λ k. text_eq (key r) (name k)) fuel n + hits (is_taken name key rows) fuel n
    hits-or r rows zero n = omega arith
    hits-or r rows (suc fuel) n = ground (arith, hits-or r rows fuel (suc n))

    hits-le : (rows : List A) (fuel n : ℕ) → hits (is_taken name key rows) fuel n ≤ length rows
    hits-le [] zero n = omega arith
    hits-le [] (suc fuel) n = omega (arith, hits-le [] fuel (suc n))
    hits-le (r ∷ rows) fuel n =
        omega (arith, hits-or r rows fuel n, hits-once (key r) fuel n, hits-le rows fuel n)

    -- If the last number is taken too, all are.
    used_up :
        (rows : List A) (fuel n k : ℕ)
        → is_taken name key rows (first_free (is_taken name key rows) fuel n) ≡ true
        → n ≤ k
        → k ≤ n + fuel
        → is_taken name key rows k ≡ true
    used_up rows fuel n k used low high =
        let v = first_free (is_taken name key rows) fuel n in
        elim (Bool-cases (ltb k v)) [
          | inl before ↦
              first_free-passed (is_taken name key rows) fuel n k low (ground (arith, before))
          | inr other ↦ elim (Bool-cases (ltb v (n + fuel))) [
            | inl found ↦
                let free : is_taken name key rows v ≡ false =
                  first_free-found (is_taken name key rows) fuel n (ground (arith, found)) in
                absurd (cc (sym used ∙ free))
            | inr last ↦
                let here : k ≡ v =
                  ground (arith, other, last, first_free_le (is_taken name key rows) fuel n) in
                rw here used
          ]
        ]

    -- The number of rows is enough fuel: the number that is found is the name of no row.
    pub first_free-free :
        (rows : List A) (fuel n : ℕ)
        → length rows ≤ fuel
        → is_taken name key rows (first_free (is_taken name key rows) fuel n) ≡ false
    first_free-free rows fuel n enough =
        elim (Bool-cases (is_taken name key rows (first_free (is_taken name key rows) fuel n))) [
          | inr free ↦ free
          | inl used ↦
              let all =
                hits-all (is_taken name key rows) (suc fuel) n
                  (λ k low high. used_up rows fuel n k used low (omega arith)) in
              absurd (omega (arith, all, hits-le rows (suc fuel) n))
        ]
