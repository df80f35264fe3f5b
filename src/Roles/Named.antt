-- ===== src/Roles/Named.antt =====
-- Tables that are filtered, and roles by their names.
use supersurf_billing_phase.Common.{
  ℕ, ◌+◌, Bool, true, false, not, List, [], ◌∷◌, ◌==◌, length, exists, Text, codes, text_eq,
  text_eq-eq, text_eq_refl, ◌≡◌, refl, sym, ap, ◌∙◌, inl, inr, Bool-cases, arith, IsIn,
}
use supersurf_billing_phase.Roles.Rows.{Group, filter, role_names, is_role, has_owner}

module _ {A : Type 0} (test : A → Bool) where
  pub filter_kept : (xs : List A) (x : A) → IsIn x xs → test x ≡ true → IsIn x (filter test xs)
  unfolding filter
  filter_kept [] x h is = absurd h
  filter_kept (y ∷ xs) x h is = elim h [
    | inl same ↦ let passed : test y ≡ true = ap test same ∙ is in rw passed (inl same)
    | inr later ↦ elim (Bool-cases (test y)) [
      | inl passed ↦ rw passed (inr (filter_kept xs x later is))
      | inr failed ↦ rw failed (filter_kept xs x later is)
    ]
  ]

  pub filter_in : (xs : List A) (x : A) → IsIn x (filter test xs) → IsIn x xs × (test x ≡ true)
  unfolding filter
  filter_in [] x h = absurd h
  filter_in (y ∷ xs) x h = elim (Bool-cases (test y)) [
    | inl passed ↦ elim (rw passed at h) [
      | inl same ↦ (inl same, ap test (sym same) ∙ passed)
      | inr later ↦ let (there, is) = filter_in xs x later in (inr there, is)
    ]
    | inr failed ↦ let (there, is) = filter_in xs x (rw failed at h) in (inr there, is)
  ]

  pub filter_count :
      (xs : List A) → length (filter test xs) + length (filter (λ x. not (test x)) xs) ≡ length xs
  unfolding filter
  filter_count [] = refl
  filter_count (y ∷ xs) = ground (arith, filter_count xs)

pub has_IsIn : (ids : List ℕ) (k : ℕ) → IsIn k ids → exists (λ j. j == k) ids ≡ true
has_IsIn [] k h = absurd h
has_IsIn (j ∷ ids) k h = elim h [
  | inl same ↦ ground (arith, same)
  | inr later ↦ ground (arith, has_IsIn ids k later)
]

-- The role of the owner is among the groups.
abbrev pub HasOwner : List Group → Type 0
HasOwner groups = (g : Group) × IsIn g groups × (g.name ≡ codes "Owner")

pub has_owner_ok : (groups : List Group) → has_owner groups ≡ true → HasOwner groups
unfolding has_owner
has_owner_ok [] h = cc
has_owner_ok (g ∷ groups) h = elim (Bool-cases (text_eq g.name (codes "Owner"))) [
  | inl same ↦ (g, inl refl, text_eq-eq _ _ same)
  | inr other ↦
      let (o, there, is) = has_owner_ok groups (ground (arith, other, h)) in (o, inr there, is)
]

pub has_owner_no : (groups : List Group) → has_owner groups ≡ false → ¬ HasOwner groups
unfolding has_owner
has_owner_no [] h (o, there, is) = absurd there
has_owner_no (g ∷ groups) h (o, there, is) = elim there [
  | inl same ↦
      let named : text_eq g.name (codes "Owner") ≡ true =
        ap (λ x. text_eq x.name (codes "Owner")) same
        ∙ ap (λ n. text_eq n (codes "Owner")) is
        ∙ text_eq_refl (codes "Owner") in
      ground (arith, h, named)
  | inr later ↦ has_owner_no groups (ground (arith, h)) (o, later, is)
]

role_named :
    (names : List Text) (name : Text) → exists (λ n. text_eq n name) names ≡ true → IsIn name names
role_named [] name h = cc
role_named (n ∷ names) name h = elim (Bool-cases (text_eq n name)) [
  | inl same ↦ inl (text_eq-eq _ _ same)
  | inr other ↦ inr (role_named names name (ground (arith, other, h)))
]

pub is_role_ok : (name : Text) → is_role name ≡ true → IsIn name role_names
unfolding is_role
is_role_ok name h = role_named role_names name h
