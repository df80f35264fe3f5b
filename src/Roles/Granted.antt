-- ===== src/Roles/Granted.antt =====
-- The groups that an assignment of roles requests: when there are as many as distinct keys, every
-- key is that of one.
use supersurf_billing_phase.Common.{
  ℕ, ◌+◌, ◌≤◌, Bool, true, false, ◌&&◌, List, [], ◌∷◌, ◌==◌, length, exists, ◌≡◌, refl, sym, ap,
  ◌∙◌, inl, inr, Bool-cases, arith, Distinct, IsIn,
}
use supersurf_billing_phase.Roles.Rows.{Group, filter, is_role, count_distinct}

abbrev has : List ℕ → ℕ → Bool
has ids k = exists (λ j. j == k) ids

-- The rows of `requested_groups`.
abbrev picked : List ℕ → List Group → List Group
picked ids groups = filter (λ g. exists (λ k. k == g.id) ids && is_role g.name) groups

-- The groups of a role with the key.
abbrev with_key : ℕ → List Group → List Group
with_key k groups = filter (λ g. k == g.id && is_role g.name) groups

has_at : (ids : List ℕ) (j k : ℕ) → j ≡ k → has ids j ≡ has ids k
has_at ids j k same = ap (has ids) same

-- A key that comes again picks nothing more.
picked-again :
    (k : ℕ) (ids : List ℕ) (groups : List Group)
    → has ids k ≡ true
    → length (picked (k ∷ ids) groups) ≡ length (picked ids groups)
unfolding filter
picked-again k ids [] h = refl
picked-again k ids (g ∷ groups) h = elim (Bool-cases (k == g.id)) [
  | inl here ↦
      let found : has ids g.id ≡ true = has_at ids g.id k (ground (arith, here)) ∙ h in
      ground (arith, here, found, picked-again k ids groups h)
  | inr other ↦ ground (arith, other, picked-again k ids groups h)
]

-- A new key picks its own groups.
picked-new :
    (k : ℕ) (ids : List ℕ) (groups : List Group)
    → has ids k ≡ false
    → length (picked (k ∷ ids) groups) ≡ length (picked ids groups) + length (with_key k groups)
unfolding filter
picked-new k ids [] h = refl
picked-new k ids (g ∷ groups) h = elim (Bool-cases (k == g.id)) [
  | inl here ↦
      let missing : has ids g.id ≡ false = has_at ids g.id k (ground (arith, here)) ∙ h in
      ground (arith, here, missing, picked-new k ids groups h)
  | inr other ↦ ground (arith, other, picked-new k ids groups h)
]

with_key-none :
    (k : ℕ) (groups : List Group)
    → exists (λ g. g.id == k) groups ≡ false
    → length (with_key k groups) ≡ 0
unfolding filter
with_key-none k [] h = refl
with_key-none k (g ∷ groups) h = ground (arith, h, with_key-none k groups)

with_key-le :
    (k : ℕ) (groups : List Group) → Distinct (λ g. g.id) groups → length (with_key k groups) ≤ 1
unfolding filter
with_key-le k [] d = omega arith
with_key-le k (g ∷ groups) d = elim (Bool-cases (k == g.id)) [
  | inl here ↦
      let same : g.id ≡ k = ground (arith, here) in
      let alone : exists (λ g. g.id == k) groups ≡ false =
        ap (λ k. exists (λ (y : Group). y.id == k) groups) (sym same) ∙ d.0 in
      ground (arith, here, with_key-none k groups alone)
  | inr other ↦ ground (arith, other, with_key-le k groups d.1)
]

-- A group of the table with the key and the name of a role.
abbrev pub IsRoleGroup : ℕ → List Group → Type 0
IsRoleGroup k groups = (g : Group) × IsIn g groups × (g.id ≡ k) × (is_role g.name ≡ true)

with_key-found :
    (k : ℕ) (groups : List Group) → 1 ≤ length (with_key k groups) → IsRoleGroup k groups
unfolding filter
with_key-found k [] h = absurd (omega (arith, h))
with_key-found k (g ∷ groups) h = elim (Bool-cases (k == g.id && is_role g.name)) [
  | inl here ↦ (g, inl refl, ground (arith, here), ground (arith, here))
  | inr other ↦
      let (r, there, key, role) = with_key-found k groups (ground (arith, other, h)) in
      (r, inr there, key, role)
]

picked-nothing : (groups : List Group) → length (picked [] groups) ≡ 0
unfolding filter
picked-nothing [] = refl
picked-nothing (g ∷ groups) = picked-nothing groups

picked-le :
    (ids : List ℕ) (groups : List Group)
    → Distinct (λ g. g.id) groups
    → length (picked ids groups) ≤ count_distinct ids
unfolding count_distinct
picked-le [] groups d = omega (arith, picked-nothing groups)
picked-le (k ∷ ids) groups d = elim (Bool-cases (has ids k)) [
  | inl again ↦ ground (arith, again, picked-again k ids groups again, picked-le ids groups d)
  | inr new ↦
      ground
        (arith, new, picked-new k ids groups new, picked-le ids groups d, with_key-le k groups d)
]

has_IsIn : (ids : List ℕ) (k : ℕ) → has ids k ≡ true → IsIn k ids
has_IsIn [] k h = cc
has_IsIn (j ∷ ids) k h = elim (Bool-cases (j == k)) [
  | inl here ↦ inl (ground (arith, here))
  | inr other ↦ inr (has_IsIn ids k (ground (arith, other, h)))
]

-- As many groups as distinct keys leave no key without its group.
pub all_granted :
    (ids : List ℕ) (groups : List Group)
    → Distinct (λ g. g.id) groups
    → length (picked ids groups) ≡ count_distinct ids
    → (k : ℕ) → IsIn k ids
    → IsRoleGroup k groups
unfolding count_distinct
all_granted [] groups d h k member = absurd member
all_granted (j ∷ ids) groups d h k member = elim (Bool-cases (has ids j)) [
  | inl again ↦
      let rest =
        all_granted ids groups d (ground (arith, again, h, picked-again j ids groups again)) in
      elim member [
        | inl same ↦ rest k (rw (← same) (has_IsIn ids j again))
        | inr later ↦ rest k later
      ]
  | inr new ↦
      let grown = picked-new j ids groups new in
      let bound = picked-le ids groups d in
      let once = with_key-le j groups d in
      let counts : (length (picked ids groups) ≡ count_distinct ids)
          × (1 ≤ length (with_key j groups)) =
        ground (arith, new, h, grown, bound, once) in
      elim member [
        | inl same ↦ rw (← same) (with_key-found j groups counts.1)
        | inr later ↦ all_granted ids groups d counts.0 k later
      ]
]

-- A group that is picked is one of the table, with a requested key and the name of a role.
pub picked_ok :
    (ids : List ℕ) (groups : List Group) (g : Group)
    → IsIn g (picked ids groups)
    → IsIn g groups × IsIn g.id ids × (is_role g.name ≡ true)
unfolding filter
picked_ok ids [] g h = absurd h
picked_ok ids (x ∷ groups) g h = elim (Bool-cases (exists (λ k. k == x.id) ids && is_role x.name)) [
  | inl taken ↦ elim (rw taken at h) [
    | inl same ↦ (
      inl same,
      rw (← same) (has_IsIn ids x.id (ground (arith, taken))),
      rw (← same) (ground (arith, taken)),
    )
    | inr later ↦ let (there, key, role) = picked_ok ids groups g later in (inr there, key, role)
  ]
  | inr left ↦
      let (there, key, role) = picked_ok ids groups g (rw left at h) in (inr there, key, role)
]
