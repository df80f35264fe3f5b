-- ===== src/Roles/Owners.antt =====
-- The assignment of roles leaves an active owner.
use supersurf_billing_phase.Common.{
  ℕ, true, false, not, ◌&&◌, some, List, [], ◌∷◌, ◌==◌, find, exists, update, Text, ◌≡◌, sym, ap,
  ◌∙◌, ◌⊎◌, inl, inr, Bool-cases, arith, Distinct, find_sound,
}
use supersurf_billing_phase.Exec.Runs.{atomic_err, Result-cases}
use supersurf_billing_phase.Roles.Rows.{Group, User, Staff, has_owner, is_active_owner}
use supersurf_billing_phase.Roles.Assign.{RoleActor, requested_groups, assign_roles_to_user}
use supersurf_billing_phase.Roles.Assigned.{assign_roles_to_user-guards}

module _ (k : ℕ) (groups : List Group) where
  abbrev changed : List User → List User
  changed users = update (λ u. u.id == k) (λ u. record u { groups = groups }) users

  -- The owners beside the user stay.
  others_stay :
      (users : List User)
      → exists (λ u. is_active_owner u && not (u.id == k)) users ≡ true
      → exists is_active_owner (changed users) ≡ true
  others_stay [] h = h
  others_stay (u ∷ users) h = elim (Bool-cases (u.id == k)) [
    | inl hit ↦ ground (arith, hit, others_stay users)
    | inr miss ↦ ground (arith, miss, others_stay users)
  ]

  -- The user is an owner with the groups.
  stays_owner :
      (users : List User) (t : User)
      → find (λ u. u.id == k) users ≡ some t
      → t.is_active ≡ true
      → has_owner groups ≡ true
      → exists is_active_owner (changed users) ≡ true
  stays_owner [] t found active owner = cc
  stays_owner (u ∷ users) t found active owner = elim (Bool-cases (u.id == k)) [
    | inl hit ↦
        let it : u ≡ t = ground (arith, hit, found) in
        let works : u.is_active ≡ true = ap (λ u. u.is_active) it ∙ active in
        rw hit (ground (arith, owner, works))
    | inr miss ↦
        rw miss (ground (arith, stays_owner users t (ground (arith, miss, found)) active owner))
  ]

  -- Beside the user, every owner is another one.
  all_others :
      (users : List User)
      → exists (λ u. u.id == k) users ≡ false
      → exists is_active_owner users ≡ true
      → exists (λ u. is_active_owner u && not (u.id == k)) users ≡ true
  all_others [] none_at h = h
  all_others (u ∷ users) none_at h = ground (arith, none_at, h, all_others users)

  -- An active owner is the user, or stands beside the user.
  owner_or_other :
      (users : List User) (t : User)
      → Distinct (λ u. u.id) users
      → find (λ u. u.id == k) users ≡ some t
      → exists is_active_owner users ≡ true
      → (is_active_owner t ≡ true)
        ⊎ (exists (λ u. is_active_owner u && not (u.id == k)) users ≡ true)
  owner_or_other [] t d found h = cc
  owner_or_other (u ∷ users) t d found h = elim (Bool-cases (is_active_owner u)) [
    | inl owner ↦ elim (Bool-cases (u.id == k)) [
      | inl hit ↦
          let it : u ≡ t = ground (arith, hit, found) in inl (ap is_active_owner (sym it) ∙ owner)
      | inr miss ↦ inr (ground (arith, owner, miss))
    ]
    | inr plain ↦ elim (Bool-cases (u.id == k)) [
      | inl hit ↦
          let at_k : u.id ≡ k = ground (arith, hit) in
          let alone : exists (λ y. y.id == k) users ≡ false =
            ap (λ k. exists (λ (y : User). y.id == k) users) (sym at_k) ∙ d.0 in
          let others = all_others users alone (ground (arith, plain, h)) in
          inr (ground (arith, others))
      | inr miss ↦
          elim (owner_or_other users t d.1 (ground (arith, miss, found))
            (ground (arith, plain, h))) [
              | inl same ↦ inl same
              | inr others ↦ inr (ground (arith, others))
            ]
    ]
  ]

owner_left :
    (k : ℕ) (groups : List Group) (users : List User) (t : User)
    → Distinct (λ u. u.id) users
    → find (λ u. u.id == k) users ≡ some t
    → exists is_active_owner users ≡ true
    → t.is_active
        && has_owner t.groups
        && not (has_owner groups)
        && not (exists (λ u. is_active_owner u && not (u.id == k)) users)
      ≡ false
    → exists is_active_owner (update (λ u. u.id == k) (λ u. record u { groups = groups }) users)
      ≡ true
owner_left k groups users t d found h guard = elim (owner_or_other k groups users t d found h) [
  | inr others ↦ others_stay k groups users others
  | inl owner ↦ elim (Bool-cases (has_owner groups)) [
    | inl kept ↦ stays_owner k groups users t found (ground (arith, owner)) kept
    | inr lost ↦ others_stay k groups users (ground (arith, owner, lost, guard))
  ]
]

-- Where the users have distinct keys and one is an active owner, one is an active owner after an
-- assignment of roles too, whether it returned or raised.
pub assign_roles_to_user-has_owner :
    (actor : RoleActor) (target : ℕ) (ids : List ℕ) (reason excluded : Text) (now : ℕ)
    (staff : Staff)
    → Distinct (λ u. u.id) staff.users
    → exists is_active_owner staff.users ≡ true
    → exists is_active_owner
        (assign_roles_to_user actor target ids reason excluded now staff).1.users
      ≡ true
unfolding assign_roles_to_user
assign_roles_to_user-has_owner actor target ids reason excluded now staff d h =
    elim (Result-cases (assign_roles_to_user actor target ids reason excluded now staff).0) [
      | inl (e, raised) ↦ ap (λ s. exists is_active_owner s.users) (atomic_err _ staff raised) ∙ h
      | inr (result, returned) ↦
          let staff' = (assign_roles_to_user actor target ids reason excluded now staff).1 in
          let (t, there, known, allowed, written) =
            assign_roles_to_user-guards actor target ids reason excluded now staff staff' result
              (λ i. (returned i, staff')) in
          let at_target : (t.id == target) ≡ true =
            find_sound (λ (u : User). u.id == target) staff.users t there in
          let key : t.id ≡ target = ground (arith, at_target) in
          let found : find (λ (u : User). u.id == t.id) staff.users ≡ some t =
            ap (λ k. find (λ (u : User). u.id == k) staff.users) key ∙ there in
          ap (exists is_active_owner) written.0
          ∙ owner_left t.id (requested_groups ids staff) staff.users t d found h allowed.4
    ]
