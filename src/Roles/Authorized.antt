-- ===== src/Roles/Authorized.antt =====
-- What the assignment of roles has done: who may assign what, and which sessions are left.
use supersurf_billing_phase.Common.{
  ℕ, ◌+◌, ◌≤◌, true, false, not, ◌&&◌, some, List, [], ◌∷◌, ◌==◌, length, find, exists, update,
  Text, text_eq, text_eq-eq, text_eq_refl, is_blank, ◌≡◌, refl, sym, ap, ◌∙◌, ◌⊎◌, inl, inr,
  Bool-cases, Option-cases, arith, Distinct, IsIn,
}
use supersurf_billing_phase.Exec.{ok}
use supersurf_billing_phase.Roles.Rows.{
  Group, User, Session, Staff, filter, names_of, role_names, has_owner, is_active_owner, sorted,
}
use supersurf_billing_phase.Roles.Assign.{
  RoleActor, RoleAssignmentResult, user_at, is_owner, other_owner, differs, requested_groups,
  is_removed, assign_roles_to_user,
}
use supersurf_billing_phase.Roles.Assigned.{assign_roles_to_user-guards}
use supersurf_billing_phase.Roles.Granted.{all_granted, picked_ok}
use supersurf_billing_phase.Roles.Named.{
  filter_kept, filter_in, filter_count, has_IsIn, HasOwner, has_owner_ok, has_owner_no, is_role_ok,
}

-- The actor is an owner, or the role is not touched.
owner_required :
    (actor : RoleActor) (t : User) (requested : List Group) (staff : Staff)
    → has_owner t.groups && not (is_owner actor staff) ≡ false
    → differs (has_owner t.groups) (has_owner requested) && not (is_owner actor staff) ≡ false
    → (¬ HasOwner t.groups × ¬ HasOwner requested)
      ⊎ ((a : User) × (find (λ u. u.id == actor.id) staff.users ≡ some a) × HasOwner a.groups)
unfolding is_owner
owner_required actor t requested staff protected reserved =
    elim (Bool-cases (is_owner actor staff)) [
      | inl owner ↦ elim (Option-cases (user_at actor.id staff)) [
        | inl gone ↦ absurd (ground (arith, owner, gone))
        | inr (a, is) ↦ inr (a, is, has_owner_ok a.groups (ground (arith, owner, is)))
      ]
      | inr plain ↦
          let before : has_owner t.groups ≡ false = ground (arith, protected, plain) in
          let after : has_owner requested ≡ false = ground (arith, reserved, plain, before) in
          inl (has_owner_no t.groups before, has_owner_no requested after)
    ]

other_found :
    (k : ℕ) (users : List User)
    → exists (λ u. is_active_owner u && not (u.id == k)) users ≡ true
    → (o : User) × IsIn o users × ¬ (o.id ≡ k) × (o.is_active ≡ true) × HasOwner o.groups
other_found k [] h = cc
other_found k (u ∷ users) h = elim (Bool-cases (is_active_owner u && not (u.id == k))) [
  | inl here ↦ (
    u,
    inl refl,
    λ same. ground (arith, here, same),
    ground (arith, here),
    has_owner_ok u.groups (ground (arith, here)),
  )
  | inr other ↦
      let (o, there, key, active, owner) = other_found k users (ground (arith, other, h)) in
      (o, inr there, key, active, owner)
]

-- The user is no active owner, or stays one, or another one is left.
owner_remains :
    (t : User) (requested : List Group) (staff : Staff)
    → t.is_active && has_owner t.groups && not (has_owner requested) && not (other_owner t.id staff)
      ≡ false
    → (t.is_active ≡ false)
      ⊎ (¬ HasOwner t.groups)
      ⊎ HasOwner requested
      ⊎ ((o : User) × IsIn o staff.users
          × ¬ (o.id ≡ t.id)
          × (o.is_active ≡ true)
          × HasOwner o.groups)
owner_remains t requested staff guard = elim (Bool-cases t.is_active) [
  | inr inactive ↦ inl inactive
  | inl active ↦ elim (Bool-cases (has_owner t.groups)) [
    | inr plain ↦ inr (inl (has_owner_no t.groups plain))
    | inl owner ↦ elim (Bool-cases (has_owner requested)) [
      | inl kept ↦ inr (inr (inl (has_owner_ok requested kept)))
      | inr lost ↦
          inr
            (inr (inr (other_found t.id staff.users (ground (arith, guard, active, owner, lost)))))
    ]
  ]
]

-- A live session of the user, but for the excluded key.
abbrev pub IsLive : ℕ → Text → ℕ → Session → Type 0
IsLive k excluded now s =
    (now ≤ s.expire_date)
    × (s.user_id ≡ some k)
    × ((excluded ≡ []) ⊎ (¬ (s.session_key ≡ excluded)))

key_spared :
    (e key : Text) → not (not (is_blank e) && text_eq key e) ≡ true → (e ≡ []) ⊎ (¬ (key ≡ e))
key_spared [] key h = inl refl
key_spared (c ∷ e) key h = inr λ same.
    let equal : text_eq key (c ∷ e) ≡ true = ap (text_eq key) (sym same) ∙ text_eq_refl key in
    ground (arith, h, equal)

spared_key :
    (e key : Text) → (e ≡ []) ⊎ (¬ (key ≡ e)) → not (not (is_blank e) && text_eq key e) ≡ true
spared_key [] key h = refl
spared_key (c ∷ e) key (inl blank) = cc
spared_key (c ∷ e) key (inr other) = elim (Bool-cases (text_eq key (c ∷ e))) [
  | inl same ↦ absurd (other (text_eq-eq key (c ∷ e) same))
  | inr differs ↦ rw differs refl
]

is_removed_ok :
    (k : ℕ) (excluded : Text) (now : ℕ) (s : Session)
    → is_removed k excluded now s ≡ true
    → IsLive k excluded now s
unfolding is_removed
is_removed_ok k excluded now s h = elim (Option-cases s.user_id) [
  | inl nobody ↦ absurd (ground (arith, h, nobody))
  | inr (j, is) ↦
      let same : j ≡ k = ground (arith, h, is) in
      (
        ground (arith, h),
        is ∙ ap (λ j. some j) same,
        key_spared excluded s.session_key (ground (arith, h)),
      )
]

is_removed_no :
    (k : ℕ) (excluded : Text) (now : ℕ) (s : Session)
    → IsLive k excluded now s
    → is_removed k excluded now s ≡ true
unfolding is_removed
is_removed_no k excluded now s (live, owner, key) =
    let spared = spared_key excluded s.session_key key in ground (arith, live, owner, spared)

-- The assignment that returned, in the words of the tables.
pub record IsAssignment (actor : RoleActor) (target : ℕ) (ids : List ℕ) (excluded : Text) (now : ℕ)
    (old new : Staff) (result : RoleAssignmentResult) : Type 0 where
  pub user : User
  pub requested : List Group
  pub found : find (λ u. u.id == target) old.users ≡ some user
  pub known : (actor.is_authenticated ≡ true) × (actor.may_assign ≡ true)
  pub keys : (k : ℕ) → IsIn k ids → (g : Group) × IsIn g requested × (g.id ≡ k)
  pub roles :
      (g : Group) → IsIn g requested → IsIn g old.groups × IsIn g.id ids × IsIn g.name role_names
  pub owner :
      (¬ HasOwner user.groups × ¬ HasOwner requested)
      ⊎ ((a : User) × (find (λ u. u.id == actor.id) old.users ≡ some a) × HasOwner a.groups)
  pub remains :
      (user.is_active ≡ false)
      ⊎ (¬ HasOwner user.groups)
      ⊎ HasOwner requested
      ⊎ ((o : User) × IsIn o old.users
          × ¬ (o.id ≡ user.id)
          × (o.is_active ≡ true)
          × HasOwner o.groups)
  pub users :
      new.users ≡ update (λ u. u.id == user.id) (λ u. record u { groups = requested }) old.users
  pub groups : new.groups ≡ old.groups
  pub gone :
      (s : Session) → IsIn s new.sessions → IsIn s old.sessions × ¬ IsLive user.id excluded now s
  pub left :
      (s : Session) → IsIn s old.sessions → ¬ IsLive user.id excluded now s → IsIn s new.sessions
  pub count : result.removed_sessions + length new.sessions ≡ length old.sessions
  pub names :
      (result.old_roles ≡ sorted (names_of user.groups))
      × (result.new_roles ≡ sorted (names_of requested))

-- What an assignment of roles that returns has done, where no two groups have one key. The actor is
-- authenticated and may assign roles, and is an owner unless the user neither was one nor becomes one;
-- another active owner is left if the user is an active one and ceases to be one. The user's groups
-- afterwards are those requested: each is a stored group with a requested key and the name of a role,
-- and every requested key is that of one; no other user changes. The sessions left are those that were
-- there and are no live session of the user, but for the excluded key, and their loss is counted.
pub assign_roles_to_user_ok :
    (actor : RoleActor) (target : ℕ) (ids : List ℕ) (reason excluded : Text) (now : ℕ)
    (staff staff' : Staff) (result : RoleAssignmentResult)
    → Distinct (λ g. g.id) staff.groups
    → assign_roles_to_user actor target ids reason excluded now staff ≡ (ok result, staff')
    → IsAssignment actor target ids excluded now staff staff' result
unfolding filter
assign_roles_to_user_ok actor target ids reason excluded now staff staff' result d h =
    let (
      t,
      found,
      counted,
      (known, may, protected, reserved, guard),
      (users, groups, sessions, olds, news, removed),
    ) =
      assign_roles_to_user-guards actor target ids reason excluded now staff staff' result h in
    let requested = requested_groups ids staff in
    let dead = is_removed t.id excluded now in
    record {
      user = t;
      requested = requested;
      found = found;
      known = (known, may);
      keys = λ k member.
          let (g, there, key, role) = all_granted ids staff.groups d counted k member in
          let asked : exists (λ j. j == g.id) ids ≡ true =
            ap (λ i. exists (λ j. j == i) ids) key ∙ has_IsIn ids k member in
          (g, filter_kept _ staff.groups g there (ground (arith, asked, role)), key);
      roles = λ g member.
          let (there, key, role) = picked_ok ids staff.groups g member in
          (there, key, is_role_ok g.name role);
      owner = owner_required actor t requested staff protected reserved;
      remains = owner_remains t requested staff guard;
      users = users;
      groups = groups;
      gone = λ s member.
          let (there, spared) =
            filter_in (λ s. not (dead s)) staff.sessions s (rw sessions at member) in
          (
            there,
            λ live.
                let lost = is_removed_no t.id excluded now s live in ground (arith, spared, lost),
          );
      left = λ s member spared. elim (Bool-cases (dead s)) [
        | inl lost ↦ absurd (spared (is_removed_ok t.id excluded now s lost))
        | inr stays ↦
            rw sessions
              (filter_kept (λ s. not (dead s)) staff.sessions s member (ground (arith, stays)))
      ];
      count = rw (removed, sessions) (filter_count dead staff.sessions);
      names = (olds, news);
    }
