-- ===== src/Examples/Roles.antt =====
-- A user who becomes an owner, and an owner who cannot cease to be one.
use supersurf_billing_phase.Common.{◌≡◌, refl, true, some, [], ◌∷◌, codes, text_eq, exists}
use supersurf_billing_phase.Exec.{atomic, write, ◌>>=◌}
use supersurf_billing_phase.Roles.Rows.{
  Group, User, Staff, filter, is_role, has_owner, is_active_owner, sorted, count_distinct,
}
use supersurf_billing_phase.Roles.Assign.{
  RoleActor, RoleAssignmentResult, is_owner, authorized, set_groups, is_removed,
  invalidate_user_sessions, record_roles, assign_authorized, assign_roles_to_user,
}
use supersurf_billing_phase.Roles.Authorized.{IsAssignment, assign_roles_to_user_ok}
use supersurf_billing_phase.Roles.Owners.{assign_roles_to_user-has_owner}

abbrev owner_group : Group
owner_group = record { id = 1; name = codes "Owner" }

abbrev noc_group : Group
noc_group = record { id = 4; name = codes "NOC" }

abbrev chief : User
chief = record { id = 10; is_active = true; groups = owner_group ∷ [] }

abbrev newcomer : User
newcomer = record { id = 11; is_active = true; groups = [] }

abbrev staff : Staff
staff = record {
  groups = owner_group ∷ noc_group ∷ [];
  users = chief ∷ newcomer ∷ [];
  sessions = record { session_key = codes "s1"; user_id = some 11; expire_date = 900 } ∷ [];
  events = [];
}

abbrev actor : RoleActor
actor = record { id = 10; is_authenticated = true; may_assign = true }

abbrev promoted : Staff
promoted = (assign_roles_to_user actor 11 (4 ∷ 1 ∷ []) (codes "Lead") [] 500 staff).1

abbrev promotion : RoleAssignmentResult
promotion = record {
  old_roles = [];
  new_roles = codes "NOC" ∷ codes "Owner" ∷ [];
  removed_sessions = 1;
}

assign_roles_to_user_ok_example : IsAssignment actor 11 (4 ∷ 1 ∷ []) [] 500 staff promoted promotion
unfolding atomic ◌>>=◌ write text_eq filter is_role has_owner sorted count_distinct is_owner
    authorized set_groups is_removed invalidate_user_sessions record_roles assign_authorized
    assign_roles_to_user
assign_roles_to_user_ok_example =
    assign_roles_to_user_ok actor 11 (4 ∷ 1 ∷ []) (codes "Lead") [] 500 staff promoted promotion
      (refl, (refl, tt)) refl

-- The only owner is refused.
assign_roles_to_user-has_owner_example :
    exists is_active_owner
      (assign_roles_to_user actor 10 (4 ∷ []) (codes "Step down") [] 500 staff).1.users
    ≡ true
unfolding text_eq has_owner
assign_roles_to_user-has_owner_example =
    assign_roles_to_user-has_owner actor 10 (4 ∷ []) (codes "Step down") [] 500 staff
      (refl, (refl, tt)) refl
