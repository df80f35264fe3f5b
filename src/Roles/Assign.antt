-- ===== src/Roles/Assign.antt =====
-- `assign_roles_to_user` of users/services.py.
use supersurf_billing_phase.Common.{
  ℕ, Bool, true, false, not, ◌&&◌, Option, none, some, List, ◌∷◌, ◌==◌, leb, length, find, exists,
  update, Text, text_eq, is_blank,
}
use supersurf_billing_phase.Exec.{ok, Exec, pure, gets, require, refuse, write, atomic, ◌>>=◌, ◌>>◌}
use supersurf_billing_phase.Roles.Rows.{
  Group, User, Session, RoleEvent, Staff, filter, is_role, names_of, has_owner, is_active_owner,
  sorted, count_distinct,
}

pub data RoleError : Type 0 where
  not_authenticated permission_denied owner_protected owner_reserved : RoleError
  last_owner unknown_role does_not_exist : RoleError

abbrev pub StaffAction : Type 0 → Type 0
StaffAction A = Exec Staff RoleError A

-- The acting user, and whether it has `users.assign_roles`.
pub record RoleActor : Type 0 where
  pub id : ℕ
  pub is_authenticated : Bool
  pub may_assign : Bool

pub record RoleAssignmentResult : Type 0 where
  pub old_roles : List Text
  pub new_roles : List Text
  pub removed_sessions : ℕ

abbrev pub user_at : ℕ → Staff → Option User
user_at k staff = find (λ u. u.id == k) staff.users

abbrev owner_of : Option User → Bool
owner_of none = false
owner_of (some u) = has_owner u.groups

-- `is_owner`
unfoldable pub is_owner : RoleActor → Staff → Bool
unfolding has_owner
is_owner actor staff = actor.is_authenticated && owner_of (user_at actor.id staff)

-- Another active user is an owner.
abbrev pub other_owner : ℕ → Staff → Bool
other_owner k staff = exists (λ u. is_active_owner u && not (u.id == k)) staff.users

abbrev pub differs : Bool → Bool → Bool
differs true b = not b
differs false b = b

-- `_validate_role_authorization`, and then the rest.
module _ {A : Type 0} where
  unfoldable pub authorized : RoleActor → User → List Group → StaffAction A → StaffAction A
  unfolding is_owner has_owner
  authorized actor target requested rest = do
    actor_is_owner ← gets (is_owner actor)
    remains ← gets (other_owner target.id)
    refuse (not actor.is_authenticated) RoleError.not_authenticated (
        refuse (not actor.may_assign) RoleError.permission_denied (
          refuse (has_owner target.groups && not actor_is_owner) RoleError.owner_protected (
            refuse (differs (has_owner target.groups) (has_owner requested) && not actor_is_owner)
              RoleError.owner_reserved
              (refuse
                (target.is_active
                  && has_owner target.groups
                  && not (has_owner requested)
                  && not remains)
                RoleError.last_owner rest))))

-- The groups with a requested key and the name of a role.
abbrev pub requested_groups : List ℕ → Staff → List Group
requested_groups ids staff =
    filter (λ g. exists (λ k. k == g.id) ids && is_role g.name) staff.groups

-- `user.groups.set(groups)`
unfoldable pub set_groups : ℕ → List Group → StaffAction Unit
set_groups k groups =
    write
      (λ staff. record staff {
        users = update (λ u. u.id == k) (λ u. record u { groups = groups }) staff.users;
      })
      tt

abbrev same_user : ℕ → Option ℕ → Bool
same_user k none = false
same_user k (some j) = j == k

-- A session that `invalidate_user_sessions` deletes: a live one of the user, but for the excluded key.
unfoldable pub is_removed : ℕ → Text → ℕ → Session → Bool
unfolding text_eq
is_removed k excluded now s =
    leb now s.expire_date
    && not (not (is_blank excluded) && text_eq s.session_key excluded)
    && same_user k s.user_id

-- `invalidate_user_sessions`
unfoldable pub invalidate_user_sessions : ℕ → Text → ℕ → StaffAction ℕ
unfolding filter is_removed
invalidate_user_sessions k excluded now staff = (
  ok (length (filter (is_removed k excluded now) staff.sessions)),
  record staff { sessions = filter (λ s. not (is_removed k excluded now s)) staff.sessions },
)

unfoldable pub record_roles : RoleEvent → StaffAction Unit
record_roles e = write (λ staff. record staff { events = e ∷ staff.events }) tt

unfoldable pub assign_authorized :
    RoleActor → User → List Group → Text → Text → ℕ → StaffAction RoleAssignmentResult
unfolding set_groups invalidate_user_sessions record_roles sorted
assign_authorized actor target requested reason excluded now = do
  set_groups target.id requested
  removed ← invalidate_user_sessions target.id excluded now
  record_roles (record {
    actor_id = actor.id;
    target_identifier = target.id;
    old_roles = sorted (names_of target.groups);
    new_roles = sorted (names_of requested);
    removed_sessions = removed;
    reason = reason;
  })
  pure (record {
    old_roles = sorted (names_of target.groups);
    new_roles = sorted (names_of requested);
    removed_sessions = removed;
  })

-- `assign_roles_to_user`; `excluded` is the key of the acting session, or blank.
unfoldable pub assign_roles_to_user :
    RoleActor → ℕ → List ℕ → Text → Text → ℕ → StaffAction RoleAssignmentResult
unfolding authorized assign_authorized count_distinct filter
assign_roles_to_user actor target ids reason excluded now = atomic do
  locked ← require (user_at target) RoleError.does_not_exist
  requested ← gets (requested_groups ids)
  refuse (not (length requested == count_distinct ids)) RoleError.unknown_role (
      authorized actor locked requested
        (assign_authorized actor locked requested reason excluded now))
