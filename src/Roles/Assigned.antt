-- ===== src/Roles/Assigned.antt =====
-- What the assignment of roles has done.
use mathlib.Core.Path.{subst}
use supersurf_billing_phase.Common.{
  ℕ, Bool, true, false, not, ◌&&◌, some, List, ◌==◌, length, update, Text, ◌≡◌, sym, ap, ◌∙◌, arith,
  double_negation,
}
use supersurf_billing_phase.Exec.{Result, ok, write}
use supersurf_billing_phase.Exec.Runs.{
  bind_then, gets_ok, require_ok, refuse_ok, pure_ok, atomic_ok,
}
use supersurf_billing_phase.Roles.Rows.{
  Group, User, Session, Staff, filter, names_of, has_owner, sorted, count_distinct,
}
use supersurf_billing_phase.Roles.Assign.{
  RoleActor, RoleAssignmentResult, StaffAction, user_at, is_owner, other_owner, differs, authorized,
  requested_groups, set_groups, is_removed, invalidate_user_sessions, record_roles,
  assign_authorized, assign_roles_to_user,
}

-- The tests of `_validate_role_authorization`.
abbrev pub IsAuthorized : RoleActor → User → List Group → Staff → Type 0
IsAuthorized actor t requested staff =
    (actor.is_authenticated ≡ true)
    × (actor.may_assign ≡ true)
    × (has_owner t.groups && not (is_owner actor staff) ≡ false)
    × (differs (has_owner t.groups) (has_owner requested) && not (is_owner actor staff) ≡ false)
    × (t.is_active
          && has_owner t.groups
          && not (has_owner requested)
          && not (other_owner t.id staff)
        ≡ false)

authorized_ok :
    {A : Type 0} (actor : RoleActor) (t : User) (requested : List Group) (rest : StaffAction A)
    (staff staff' : Staff) (a : A)
    → authorized actor t requested rest staff ≡ (ok a, staff')
    → IsAuthorized actor t requested staff × (rest staff ≡ (ok a, staff'))
unfolding authorized
authorized_ok actor t requested rest staff staff' a h = bind_then _ _ staff h λ owner s1 asked h1.
    bind_then _ _ s1 h1 λ remains s2 counted h2.
      let (owner_is, same1) = gets_ok _ owner staff s1 asked in
      let (remains_is, same2) = gets_ok _ remains s1 s2 counted in
      let (known, h3) = refuse_ok _ _ _ s2 h2 in
      let (may, h4) = refuse_ok _ _ _ s2 h3 in
      let (protected, h5) = refuse_ok _ _ _ s2 h4 in
      let (reserved, h6) = refuse_ok _ _ _ s2 h5 in
      let (last, h7) = refuse_ok _ _ _ s2 h6 in
      let there : remains ≡ other_owner t.id staff =
        sym remains_is ∙ ap (other_owner t.id) (sym same1) in
      (
        (
          double_negation _ known,
          double_negation _ may,
          rw (sym owner_is) at protected,
          rw (sym owner_is) at reserved,
          rw there at last,
        ),
        subst (λ (s : Staff). rest s ≡ (ok a, staff')) (sym (same1 ∙ same2)) h7,
      )

-- What an assignment writes.
abbrev pub IsAssigned :
    User → List Group → (Session → Bool) → RoleAssignmentResult → Staff → Staff → Type 0
IsAssigned t requested removed result old new =
    (new.users ≡ update (λ u. u.id == t.id) (λ u. record u { groups = requested }) old.users)
    × (new.groups ≡ old.groups)
    × (new.sessions ≡ filter (λ s. not (removed s)) old.sessions)
    × (result.old_roles ≡ sorted (names_of t.groups))
    × (result.new_roles ≡ sorted (names_of requested))
    × (result.removed_sessions ≡ length (filter removed old.sessions))

answer_of :
    {S E A : Type 0} {m n : A} {s s' : S} → ◌≡◌ {A = Result E A × S} (ok m, s) (ok n, s') → m ≡ n
answer_of h = cc

assign_authorized_ok :
    (actor : RoleActor) (t : User) (requested : List Group) (reason excluded : Text) (now : ℕ)
    (staff staff' : Staff) (result : RoleAssignmentResult)
    → assign_authorized actor t requested reason excluded now staff ≡ (ok result, staff')
    → IsAssigned t requested (is_removed t.id excluded now) result staff staff'
unfolding assign_authorized set_groups invalidate_user_sessions record_roles write
assign_authorized_ok actor t requested reason excluded now staff staff' result h =
    bind_then _ _ staff h λ x s1 given h1. bind_then _ _ s1 h1 λ removed s2 dropped h2.
      bind_then _ _ s2 h2 λ y s3 recorded h3.
        let (answer, same3) = pure_ok _ result s3 staff' h3 in
        let same0 = ap (λ x. x.1) given in
        let same1 = ap (λ x. x.1) dropped in
        let same2 = ap (λ x. x.1) recorded in
        let count : length (filter (is_removed t.id excluded now) s1.sessions) ≡ removed =
          answer_of dropped in
        (
          sym (
              ap (λ s. s.users) same0
              ∙ ap (λ s. s.users) same1
              ∙ ap (λ s. s.users) same2
              ∙ ap (λ s. s.users) same3),
          sym (
              ap (λ s. s.groups) same0
              ∙ ap (λ s. s.groups) same1
              ∙ ap (λ s. s.groups) same2
              ∙ ap (λ s. s.groups) same3),
          sym (
              ap (λ s. filter (λ x. not (is_removed t.id excluded now x)) s.sessions) same0
              ∙ ap (λ s. s.sessions) same1
              ∙ ap (λ s. s.sessions) same2
              ∙ ap (λ s. s.sessions) same3),
          sym (ap (λ r. r.old_roles) answer),
          sym (ap (λ r. r.new_roles) answer),
          sym (ap (λ r. r.removed_sessions) answer)
              ∙ sym count
              ∙ ap (λ s. length (filter (is_removed t.id excluded now) s.sessions)) (sym same0),
        )

-- The guards that an assignment of roles that returns has passed, and its writes.
pub assign_roles_to_user-guards :
    (actor : RoleActor) (target : ℕ) (ids : List ℕ) (reason excluded : Text) (now : ℕ)
    (staff staff' : Staff) (result : RoleAssignmentResult)
    → assign_roles_to_user actor target ids reason excluded now staff ≡ (ok result, staff')
    → (t : User) × (user_at target staff ≡ some t)
      × (length (requested_groups ids staff) ≡ count_distinct ids)
      × IsAuthorized actor t (requested_groups ids staff) staff
      × IsAssigned t (requested_groups ids staff) (is_removed t.id excluded now) result staff staff'
unfolding assign_roles_to_user
assign_roles_to_user-guards actor target ids reason excluded now staff staff' result h =
    bind_then _ _ staff (atomic_ok _ staff h) λ t s1 found h1.
      bind_then _ _ s1 h1 λ requested s2 asked h2.
        let (there, same1) = require_ok _ _ t staff s1 found in
        let (requested_is, same2) = gets_ok _ requested s1 s2 asked in
        let (known, h3) = refuse_ok _ _ _ s2 h2 in
        let back : s2 ≡ staff = sym (same1 ∙ same2) in
        let groups : requested ≡ requested_groups ids staff =
          sym requested_is ∙ ap (requested_groups ids) (sym same1) in
        let (allowed, h4) = authorized_ok actor t requested _ s2 staff' result h3 in
        let done = assign_authorized_ok actor t requested reason excluded now s2 staff' result h4 in
        (
          t,
          there,
          rw (sym groups) (ground (arith, known)),
          rw (sym groups) (rw back at allowed),
          rw (sym groups) (rw back at done),
        )
