-- ===== src/Roles/Rows.antt =====
-- The rows that the assignment of roles reads and writes, and the queries on them.
use supersurf_billing_phase.Common.{
  ℕ, ◌+◌, Bool, true, false, ◌&&◌, ◌||◌, Option, List, [], ◌∷◌, ◌==◌, if◌then◌else◌, ltb, exists,
  Text, codes, text_eq,
}

-- `django.contrib.auth.models.Group`
pub record Group : Type 0 where
  pub id : ℕ
  pub name : Text

pub record User : Type 0 where
  pub id : ℕ
  pub is_active : Bool
  pub groups : List Group

-- A stored session: `user_id` is the number that its data hold, `expire_date` an instant.
pub record Session : Type 0 where
  pub session_key : Text
  pub user_id : Option ℕ
  pub expire_date : ℕ

-- The audit event of an assignment, with its metadata.
pub record RoleEvent : Type 0 where
  pub actor_id : ℕ
  pub target_identifier : ℕ
  pub old_roles : List Text
  pub new_roles : List Text
  pub removed_sessions : ℕ
  pub reason : Text

pub record Staff : Type 0 where
  pub groups : List Group
  pub users : List User
  pub sessions : List Session
  pub events : List RoleEvent

abbrev pub role_owner : Text
role_owner = codes "Owner"

abbrev pub role_names : List Text
role_names =
    role_owner
    ∷ codes "Administrator"
    ∷ codes "Finance"
    ∷ codes "NOC"
    ∷ codes "SuperSurf Support"
    ∷ codes "Read Only"
    ∷ []

-- `.filter(test)`
unfoldable pub filter : {A : Type 0} → (A → Bool) → List A → List A
filter test [] = []
filter test (x ∷ xs) = if test x then x ∷ filter test xs else filter test xs

-- `name in names`
abbrev pub has_name : Text → List Text → Bool
has_name name names = exists (λ n. text_eq n name) names

-- `name__in=ROLE_NAMES`
unfoldable pub is_role : Text → Bool
unfolding text_eq
is_role name = has_name name role_names

abbrev pub names_of : List Group → List Text
names_of [] = []
names_of (g ∷ groups) = g.name ∷ names_of groups

-- `ROLE_OWNER in roles`
unfoldable pub has_owner : List Group → Bool
unfolding text_eq
has_owner groups = has_name role_owner (names_of groups)

abbrev pub is_active_owner : User → Bool
is_active_owner u = u.is_active && has_owner u.groups

abbrev before_text : Text → Text → Bool
before_text [] b = true
before_text (c ∷ a) [] = false
before_text (c ∷ a) (d ∷ b) = ltb c d || (c == d && before_text a b)

abbrev insert_name : Text → List Text → List Text
insert_name n [] = n ∷ []
insert_name n (m ∷ names) = if before_text n m then n ∷ m ∷ names else m ∷ insert_name n names

-- `sorted(names)`
unfoldable pub sorted : List Text → List Text
sorted [] = []
sorted (n ∷ names) = insert_name n (sorted names)

-- `len(set(ids))`
unfoldable pub count_distinct : List ℕ → ℕ
count_distinct [] = 0
count_distinct (k ∷ ids) =
    let rest = count_distinct ids in if exists (λ j. j == k) ids then rest else 1 + rest
