-- ===== src/Access/Permissions.antt =====
-- auth/permissions.py: actions, the capability matrix, and the checks on it.
use untangle.Base.{
  ⊤, String, Bool, true, false, not, Option, none, some, List, [], ◌∷◌, if◌then◌else◌,
}
use untangle.Base.Keys.{◌=?◌, string_eq}
use untangle.Base.Flow.{Result, ok, err}
use untangle.Access.Roles.{
  Role, owner, admin, operator, reviewer, auditor, role_value, in_roles, parse_role,
}

pub data Action : Type 0 where
  org_update org_delete : Action
  membership_list membership_mutate invitation_create invitation_revoke invitation_list : Action
  run_create run_abort run_delete run_view investigation_resolve certificate_issue audit_view :
      Action

-- `CAPABILITY_MATRIX`, which has an entry for every action.
unfoldable pub capability_matrix : Action → List Role
capability_matrix org_update = owner ∷ []
capability_matrix org_delete = owner ∷ []
capability_matrix membership_list = owner ∷ admin ∷ []
capability_matrix membership_mutate = owner ∷ admin ∷ []
capability_matrix invitation_create = owner ∷ admin ∷ []
capability_matrix invitation_revoke = owner ∷ admin ∷ []
capability_matrix invitation_list = owner ∷ admin ∷ []
capability_matrix run_create = owner ∷ admin ∷ operator ∷ []
capability_matrix run_abort = owner ∷ admin ∷ operator ∷ []
capability_matrix run_delete = owner ∷ admin ∷ []
capability_matrix run_view = owner ∷ admin ∷ operator ∷ reviewer ∷ auditor ∷ []
capability_matrix investigation_resolve = owner ∷ admin ∷ operator ∷ reviewer ∷ []
capability_matrix certificate_issue = owner ∷ admin ∷ reviewer ∷ []
capability_matrix audit_view = owner ∷ admin ∷ operator ∷ reviewer ∷ auditor ∷ []

-- An argument of type `Role | str`.
pub data RoleArg : Type 0 where
  enum : Role → RoleArg
  text : String → RoleArg

-- `if isinstance(role, str): try: role = Role(role) except ValueError: return False`. A `Role` is a
-- `str` too, and `Role(role)` is then the role itself.
unfoldable pub as_role : RoleArg → Option Role
unfolding parse_role
as_role (enum r) = some r
as_role (text s) = parse_role s

unfoldable pub check_permission : RoleArg → Action → Bool
unfolding as_role capability_matrix
check_permission role action = elim (as_role role) [
  | none ↦ false
  | some r ↦ in_roles r (capability_matrix action)
]

pub data PermissionDenied : Type 0 where
  permission_denied : Action → PermissionDenied

unfoldable pub require_permission : Option RoleArg → Action → Result PermissionDenied ⊤
unfolding check_permission
require_permission none action = err (permission_denied action)
require_permission (some role) action =
    if check_permission role action then ok tt else err (permission_denied action)

abbrev pub role_eq : Role → Role → Bool
role_eq r s = role_value r =? role_value s

-- The tests after the two arguments have been made roles.
abbrev pub manages : Role → Role → Bool
manages a t =
    if role_eq a owner then true else if role_eq a admin then not (role_eq t owner) else false

unfoldable pub can_manage_target_role : RoleArg → RoleArg → Bool
unfolding as_role
can_manage_target_role actor target = elim (as_role actor) [
  | none ↦ false
  | some a ↦ elim (as_role target) [ none ↦ false | some t ↦ manages a t ]
]
