-- ===== src/Access/Roles.antt =====
-- persistence/context.py: the five roles and their wire values.
use untangle.Base.{◌≡◌, refl, String, Bool, Option, none, some, List, any, if◌then◌else◌}
use untangle.Base.Keys.{◌=?◌, string_eq}

pub data Role : Type 0 where
  owner admin operator reviewer auditor : Role

-- `role.value`
abbrev pub role_value : Role → String
role_value owner = "owner"
role_value admin = "admin"
role_value operator = "operator"
role_value reviewer = "reviewer"
role_value auditor = "auditor"

-- `role in allowed`: a `StrEnum` member is equal to what has its value.
abbrev pub in_roles : Role → List Role → Bool
in_roles r = any (λ s. role_value r =? role_value s)

-- `Role(text)`, with `none` for the `ValueError`.
unfoldable pub parse_role : String → Option Role
parse_role s =
    if s =? "owner"
    then some owner
    else if s =? "admin"
    then some admin
    else if s =? "operator"
    then some operator
    else if s =? "reviewer"
    then some reviewer
    else if s =? "auditor"
    then some auditor
    else none

-- Parsing a role's own value gives the role back.
pub parse_role-role_value : (r : Role) → parse_role (role_value r) ≡ some r
unfolding parse_role
parse_role-role_value owner = refl
parse_role-role_value _ = refl
