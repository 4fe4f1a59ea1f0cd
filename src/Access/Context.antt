-- ===== src/Access/Context.antt =====
-- persistence/context.py: the tenant context and the permissions on financial runs.
use untangle.Base.{⊤, String, Bool, List, [], ◌∷◌, none, some, if◌then◌else◌}
use untangle.Base.Int.{ℤ, pos, leb_ℤ}
use untangle.Base.Keys.{Dict, lookup, string_eq}
use untangle.Base.Flow.{Result, ok, err, ◌>>=◌}
use untangle.Access.Roles.{Role, owner, admin, operator, in_roles}

-- `RUN_PERMISSIONS`
abbrev pub run_permissions : Dict String (List Role)
run_permissions =
    ("create", owner ∷ admin ∷ operator ∷ [])
    ∷ ("complete", owner ∷ admin ∷ operator ∷ [])
    ∷ ("fail", owner ∷ admin ∷ operator ∷ [])
    ∷ ("cancel", owner ∷ admin ∷ operator ∷ [])
    ∷ ("delete", owner ∷ admin ∷ [])
    ∷ ("legal_hold", owner ∷ admin ∷ [])
    ∷ []

pub record TenantContext : Type 0 where
  pub organisation_id : ℤ
  pub principal_id : ℤ
  pub role : Role
  pub request_id : String

pub data ContextError : Type 0 where
  bad_organisation bad_principal unknown_mutation run_mutation_denied : ContextError

-- `TenantContext(...)` with the checks of `__post_init__`. The tests on types hold by typing.
unfoldable pub make_context : ℤ → ℤ → Role → String → Result ContextError TenantContext
make_context organisation principal role request =
    if leb_ℤ organisation (pos 0)
    then err bad_organisation
    else if leb_ℤ principal (pos 0)
    then err bad_principal
    else ok (record {
      organisation_id = organisation;
      principal_id = principal;
      role = role;
      request_id = request;
    })

unfoldable pub has_role : TenantContext → List Role → Bool
has_role c allowed = in_roles c.role allowed

unfoldable pub can_mutate_run : TenantContext → String → Result ContextError Bool
can_mutate_run c action = elim (lookup action run_permissions) [
  | none ↦ err unknown_mutation
  | some allowed ↦ ok (in_roles c.role allowed)
]

unfoldable pub require_run_mutation : TenantContext → String → Result ContextError ⊤
unfolding can_mutate_run
require_run_mutation c action = do
  allowed ← can_mutate_run c action
  if allowed then ok tt else err run_mutation_denied
