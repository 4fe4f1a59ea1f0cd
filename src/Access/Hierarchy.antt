-- ===== src/Access/Hierarchy.antt =====
-- What the capability matrix and the role checks guarantee.
use untangle.Base.{◌≡◌, refl, ◌⊎◌, inl, inr, ◌↔◌, String, true, some, Option-cases, arith}
use untangle.Base.Flow.{ok}
use untangle.Access.Roles.{Role, owner, admin, operator, reviewer, auditor, in_roles, parse_role}
use untangle.Access.Context.{TenantContext, can_mutate_run}
use untangle.Access.Permissions.{
  Action, run_create, run_abort, run_delete, certificate_issue, membership_mutate, RoleArg, enum,
  text, as_role, capability_matrix, check_permission, require_permission, manages,
  can_manage_target_role,
}

-- `r` may do all that `s` may do.
abbrev Above : Role → Role → Type 0
Above r s = (a : Action) → check_permission (enum s) a ≡ true → check_permission (enum r) a ≡ true

-- The capabilities form a hierarchy: owner above admin, admin above operator and reviewer, and each of
-- these above auditor.
pub capabilities_hierarchy :
    Above owner admin
    × Above admin operator
    × Above admin reviewer
    × Above operator auditor
    × Above reviewer auditor
unfolding check_permission
capabilities_hierarchy = (
  λ a h. ground arith,
  λ a h. ground arith,
  λ a h. ground arith,
  λ a h. ground arith,
  λ a h. ground arith,
)

-- Preparing a run and certifying it are separate duties: only an owner or an admin may do both.
pub duties_separated :
    (r : Role)
    → check_permission (enum r) run_create ≡ true
    → check_permission (enum r) certificate_issue ≡ true
    → (r ≡ owner) ⊎ (r ≡ admin)
unfolding check_permission
duties_separated owner h k = inl refl
duties_separated admin h k = inr refl
duties_separated operator h k = cc
duties_separated reviewer h k = cc
duties_separated auditor h k = cc

-- A text grants what the role of that value grants, and a text that is no role grants nothing.
pub check_permission-text :
    (s : String) (a : Action)
    → check_permission (text s) a ≡ true
    → (r : Role) × (parse_role s ≡ some r) × (check_permission (enum r) a ≡ true)
unfolding check_permission
check_permission-text s a h = elim (Option-cases (parse_role s)) [
  | inl e ↦ cc (rw (e, check_permission) at h)
  | inr (r, e) ↦ (r, e, rw (e, check_permission) at h)
]

-- The table of run mutations agrees with the capability matrix where both speak of an operation.
pub run_permissions_agree :
    (c : TenantContext)
    → (can_mutate_run c "create" ≡ ok (check_permission (enum c.role) run_create))
      × (can_mutate_run c "cancel" ≡ ok (check_permission (enum c.role) run_abort))
      × (can_mutate_run c "delete" ≡ ok (check_permission (enum c.role) run_delete))
unfolding can_mutate_run check_permission
run_permissions_agree c = (refl, refl, refl)

manages_bounded :
    (a t : Role)
    → manages a t ≡ true
    → (in_roles a (capability_matrix membership_mutate) ≡ true) × (t ≡ owner → a ≡ owner)
unfolding capability_matrix
manages_bounded owner t h = (refl, λ _. refl)
manages_bounded admin owner h = cc
manages_bounded admin t h = (refl, λ e. cc)
manages_bounded _ t h = cc

-- Whoever can manage a role may mutate memberships, and only an owner can manage an owner.
pub can_manage_target_role_bounded :
    (actor target : RoleArg)
    → can_manage_target_role actor target ≡ true
    → (check_permission actor membership_mutate ≡ true)
      × (as_role target ≡ some owner → as_role actor ≡ some owner)
unfolding can_manage_target_role check_permission
can_manage_target_role_bounded actor target h = elim (Option-cases (as_role actor)) [
  | inl e ↦ cc (rw (e, can_manage_target_role) at h)
  | inr (a, e) ↦ elim (Option-cases (as_role target)) [
    | inl f ↦ cc (rw (e, f, can_manage_target_role) at h)
    | inr (t, f) ↦
        let (may, only) = manages_bounded a t (rw (e, f, can_manage_target_role) at h) in
        (rw (e, check_permission) may, λ o. rw (e, only (cc)))
  ]
]

-- `require_permission` returns exactly for the roles that `check_permission` admits.
pub require_permission_iff :
    (role : RoleArg) (a : Action)
    → (require_permission (some role) a ≡ ok tt) ↔ (check_permission role a ≡ true)
unfolding require_permission
require_permission_iff role a = (λ h. ground arith, λ h. ground arith)
