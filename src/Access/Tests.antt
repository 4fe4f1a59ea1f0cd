-- ===== src/Access/Tests.antt =====
-- Runs of the permission checks, and their theorems at concrete inputs.
use untangle.Base.{◌≡◌, refl, ◌⊎◌, ◌↔◌, true, some}
use untangle.Base.Int.{pos, negsuc}
use untangle.Base.Flow.{ok, err}
use untangle.Access.{
  owner, admin, operator, reviewer, TenantContext, bad_organisation, run_mutation_denied,
  make_context, require_run_mutation, run_create, membership_mutate, enum, text, as_role,
  check_permission, require_permission, can_manage_target_role,
}
use untangle.Access.Hierarchy.{
  duties_separated, can_manage_target_role_bounded, require_permission_iff,
}

abbrev reviewer_context : TenantContext
reviewer_context = record {
  organisation_id = pos 4;
  principal_id = pos 9;
  role = reviewer;
  request_id = "";
}

context_refused : make_context (negsuc 0) (pos 9) reviewer "" ≡ err bad_organisation
unfolding make_context
context_refused = refl

reviewer_cannot_cancel : require_run_mutation reviewer_context "cancel" ≡ err run_mutation_denied
unfolding require_run_mutation
reviewer_cannot_cancel = refl

duties_separated_example : (admin ≡ owner) ⊎ (admin ≡ admin)
unfolding check_permission
duties_separated_example = duties_separated admin refl refl

can_manage_target_role_bounded_example :
    (check_permission (text "admin") membership_mutate ≡ true)
    × (as_role (enum operator) ≡ some owner → as_role (text "admin") ≡ some owner)
unfolding can_manage_target_role
can_manage_target_role_bounded_example =
    can_manage_target_role_bounded (text "admin") (enum operator) refl

require_permission_iff_example :
    (require_permission (some (text "auditor")) run_create ≡ ok tt)
    ↔ (check_permission (text "auditor") run_create ≡ true)
require_permission_iff_example = require_permission_iff (text "auditor") run_create
