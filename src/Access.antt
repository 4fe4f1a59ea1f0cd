-- ===== src/Access.antt =====
-- persistence/context.py and auth/permissions.py: roles, the tenant context, run permissions and the
-- capability matrix.
mod Tests
mod Roles
mod Context
mod Permissions
pub mod Hierarchy
unfoldable pub use Roles.*
unfoldable pub use Context.*
unfoldable pub use Permissions.*
