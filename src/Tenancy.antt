-- ===== src/Tenancy.antt =====
-- The tenant boundary, src/lib/tenancy and the member routes: roles, membership, scoping.
pub mod Rbac
pub mod Delegation
pub mod Resolve
pub mod Membership
pub mod Members
pub mod LastAdmin
pub mod MemberGuards
pub mod Invitations
mod Tests
