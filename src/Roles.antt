-- ===== src/Roles.antt =====
-- The roles that a member holds within an organization (`enum OrgRole` of prisma/schema.prisma).
use core_flow.Prelude.{Eq}

pub data OrgRole : Type 0 where
  owner admin manager finance worker viewer : OrgRole

unfoldable pub OrgRole-discrete : Discrete OrgRole
OrgRole-discrete = hlevel

instance abbrev pub org_role_eq : Eq OrgRole
org_role_eq = record { dec = OrgRole-discrete }
