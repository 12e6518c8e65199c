-- ===== src/Tenancy/Resolve.antt =====
-- The tenant boundary, src/lib/tenancy/resolve.ts, over in-memory tables. Prose is left out; a
-- denial keeps its status and its code. `member.org?.name` and the wallet are read through the
-- relations of the member row.
use core_flow.Prelude.{
  ℕ, String, Bool, true, Eq, List, Option, none, some, ◌==◌, string_eq, nat_eq, option_eq, ◌&&◌,
  any, map, filter, if◌then◌else◌,
}
use core_flow.Prelude.Table.{find_first}
use core_flow.Roles.{OrgRole}
use core_flow.Tenancy.Rbac.{Permission, can}

pub data MembershipStatus : Type 0 where
  invited active suspended removed : MembershipStatus

unfoldable pub MembershipStatus-discrete : Discrete MembershipStatus
MembershipStatus-discrete = hlevel

instance abbrev pub membership_status_eq : Eq MembershipStatus
membership_status_eq = record { dec = MembershipStatus-discrete }

pub record Organization : Type 0 where
  pub id : String
  pub name : String
  pub slug : String

pub record User : Type 0 where
  pub id : String
  pub wallet_address : String

pub record OrgMember : Type 0 where
  pub id : String
  pub org_id : String
  pub user_id : String
  pub role : OrgRole
  pub status : MembershipStatus
  pub invited_at : Option ℕ
  pub activated_at : Option ℕ
  pub suspended_at : Option ℕ
  pub removed_at : Option ℕ

pub data DenialCode : Type 0 where
  organization_required permission_denied role_escalation_refused last_administrator self_targeted
        invalid_membership_transition :
      DenialCode

pub record Denial : Type 0 where
  pub status : ℕ
  pub code : Option DenialCode

pub data Result {ℓ} (A : Type ℓ) : Type ℓ where
  allowed : A → Result A
  denied : Denial → Result A

pub record TenantContext : Type 0 where
  pub org_id : String
  pub org_name : String
  pub org_slug : String
  pub user_id : String
  pub wallet_address : String
  pub role : OrgRole

-- The tables that a membership is resolved from.
pub record Directory : Type 0 where
  pub organizations : List Organization
  pub users : List User
  pub members : List OrgMember

abbrev pub not_found : Denial
not_found = record { status = 404; code = none }

-- `!s`, for a text that may be missing.
abbrev pub is_missing : Option String → Bool
is_missing none = true
is_missing (some s) = s == ""

abbrev pub or_empty : Option String → String
or_empty none = ""
or_empty (some s) = s

abbrev pub org_of : Directory → String → Option Organization
org_of db id = find_first (λ (o : Organization). o.id == id) db.organizations

abbrev pub name_of : Option Organization → String
name_of none = ""
name_of (some o) = o.name

abbrev pub slug_of : Option Organization → String
slug_of none = ""
slug_of (some o) = o.slug

abbrev pub wallet_of : Directory → String → String
wallet_of db id = elim (find_first (λ (u : User). u.id == id) db.users) [
  | none ↦ ""
  | some u ↦ u.wallet_address
]

-- `where: { orgId_userId }`
abbrev pub is_member : String → String → OrgMember → Bool
is_member org user m = m.org_id == org && m.user_id == user

abbrev pub context_of : Directory → OrgMember → TenantContext
context_of db m = record {
  org_id = m.org_id;
  org_name = name_of (org_of db m.org_id);
  org_slug = slug_of (org_of db m.org_id);
  user_id = m.user_id;
  wallet_address = wallet_of db m.user_id;
  role = m.role;
}

unfoldable pub resolve_member : Directory → String → String → Result TenantContext
resolve_member db user org = elim (find_first (is_member org user) db.members) [
  | none ↦ denied not_found
  | some m ↦
      if m.status == MembershipStatus.active then allowed (context_of db m) else denied not_found
]

unfoldable pub resolve_tenant : Directory → Option String → Option String → Result TenantContext
resolve_tenant db user org =
    if is_missing user
    then denied (record { status = 401; code = none })
    else if is_missing org
    then denied (record { status = 400; code = some organization_required })
    else resolve_member db (or_empty user) (or_empty org)

pub record TenantRow : Type 0 where
  pub org_id : String
  pub name : String
  pub slug : String
  pub role : OrgRole

-- The rows are taken in the order of their creation, which is the order of the table.
unfoldable pub list_tenants : Directory → String → List TenantRow
list_tenants db user =
    map
      (λ (m : OrgMember). record {
        org_id = m.org_id;
        name = name_of (org_of db m.org_id);
        slug = slug_of (org_of db m.org_id);
        role = m.role;
      })
      (filter (λ (m : OrgMember). m.user_id == user && m.status == MembershipStatus.active)
        db.members)

abbrev pub lacks_permission : Denial
lacks_permission = record { status = 403; code = some permission_denied }

unfoldable pub require_permission : TenantContext → Permission → Option Denial
require_permission ctx p = if can ctx.role p then none else some lacks_permission

unfoldable pub require_any_permission : TenantContext → List Permission → Option Denial
require_any_permission ctx ps = if any (can ctx.role) ps then none else some lacks_permission

-- `scoped`: a row of a tenant-owned table, by id and organization. The type of row is a parameter,
-- with its two columns, as the model's name is one of the source.
unfoldable pub scoped :
    {R : Type 0} → (R → String) → (R → String) → List R → TenantContext → String → Result R
scoped id_of org_of rows ctx id =
    elim (find_first (λ r. id_of r == id && org_of r == ctx.org_id) rows) [
      | some r ↦ allowed r
      | none ↦ denied not_found
    ]

pub data PaymentScope : Type 0 where
  whole_org : (org_id : String) → PaymentScope
  own_wallet : (org_id recipient_address : String) → PaymentScope

unfoldable pub payment_read_scope : TenantContext → PaymentScope
payment_read_scope ctx =
    if can ctx.role Permission.payment_read
    then whole_org ctx.org_id
    else own_wallet ctx.org_id ctx.wallet_address

-- `findEscrowByOnChainId`, with the two columns of an escrow.
unfoldable pub find_escrow_by_on_chain_id :
    {R : Type 0} → (R → Option ℕ) → (R → String) → List R → TenantContext → ℕ → Result R
find_escrow_by_on_chain_id chain_id_of org_of rows ctx id =
    elim (find_first (λ r. chain_id_of r == some id && org_of r == ctx.org_id) rows) [
      | some r ↦ allowed r
      | none ↦ denied not_found
    ]

-- `assertProjectInTenant`: a project that is not given is accepted.
unfoldable pub assert_project_in_tenant :
    {R : Type 0}
    → (R → String)
    → (R → String)
    → List R
    → TenantContext
    → Option String
    → Option Denial
assert_project_in_tenant id_of org_of rows ctx project =
    if is_missing project then none else elim (scoped id_of org_of rows ctx (or_empty project)) [
      | allowed r ↦ none
      | denied d ↦ some d
    ]
