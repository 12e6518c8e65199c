-- ===== src/Tenancy/Rbac.antt =====
-- The permission table of src/lib/tenancy/rbac.ts.
use core_flow.Prelude.{Bool, Eq, List, [], ◌∷◌, contains, any, all}
use core_flow.Roles.{OrgRole, org_role_eq}

pub data Permission : Type 0 where
  org_read org_update org_delete member_read member_invite member_role_assign member_suspend
        member_remove project_read project_create project_update project_archive worker_read
        worker_create worker_update worker_archive payroll_read payroll_create payroll_update
        payroll_delete payment_read payment_approve_manager payment_approve_finance payment_reject
        payment_cancel payment_submit payment_retry escrow_read escrow_create escrow_cancel
        oracle_attest_request treasury_read audit_read reconciliation_read reconciliation_resolve :
      Permission

unfoldable pub Permission-discrete : Discrete Permission
Permission-discrete = hlevel

instance abbrev pub permission_eq : Eq Permission
permission_eq = record { dec = Permission-discrete }

-- Everything that a role may do.
unfoldable pub grants : OrgRole → List Permission
grants OrgRole.owner =
    org_read ∷ org_update ∷ org_delete ∷ member_read ∷ member_invite ∷ member_role_assign
    ∷ member_suspend ∷ member_remove ∷ project_read ∷ project_create ∷ project_update
    ∷ project_archive ∷ worker_read ∷ worker_create ∷ worker_update ∷ worker_archive ∷ payroll_read
    ∷ payroll_create ∷ payroll_update ∷ payroll_delete ∷ payment_read ∷ payment_approve_manager
    ∷ payment_approve_finance ∷ payment_reject ∷ payment_cancel ∷ payment_submit ∷ payment_retry
    ∷ escrow_read ∷ escrow_create ∷ escrow_cancel ∷ oracle_attest_request ∷ treasury_read
    ∷ audit_read ∷ reconciliation_read ∷ reconciliation_resolve ∷ []
grants OrgRole.admin =
    org_read ∷ org_update ∷ member_read ∷ member_invite ∷ member_role_assign ∷ member_suspend
    ∷ member_remove ∷ project_read ∷ project_create ∷ project_update ∷ project_archive ∷ worker_read
    ∷ worker_create ∷ worker_update ∷ worker_archive ∷ payroll_read ∷ payroll_create
    ∷ payroll_update ∷ payroll_delete ∷ payment_read ∷ payment_approve_manager
    ∷ payment_approve_finance ∷ payment_reject ∷ payment_cancel ∷ payment_submit ∷ payment_retry
    ∷ escrow_read ∷ escrow_create ∷ escrow_cancel ∷ oracle_attest_request ∷ treasury_read
    ∷ audit_read ∷ reconciliation_read ∷ reconciliation_resolve ∷ []
grants OrgRole.manager =
    org_read ∷ member_read ∷ project_read ∷ worker_read ∷ worker_create ∷ worker_update
    ∷ payroll_read ∷ payroll_create ∷ payroll_update ∷ payment_read ∷ payment_approve_manager
    ∷ payment_reject ∷ payment_cancel ∷ payment_submit ∷ payment_retry ∷ escrow_read ∷ escrow_create
    ∷ oracle_attest_request ∷ treasury_read ∷ audit_read ∷ reconciliation_read ∷ []
grants OrgRole.finance =
    org_read ∷ member_read ∷ project_read ∷ worker_read ∷ payroll_read ∷ payment_read
    ∷ payment_approve_finance ∷ payment_reject ∷ payment_cancel ∷ payment_submit ∷ payment_retry
    ∷ escrow_read ∷ treasury_read ∷ audit_read ∷ reconciliation_read ∷ []
grants OrgRole.worker = []
grants OrgRole.viewer =
    org_read ∷ member_read ∷ project_read ∷ worker_read ∷ payroll_read ∷ payment_read ∷ escrow_read
    ∷ treasury_read ∷ audit_read ∷ reconciliation_read ∷ []

unfoldable pub can : OrgRole → Permission → Bool
can role permission = contains permission (grants role)

unfoldable pub can_all : OrgRole → List Permission → Bool
can_all role permissions = all (can role) permissions

unfoldable pub can_any : OrgRole → List Permission → Bool
can_any role permissions = any (can role) permissions

-- The roles that a role may grant.
unfoldable pub delegatable : OrgRole → List OrgRole
delegatable OrgRole.owner =
    OrgRole.owner ∷ OrgRole.admin ∷ OrgRole.manager ∷ OrgRole.finance ∷ OrgRole.worker
    ∷ OrgRole.viewer ∷ []
delegatable OrgRole.admin =
    OrgRole.admin ∷ OrgRole.manager ∷ OrgRole.finance ∷ OrgRole.worker ∷ OrgRole.viewer ∷ []
delegatable _ = []

unfoldable pub can_assign_role : OrgRole → OrgRole → Bool
can_assign_role actor target = contains target (delegatable actor)

abbrev pub administrative_roles : List OrgRole
administrative_roles = OrgRole.owner ∷ OrgRole.admin ∷ []

unfoldable pub is_administrative : OrgRole → Bool
is_administrative role = contains role administrative_roles
