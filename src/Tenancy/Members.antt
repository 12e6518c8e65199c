-- ===== src/Tenancy/Members.antt =====
-- `PATCH` and `DELETE` of src/app/api/organizations/[id]/members/[memberId]/route.ts, behind the
-- resolution of the tenant: `ctx` is the caller's, `org` and `id` are the parameters of the path.
-- Each runs with nothing between its guards and its write; in the code the guards read outside the
-- transaction of the write, so that two requests at once are outside this model.
use core_flow.Prelude.{
  ℕ, String, Bool, true, false, List, [], ◌∷◌, ◌++◌, Option, none, some, ◌==◌, string_eq, ◌&&◌,
  ◌||◌, not, contains, if◌then◌else◌,
}
use core_flow.Prelude.Table.{find_first, update, create}
use core_flow.Roles.{OrgRole, org_role_eq}
use core_flow.Tenancy.Rbac.{Permission, can, administrative_roles}
use core_flow.Tenancy.Resolve.{
  MembershipStatus, membership_status_eq, OrgMember, Denial, permission_denied,
  invalid_membership_transition, TenantContext, not_found,
}
use core_flow.Tenancy.Membership.{
  can_transition_membership, check_role_assignment, check_not_last_administrator, check_not_self,
}

-- A field of the body: missing, a text that names nothing, or a value.
pub data Wanted (A : Type 0) : Type 0 where
  absent unknown : Wanted A
  value : A → Wanted A

-- An audit row of a membership change: its type, and what changed.
pub data MemberEvent : Type 0 where
  role_changed : (org actor target member : String) (from to : OrgRole) → MemberEvent
  status_changed : (org actor target member : String) (from to : MembershipStatus) → MemberEvent
  member_removed : (org actor target member : String) (role : OrgRole) → MemberEvent

pub record Members : Type 0 where
  pub rows : List OrgMember
  pub events : List MemberEvent

pub data Reply : Type 0 where
  refused : Denial → Reply
  updated : OrgMember → Reply
  removed : Reply

abbrev pub bad_request : Denial
bad_request = record { status = 400; code = none }

unfoldable pub requires_admin_cover : MembershipStatus → Bool
requires_admin_cover status =
    status == MembershipStatus.suspended || status == MembershipStatus.removed

-- The guards on a change of role.
unfoldable pub role_guard :
    TenantContext → List OrgMember → OrgMember → Wanted OrgRole → Option Denial
role_guard ctx rows m absent = none
role_guard ctx rows m unknown = some bad_request
role_guard ctx rows m (value role) = elim (check_role_assignment ctx role) [
  | some d ↦ some d
  | none ↦
      if not (m.role == role) && not (contains role administrative_roles)
      then check_not_last_administrator rows ctx.org_id m
      else none
]

unfoldable pub status_guard :
    TenantContext → List OrgMember → OrgMember → Wanted MembershipStatus → Option Denial
status_guard ctx rows m absent = none
status_guard ctx rows m unknown = some bad_request
status_guard ctx rows m (value status) =
    if not (can_transition_membership m.status status)
    then some (record { status = 409; code = some invalid_membership_transition })
    else elim (if requires_admin_cover status
        then check_not_last_administrator rows ctx.org_id m
        else none) [
          | some d ↦ some d
          | none ↦
              if can ctx.role (
                if status == MembershipStatus.removed
                then Permission.member_remove
                else Permission.member_suspend)
              then none
              else some (record { status = 403; code = some permission_denied })
        ]

abbrev pub set_role : Wanted OrgRole → OrgMember → OrgMember
set_role (value role) m = record m { role = role }
set_role _ m = m

abbrev pub set_status : ℕ → Wanted MembershipStatus → OrgMember → OrgMember
set_status now (value MembershipStatus.invited) m = record m { status = MembershipStatus.invited }
set_status now (value MembershipStatus.active) m = record m {
  status = MembershipStatus.active;
  activated_at = some now;
  suspended_at = none;
}
set_status now (value MembershipStatus.suspended) m = record m {
  status = MembershipStatus.suspended;
  suspended_at = some now;
}
set_status now (value MembershipStatus.removed) m = record m {
  status = MembershipStatus.removed;
  removed_at = some now;
}
set_status now _ m = m

abbrev pub role_events : TenantContext → OrgMember → Wanted OrgRole → List MemberEvent
role_events ctx m (value role) =
    if role == m.role
    then []
    else role_changed ctx.org_id ctx.wallet_address m.user_id m.id m.role role ∷ []
role_events ctx m _ = []

abbrev pub status_events : TenantContext → OrgMember → Wanted MembershipStatus → List MemberEvent
status_events ctx m (value status) =
    if status == m.status
    then []
    else status_changed ctx.org_id ctx.wallet_address m.user_id m.id m.status status ∷ []
status_events ctx m _ = []

abbrev pub with_id : String → OrgMember → Bool
with_id id m = m.id == id

-- `loadMember`
abbrev pub in_tenant : String → String → OrgMember → Bool
in_tenant id org m = m.id == id && m.org_id == org

abbrev pub asks_nothing : Wanted OrgRole → Wanted MembershipStatus → Bool
asks_nothing absent absent = true
asks_nothing _ _ = false

unfoldable pub write_member :
    ℕ
    → TenantContext
    → OrgMember
    → Wanted OrgRole
    → Wanted MembershipStatus
    → Members
    → Reply × Members
write_member now ctx m role status db =
    let change = λ (r : OrgMember). set_status now status (set_role role r) in
    (
      updated (change m),
      record db {
        rows = update (with_id m.id) change db.rows;
        events = db.events ++ (role_events ctx m role ++ status_events ctx m status);
      },
    )

unfoldable pub patch_found :
    ℕ
    → TenantContext
    → OrgMember
    → Wanted OrgRole
    → Wanted MembershipStatus
    → Members
    → Reply × Members
patch_found now ctx m role status db = elim (check_not_self ctx m.user_id) [
  | some d ↦ (refused d, db)
  | none ↦
      if asks_nothing role status
      then (refused bad_request, db)
      else elim (role_guard ctx db.rows m role) [
        | some d ↦ (refused d, db)
        | none ↦ elim (status_guard ctx db.rows m status) [
          | some d ↦ (refused d, db)
          | none ↦ write_member now ctx m role status db
        ]
      ]
]

unfoldable pub patch_member :
    ℕ
    → TenantContext
    → (org id : String) → Wanted OrgRole
    → Wanted MembershipStatus
    → Members
    → Reply × Members
patch_member now ctx org id role status db =
    if not (ctx.org_id == org)
    then (refused not_found, db)
    else elim (find_first (in_tenant id ctx.org_id) db.rows) [
      | none ↦ (refused not_found, db)
      | some m ↦ patch_found now ctx m role status db
    ]

unfoldable pub delete_found : ℕ → TenantContext → OrgMember → Members → Reply × Members
delete_found now ctx m db = elim (check_not_self ctx m.user_id) [
  | some d ↦ (refused d, db)
  | none ↦ elim (check_not_last_administrator db.rows ctx.org_id m) [
    | some d ↦ (refused d, db)
    | none ↦
        if not (can_transition_membership m.status MembershipStatus.removed)
        then (refused (record { status = 409; code = some invalid_membership_transition }), db)
        else (
          removed,
          record db {
            rows = update (with_id m.id) (set_status now (value MembershipStatus.removed)) db.rows;
            events =
                create (member_removed ctx.org_id ctx.wallet_address m.user_id m.id m.role)
                  db.events;
          },
        )
  ]
]

-- `withTenant` asks for the permission first.
unfoldable pub delete_member : ℕ → TenantContext → (org id : String) → Members → Reply × Members
delete_member now ctx org id db =
    if not (can ctx.role Permission.member_remove)
    then (refused (record { status = 403; code = some permission_denied }), db)
    else if not (ctx.org_id == org)
    then (refused not_found, db)
    else elim (find_first (in_tenant id ctx.org_id) db.rows) [
      | none ↦ (refused not_found, db)
      | some m ↦ delete_found now ctx m db
    ]
