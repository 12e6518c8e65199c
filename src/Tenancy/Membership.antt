-- ===== src/Tenancy/Membership.antt =====
-- Membership and invitations, src/lib/tenancy/membership.ts. The hash of a token and the constant-
-- time comparison are Node's crypto: the hash is a parameter, the comparison is equality of texts.
use core_flow.Prelude.{
  ℕ, String, Bool, true, false, List, [], ◌∷◌, Option, none, some, ◌==◌, string_eq, nat_eq, ◌&&◌,
  not, contains, option_eq, leb, if◌then◌else◌,
}
use core_flow.Prelude.Table.{find_first, count, create, update, update_rows}
use core_flow.Roles.{OrgRole}
use core_flow.Tenancy.Rbac.{Permission, can_assign_role, is_administrative, administrative_roles}
use core_flow.Tenancy.Resolve.{
  MembershipStatus, membership_status_eq, OrgMember, Denial, Result, allowed, denied, TenantContext,
  not_found, role_escalation_refused, last_administrator, self_targeted, require_permission,
  is_member,
}
use core_flow.Roles.{org_role_eq}

unfoldable pub membership_transitions : MembershipStatus → List MembershipStatus
membership_transitions MembershipStatus.invited =
    MembershipStatus.active ∷ MembershipStatus.removed ∷ []
membership_transitions MembershipStatus.active =
    MembershipStatus.suspended ∷ MembershipStatus.removed ∷ []
membership_transitions MembershipStatus.suspended =
    MembershipStatus.active ∷ MembershipStatus.removed ∷ []
membership_transitions MembershipStatus.removed = []

unfoldable pub can_transition_membership : MembershipStatus → MembershipStatus → Bool
can_transition_membership from to = contains to (membership_transitions from)

unfoldable pub check_role_assignment : TenantContext → OrgRole → Option Denial
check_role_assignment ctx target = elim (require_permission ctx Permission.member_role_assign) [
  | some d ↦ some d
  | none ↦
      if can_assign_role ctx.role target
      then none
      else some (record { status = 403; code = some role_escalation_refused })
]

-- The active administrators of the organization other than the member with this id.
abbrev pub is_other_admin : String → String → OrgMember → Bool
is_other_admin org id m =
    m.org_id == org
    && m.status == MembershipStatus.active
    && contains m.role administrative_roles
    && not (m.id == id)

unfoldable pub check_not_last_administrator : List OrgMember → String → OrgMember → Option Denial
check_not_last_administrator members org member =
    if not (is_administrative member.role)
    then none
    else if not (member.status == MembershipStatus.active)
    then none
    else if count (is_other_admin org member.id) members == 0
    then some (record { status = 409; code = some last_administrator })
    else none

unfoldable pub check_not_self : TenantContext → String → Option Denial
check_not_self ctx target =
    if ctx.user_id == target
    then some (record { status = 409; code = some self_targeted })
    else none

pub record Invitation : Type 0 where
  pub id : String
  pub org_id : String
  pub token_hash : String
  pub org_role : OrgRole
  pub email : String
  pub revoked_at : Option ℕ
  pub used_at : Option ℕ
  pub expires_at : ℕ

pub data InvitationRejection : Type 0 where
  missing expired already_used revoked : InvitationRejection

pub record AcceptableInvitation : Type 0 where
  pub id : String
  pub org_id : String
  pub org_role : OrgRole
  pub email : String

pub data Resolution : Type 0 where
  acceptable : AcceptableInvitation → Resolution
  refused : InvitationRejection → Resolution

pub record MembershipAudit : Type 0 where
  pub org_id : String
  pub type : String
  pub actor_address : String
  pub target_user_id : String
  pub invitation_id : String
  pub role : OrgRole

pub record Roster : Type 0 where
  pub members : List OrgMember
  pub invitations : List Invitation
  pub audit_events : List MembershipAudit

abbrev pub is_set : Option ℕ → Bool
is_set none = false
is_set (some t) = true

unfoldable pub judge_invitation : String → ℕ → Invitation → Resolution
judge_invitation hash now i =
    if not (i.token_hash == hash)
    then refused missing
    else if is_set i.revoked_at
    then refused revoked
    else if is_set i.used_at
    then refused already_used
    else if leb i.expires_at now
    then refused expired
    else acceptable
        (record { id = i.id; org_id = i.org_id; org_role = i.org_role; email = i.email })

-- `hash` is the digest of the plaintext token.
unfoldable pub resolve_invitation : List Invitation → String → ℕ → Resolution
resolve_invitation invitations hash now =
    elim (find_first (λ (i : Invitation). i.token_hash == hash) invitations) [
      | none ↦ refused missing
      | some i ↦ judge_invitation hash now i
    ]

-- `where: { id, usedAt: null, revokedAt: null }`
abbrev pub is_claimable : String → Invitation → Bool
is_claimable id i = i.id == id && not (is_set i.used_at) && not (is_set i.revoked_at)

pub record Joined : Type 0 where
  pub org_id : String
  pub role : OrgRole

abbrev pub reactivate : ℕ → OrgMember → OrgMember
reactivate now m = record m {
  status = MembershipStatus.active;
  activated_at = some now;
  suspended_at = none;
}

abbrev pub audit_of : AcceptableInvitation → String → String → String → OrgRole → MembershipAudit
audit_of i type wallet user role = record {
  org_id = i.org_id;
  type = type;
  actor_address = wallet;
  target_user_id = user;
  invitation_id = i.id;
  role = role;
}

-- A member who is there already: the role is never overwritten.
unfoldable pub rejoin :
    ℕ → AcceptableInvitation → String → String → OrgMember → Roster → Result Joined × Roster
rejoin now i user wallet m db =
    if m.status == MembershipStatus.active
    then (allowed (record { org_id = i.org_id; role = m.role }), db)
    else if m.status == MembershipStatus.removed
    then (denied (record { status = 403; code = none }), db)
    else (
      allowed (record { org_id = i.org_id; role = m.role }),
      record db {
        members = update (λ (r : OrgMember). r.id == m.id) (reactivate now) db.members;
        audit_events = create (audit_of i "member.reactivated" wallet user m.role) db.audit_events;
      },
    )

-- `id` is the identifier that the database gives the new row.
unfoldable pub join :
    String → ℕ → AcceptableInvitation → String → String → Roster → Result Joined × Roster
join id now i user wallet db = (
  allowed (record { org_id = i.org_id; role = i.org_role }),
  record db {
    members =
        create
          (record {
            id = id;
            org_id = i.org_id;
            user_id = user;
            role = i.org_role;
            status = MembershipStatus.active;
            invited_at = some now;
            activated_at = some now;
            suspended_at = none;
            removed_at = none;
          })
          db.members;
    audit_events = create (audit_of i "invitation.accepted" wallet user i.org_role) db.audit_events;
  },
)

abbrev pub claim : ℕ → Invitation → Invitation
claim now i = record i { used_at = some now }

-- The transaction of `acceptInvitation`, over the tables as they are when it runs.
unfoldable pub claim_invitation :
    String → ℕ → AcceptableInvitation → String → String → Roster → Result Joined × Roster
claim_invitation id now i user wallet db =
    if count (is_claimable i.id) db.invitations == 0
    then (denied not_found, db)
    else let claimed = record db {
      invitations = update_rows (is_claimable i.id) (claim now) db.invitations;
    } in
      elim (find_first (is_member i.org_id user) db.members) [
        | some m ↦ rejoin now i user wallet m claimed
        | none ↦ join id now i user wallet claimed
      ]

-- `seen` is the table of invitations that was read, `db` the tables that are written.
unfoldable pub accept_invitation :
    String → ℕ → String → String → String → List Invitation → Roster → Result Joined × Roster
accept_invitation id now hash user wallet seen db = elim (resolve_invitation seen hash now) [
  | refused _ ↦ (denied not_found, db)
  | acceptable i ↦ claim_invitation id now i user wallet db
]
