-- ===== src/Tenancy/Tests.antt =====
-- Runs of the tenant boundary on small tables, and its theorems at inputs that meet their
-- hypotheses.
use core_flow.Prelude.{
  ◌<◌, ◌≢◌, ap, ◌==◌, string_eq, ℕ_discrete, String, ◌≡◌, refl, inr, true, false, [], ◌∷◌, none,
  some, Member, string_discrete, arith,
}
use core_flow.Prelude.Table.{Rows}
use core_flow.Roles.{OrgRole, OrgRole-discrete}
use core_flow.Tenancy.Rbac.{
  Permission, Permission-discrete, grants, can, delegatable, can_assign_role,
}
use core_flow.Tenancy.Delegation.{delegation_never_escalates}
use core_flow.Tenancy.Resolve.{
  MembershipStatus, MembershipStatus-discrete, OrgMember, TenantContext, denied, not_found,
}
use core_flow.Tenancy.Membership.{
  Invitation, AcceptableInvitation, Roster, judge_invitation, resolve_invitation, join,
  claim_invitation,
}
use core_flow.Tenancy.Members.{absent, value, Members, patch_member, delete_member}
use core_flow.Tenancy.LastAdmin.{admins, UniqueIds}
use core_flow.Tenancy.MemberGuards.{patch_member_keeps_admin, delete_member_keeps_admin}
use core_flow.Tenancy.Invitations.{
  NotReissued, IsUsable, Keeps, claim_invitation_once, resolve_invitation_sound,
  claim_invitation-Keeps,
}

delegation_never_escalates_example : can OrgRole.admin Permission.payment_approve_finance ≡ true
unfolding can grants can_assign_role delegatable Permission-discrete OrgRole-discrete
delegation_never_escalates_example =
    delegation_never_escalates OrgRole.admin OrgRole.finance Permission.payment_approve_finance refl
      refl

abbrev member : String → String → OrgRole → OrgMember
member id user role = record {
  id = id;
  org_id = "org_a";
  user_id = user;
  role = role;
  status = MembershipStatus.active;
  invited_at = none;
  activated_at = some 1;
  suspended_at = none;
  removed_at = none;
}

abbrev staff : Members
staff = record {
  rows = member "m1" "u1" OrgRole.owner ∷ member "m2" "u2" OrgRole.admin ∷ [];
  events = [];
}

abbrev admin_context : TenantContext
admin_context = record {
  org_id = "org_a";
  org_name = "A";
  org_slug = "a";
  user_id = "u2";
  wallet_address = "GADMIN";
  role = OrgRole.admin;
}

staff-UniqueIds : UniqueIds staff.rows
unfolding string_discrete
staff-UniqueIds = (refl, (refl, tt))

staff-admins : 0 < admins "org_a" staff
unfolding string_discrete MembershipStatus-discrete OrgRole-discrete
staff-admins = omega arith

-- An administrator makes an owner a viewer.
patch_member_keeps_admin_example :
    0
    < admins "org_a"
        (patch_member 9 admin_context "org_a" "m1" (value OrgRole.viewer) absent staff).1
patch_member_keeps_admin_example =
    patch_member_keeps_admin 9 admin_context "org_a" "m1" (value OrgRole.viewer) absent staff
      staff-UniqueIds staff-admins

delete_member_keeps_admin_example :
    0 < admins "org_a" (delete_member 9 admin_context "org_a" "m1" staff).1
delete_member_keeps_admin_example =
    delete_member_keeps_admin 9 admin_context "org_a" "m1" staff staff-UniqueIds staff-admins

abbrev invitation : Invitation
invitation = record {
  id = "i1";
  org_id = "org_a";
  token_hash = "h";
  org_role = OrgRole.finance;
  email = "f@a";
  revoked_at = none;
  used_at = none;
  expires_at = 100;
}

abbrev offer : AcceptableInvitation
offer = record { id = "i1"; org_id = "org_a"; org_role = OrgRole.finance; email = "f@a" }

abbrev roster : Roster
roster = record {
  members = member "m1" "u1" OrgRole.owner ∷ [];
  invitations = invitation ∷ [];
  audit_events = [];
}

-- The invitation, used and later revoked, and another one.
abbrev spent_invitation : Invitation
spent_invitation = record invitation { used_at = some 50 }

abbrev revoked_later : Invitation
revoked_later = record spent_invitation { revoked_at = some 60 }

abbrev another_invitation : Invitation
another_invitation = record invitation { id = "i2"; token_hash = "h2" }

abbrev later_roster : Roster
later_roster = record roster { invitations = revoked_later ∷ another_invitation ∷ [] }

claims : (claim_invitation "m2" 50 offer "u2" "G2" roster).1.invitations ≡ spent_invitation ∷ []
unfolding claim_invitation join string_discrete ℕ_discrete
claims = refl

kept_spent :
    Rows
      (NotReissued "i1")
      (claim_invitation "m2" 50 offer "u2" "G2" roster).1.invitations
      (revoked_later ∷ [])
kept_spent = rw claims ((refl, inr ((λ h. absurd (cc h)), (λ h. absurd (cc h)))), tt)

two_ids : another_invitation.id ≢ offer.id
unfolding string_discrete
two_ids h = let e : false ≡ true = ap (λ (s : String). s == "i1") h in cc

claim_invitation_once_example :
    claim_invitation "m3" 70 offer "u3" "G3" later_roster ≡ (denied not_found, later_roster)
claim_invitation_once_example =
    claim_invitation_once "m2" "m3" 50 70 offer "u2" "u3" "G2" "G3" roster later_roster
      (revoked_later ∷ []) (another_invitation ∷ []) kept_spent (two_ids, tt) refl

resolve_invitation_sound_example :
    (i : Invitation) × Member i (invitation ∷ []) × IsUsable "h" 50 i offer
unfolding resolve_invitation judge_invitation string_discrete
resolve_invitation_sound_example = resolve_invitation_sound (invitation ∷ []) "h" 50 offer refl

claim_invitation-Keeps_example :
    Keeps offer "u2" roster.members (claim_invitation "m2" 50 offer "u2" "G2" roster).1.members
claim_invitation-Keeps_example = claim_invitation-Keeps "m2" 50 offer "u2" "G2" roster
