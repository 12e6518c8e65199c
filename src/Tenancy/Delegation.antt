-- ===== src/Tenancy/Delegation.antt =====
-- What the permission table guarantees: separation of duties, and no escalation by delegation; and
-- where it agrees with the payment state machine.
use core_flow.Prelude.{◌≡◌, Bool, true, false, none, some, All, All-at, contains-Member, arith}
use core_flow.Roles.{OrgRole, OrgRole-discrete, org_role_eq}
use core_flow.Tenancy.Rbac.{
  Permission, Permission-discrete, permission_eq, grants, can, delegatable, can_assign_role,
  is_administrative,
}
use core_flow.Payments.Types.{
  PaymentState, ready_to_settle, submitting, submission_failed, cancelled, draft, ActorKind, Actor,
}
use core_flow.Payments.Check.{TransitionCheck, ok, fail, check_transition, state_machine}

-- A role that holds both halves of the dual approval is administrative: OWNER or ADMIN.
approvals_separate :
    (role : OrgRole)
    → can role Permission.payment_approve_manager ≡ true
    → can role Permission.payment_approve_finance ≡ true
    → is_administrative role ≡ true
unfolding can grants is_administrative Permission-discrete OrgRole-discrete
approvals_separate OrgRole.owner m f = ground arith
approvals_separate _ m f = ground arith

abbrev Within : OrgRole → OrgRole → Type 0
Within actor target = All (λ p. can actor p ≡ true) (grants target)

assign-Within : (actor target : OrgRole) → can_assign_role actor target ≡ true → Within actor target
unfolding can grants can_assign_role delegatable Permission-discrete OrgRole-discrete
assign-Within OrgRole.owner OrgRole.owner h = ground arith
assign-Within OrgRole.owner _ h = ground arith
assign-Within OrgRole.admin OrgRole.owner h = cc
assign-Within OrgRole.admin _ h = ground arith
assign-Within _ target h = cc

-- A role can be granted only by a role that holds every one of its permissions: delegation never
-- hands out authority that the granter lacks.
pub delegation_never_escalates :
    (actor target : OrgRole) (p : Permission)
    → can_assign_role actor target ≡ true
    → can target p ≡ true
    → can actor p ≡ true
unfolding can
delegation_never_escalates actor target p assigns holds =
    All-at (λ q. can actor q ≡ true) p (grants target) (assign-Within actor target assigns)
      (contains-Member p (grants target) holds)

-- A user in the role, as `actorFromMembership` makes one.
abbrev pub as_user : OrgRole → Actor
as_user role = record { kind = ActorKind.user; role = some role; address = none; system = none }

abbrev pub is_ok : TransitionCheck → Bool
is_ok (ok _) = true
is_ok (fail _) = false

-- The permissions to submit and to retry a payment are held by exactly the roles to which the state
-- machine admits the start of a settlement and the retry of a failed submission.
submit_matches_machine :
    (role : OrgRole)
    → (can role Permission.payment_submit
        ≡ is_ok (check_transition ready_to_settle submitting (as_user role)))
      × (can role Permission.payment_retry
          ≡ is_ok (check_transition submission_failed ready_to_settle (as_user role)))
unfolding can grants state_machine Permission-discrete OrgRole-discrete
submit_matches_machine OrgRole.owner = ground arith
submit_matches_machine _ = ground arith

-- FINANCE holds the permission to cancel a payment, and there is no state from which the state
-- machine admits its cancellation by that role.
finance_never_cancels :
    (from : PaymentState)
    → (can OrgRole.finance Permission.payment_cancel ≡ true)
      × (is_ok (check_transition from cancelled (as_user OrgRole.finance)) ≡ false)
unfolding can grants state_machine Permission-discrete OrgRole-discrete
finance_never_cancels draft = ground arith
finance_never_cancels _ = ground arith
