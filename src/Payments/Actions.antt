-- ===== src/Payments/Actions.antt =====
-- The business actions of src/lib/payments/actions.ts: the approval by what it reads (`seen`) and
-- what it writes (`db`), and the others each run with no other request between their reads and
-- their writes. `none` is an error of the database, which the route answers with a 500.
-- Prose (messages and notes) is left out.
use core_flow.Prelude.{
  ℕ, String, Bool, true, false, [], ◌∷◌, Option, none, some, ◌==◌, string_eq, option_eq, nat_eq,
  ◌&&◌, ◌||◌, not, any, if◌then◌else◌,
}
use core_flow.Prelude.Table.{find_first, create}
use core_flow.Roles.{OrgRole, org_role_eq}
use core_flow.Tenancy.Resolve.{TenantContext, Result, allowed, denied, scoped}
use core_flow.Payments.Types.{PaymentState, awaiting_finance, payment_state_eq, ActorKind, Actor}
use core_flow.Payments.Store.{
  Payment, Approval, ApprovalDecision, tx_kind_eq, TxStatus, text, Metadata, AuditEvent, Store,
}
use core_flow.Payments.Service.{
  TransitionRequest, OutcomeCode, TransitionOutcome, changed, unchanged, truthy, value_or,
  role_name, apply_transition,
}
use core_flow.Payments.Service

pub record ActionContext : Type 0 where
  pub membership : TenantContext
  pub payment_id : String
  pub idempotency_key : Option String
  pub reason : Option String

-- What the environment gives to a request: the time, and the id of the row that it creates.
pub record Environment : Type 0 where
  pub now : ℕ
  pub fresh_id : String

pub data ActionCode : Type 0 where
  outcome_code : OutcomeCode → ActionCode
  reconciliation_first : ActionCode

pub record TransactionView : Type 0 where
  pub id : String
  pub status : TxStatus
  pub hash : Option String
  pub attempt : ℕ

pub record Body : Type 0 where
  pub previous_state : Option PaymentState
  pub state : PaymentState
  pub changed : Bool
  pub approval_role : Option OrgRole
  pub decision : Option ApprovalDecision
  pub transaction : Option TransactionView

pub data ActionResult : Type 0 where
  done : (status : ℕ) → Body → ActionResult
  refused : (status : ℕ) → Option ActionCode → ActionResult

abbrev pub Outcome : Type 0
Outcome = Option (ActionResult × Store)

abbrev pub plain_body : PaymentState → Body
plain_body s = record {
  previous_state = none;
  state = s;
  changed = false;
  approval_role = none;
  decision = none;
  transaction = none;
}

-- `outcomeToResult`
unfoldable pub outcome_to_result : TransitionOutcome → Option TransactionView → ActionResult
outcome_to_result (changed a b) tx =
    done 200 (record (plain_body b) { previous_state = some a; changed = true; transaction = tx })
outcome_to_result (unchanged s) tx =
    done 200 (record (plain_body s) { previous_state = some s; transaction = tx })
outcome_to_result (Service.denied status code) tx = refused status (some (outcome_code code))

-- `actorFromMembership`
abbrev pub actor_from_membership : TenantContext → Actor
actor_from_membership m = record {
  kind = ActorKind.user;
  role = some m.role;
  address = some m.wallet_address;
  system = none;
}

-- `findPaymentForMember`
unfoldable pub find_payment : Store → TenantContext → String → Result Payment
find_payment db ctx id =
    scoped (λ (p : Payment). p.id) (λ (p : Payment). p.org_id) db.payments ctx id

abbrev pub request_of :
    ActionContext → Actor → Payment → PaymentState → Option String → Metadata → TransitionRequest
request_of ctx actor payment to reason metadata = record {
  payment_id = payment.id;
  to = to;
  actor = actor;
  org_id = ctx.membership.org_id;
  reason = reason;
  tx_hash = none;
  metadata = metadata;
  settled_at = none;
}

abbrev pub action_name : String → Metadata
action_name a = ("action", text a) ∷ []

-- ── Approval ──

abbrev pub may_approve : OrgRole → Bool
may_approve role =
    role == OrgRole.manager
    || role == OrgRole.finance
    || role == OrgRole.owner
    || role == OrgRole.admin

-- Which half of the gate the caller exercises, from the role alone.
unfoldable pub approval_role_of : OrgRole → Payment → OrgRole
approval_role_of role payment =
    if role == OrgRole.finance
    then OrgRole.finance
    else if role == OrgRole.manager
    then OrgRole.manager
    else if payment.state == awaiting_finance
    then OrgRole.finance
    else OrgRole.manager

abbrev pub is_approval : String → OrgRole → Approval → Bool
is_approval payment role a = a.payment_id == payment && a.role == role

abbrev pub other_half : OrgRole → OrgRole
other_half role = if role == OrgRole.manager then OrgRole.finance else OrgRole.manager

abbrev pub held_by : String → Option Approval → Bool
held_by wallet none = false
held_by wallet (some a) = a.actor_address == wallet

-- `approval.create`, under the key (paymentId, role).
unfoldable pub create_approval : Approval → Store → Option Store
create_approval a db =
    if any (is_approval a.payment_id a.role) db.approvals
    then none
    else some (record db { approvals = create a db.approvals })

unfoldable pub approval_event : TenantContext → Payment → OrgRole → AuditEvent
approval_event m payment role = record {
  org_id = m.org_id;
  type = "approval.granted";
  actor_address = some m.wallet_address;
  actor_system = none;
  payment_id = some payment.id;
  batch_id = some payment.batch_id;
  escrow_id = payment.escrow_id;
  previous_state = none;
  new_state = none;
  tx_hash = none;
  metadata = ("role", text (role_name role)) ∷ ("decision", text "APPROVED") ∷ [];
}

abbrev pub new_approval : ActionContext → Payment → OrgRole → Approval
new_approval ctx payment role = record {
  org_id = ctx.membership.org_id;
  payment_id = payment.id;
  role = role;
  decision = ApprovalDecision.approved;
  actor_address = ctx.membership.wallet_address;
  reason = ctx.reason;
}

unfoldable pub record_approval : ActionContext → Payment → OrgRole → Store → Outcome
record_approval ctx payment role db = elim (create_approval (new_approval ctx payment role) db) [
  | none ↦ none
  | some db' ↦ some (
    done 201 (record (plain_body payment.state) { approval_role = some role }),
    record db' {
      audit_events = create (approval_event ctx.membership payment role) db'.audit_events;
    },
  )
]

-- What follows the location of the payment: the decisions are read from `seen`, and the new one is
-- inserted into `db`, where other requests may have written by then.
unfoldable pub approve_found : ActionContext → Payment → OrgRole → Store → Store → Outcome
approve_found ctx payment role seen db =
    elim (find_first (is_approval payment.id role) seen.approvals) [
      | some a ↦
          some (done 200 (record (plain_body payment.state) { decision = some a.decision }), db)
      | none ↦
          if held_by ctx.membership.wallet_address
            (find_first (is_approval payment.id (other_half role)) seen.approvals)
          then some (refused 409 none, db)
          else record_approval ctx payment role db
    ]

unfoldable pub approve_payment : ActionContext → Store → Store → Outcome
approve_payment ctx seen db =
    if not (may_approve ctx.membership.role)
    then some (refused 403 none, db)
    else elim (find_payment seen ctx.membership ctx.payment_id) [
      | denied d ↦ some (refused d.status none, db)
      | allowed payment ↦
          approve_found ctx payment (approval_role_of ctx.membership.role payment) seen db
    ]
