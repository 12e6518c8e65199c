-- ===== src/Payments/Requests.antt =====
-- The actions of src/lib/payments/actions.ts that ask for a transition: reject, cancel, submit,
-- retry and flag for reconciliation.
use core_flow.Prelude.{
  ◌+◌, String, Bool, true, [], ◌∷◌, Option, none, some, ◌==◌, string_eq, option_eq, nat_eq, ◌&&◌,
  not, ltb, any, if◌then◌else◌,
}
use core_flow.Prelude.Table.{find_first, count, create, upsert}
use core_flow.Prelude.Text.{codes, trim, utf16_length}
use core_flow.Roles.{OrgRole, org_role_eq}
use core_flow.Tenancy.Resolve.{allowed, denied}
use core_flow.Payments.Types.{
  PaymentState, ready_to_settle, submitting, rejected, cancelled, settlement_failed,
  reconciliation_required, payment_state_eq, ActorKind,
}
use core_flow.Payments.Store.{
  Payment, Approval, ApprovalDecision, TxKind, tx_kind_eq, TxStatus, BlockchainTransaction, text,
  Store,
}
use core_flow.Payments.Service
use core_flow.Payments.Service.{
  TransitionRequest, TransitionOutcome, changed, unchanged, truthy, value_or, apply_transition,
}
use core_flow.Payments.Actions.{
  ActionContext, Environment, outcome_code, reconciliation_first, TransactionView, plain_body, done,
  refused, Outcome, outcome_to_result, actor_from_membership, find_payment, request_of, action_name,
  is_approval,
}

-- The payment of the action, or the denial of its lookup.
abbrev pub with_payment : ActionContext → Store → (Payment → Outcome) → Outcome
with_payment ctx db act = elim (find_payment db ctx.membership ctx.payment_id) [
  | denied d ↦ some (refused d.status none, db)
  | allowed payment ↦ act payment
]

abbrev pub answer : TransitionOutcome × Store → Outcome
answer (o, db) = some (outcome_to_result o none, db)

-- A text that is missing, or shorter than three once trimmed.
unfoldable pub is_too_short : Option String → Bool
is_too_short none = true
is_too_short (some s) = ltb (utf16_length (trim (codes s))) 3

abbrev pub decline_role : OrgRole → OrgRole
decline_role role = if role == OrgRole.finance then OrgRole.finance else OrgRole.manager

abbrev pub declined_half : ActionContext → Payment → Approval
declined_half ctx payment = record {
  org_id = ctx.membership.org_id;
  payment_id = payment.id;
  role = decline_role ctx.membership.role;
  decision = ApprovalDecision.rejected;
  actor_address = ctx.membership.wallet_address;
  reason = ctx.reason;
}

abbrev pub turned_down : ActionContext → Approval → Approval
turned_down ctx a = record a { decision = ApprovalDecision.rejected; reason = ctx.reason }

unfoldable pub decline : ActionContext → Payment → Store → Store
decline ctx payment db = record db {
  approvals =
      upsert (is_approval payment.id (decline_role ctx.membership.role)) (declined_half ctx payment)
        (turned_down ctx) db.approvals;
}

abbrev pub reject_request : ActionContext → Payment → TransitionRequest
reject_request ctx payment =
    request_of ctx (actor_from_membership ctx.membership) payment rejected ctx.reason
      (action_name "reject")

abbrev pub after_reject : ActionContext → Payment → TransitionOutcome × Store → Outcome
after_reject ctx payment (changed a b, db) = answer (changed a b, decline ctx payment db)
after_reject ctx payment (unchanged s, db) = answer (unchanged s, db)
after_reject ctx payment (Service.denied status code, db) = answer (Service.denied status code, db)

unfoldable pub reject_payment : Environment → ActionContext → Store → Outcome
reject_payment env ctx db =
    if is_too_short ctx.reason
    then some (refused 400 none, db)
    else with_payment ctx db (λ payment.
      after_reject ctx payment (apply_transition (reject_request ctx payment) env.now db))

unfoldable pub cancel_payment : Environment → ActionContext → Store → Outcome
cancel_payment env ctx db = with_payment ctx db (λ payment. answer (
    apply_transition
      (request_of ctx (actor_from_membership ctx.membership) payment cancelled
        (some (value_or ctx.reason "Cancelled by operator.")) (action_name "cancel"))
      env.now db))

abbrev pub has_key : String → BlockchainTransaction → Bool
has_key key t = t.idempotency_key == key

abbrev pub view : BlockchainTransaction → TransactionView
view t = record { id = t.id; status = t.status; hash = t.hash; attempt = t.attempt }

abbrev pub state_now : Store → Payment → PaymentState
state_now db payment = elim (find_first (λ (p : Payment). p.id == payment.id) db.payments) [
  | none ↦ payment.state
  | some p ↦ p.state
]

-- Replay of a known key: what happened the first time.
unfoldable pub replay : Payment → BlockchainTransaction → Store → Outcome
replay payment t db =
    if not (t.payment_id == some payment.id)
    then some (refused 409 none, db)
    else some
        (done 200 (record (plain_body (state_now db payment)) { transaction = some (view t) }), db)

abbrev pub is_settlement_of : Payment → BlockchainTransaction → Bool
is_settlement_of payment t = t.payment_id == some payment.id && t.kind == TxKind.pay_batch

unfoldable pub attempt_of :
    Environment → ActionContext → String → Payment → Store → BlockchainTransaction
attempt_of env ctx key payment db = record {
  id = env.fresh_id;
  org_id = ctx.membership.org_id;
  payment_id = some payment.id;
  escrow_id = payment.escrow_id;
  kind = TxKind.pay_batch;
  status = TxStatus.preparing;
  hash = none;
  idempotency_key = key;
  attempt = count (is_settlement_of payment) db.transactions + 1;
  contract_id = payment.asset_contract_id;
}

-- `blockchainTransaction.create`, under the key idempotencyKey.
unfoldable pub create_transaction : String → BlockchainTransaction → Store → Option Store
create_transaction key t db =
    if any (has_key key) db.transactions
    then none
    else some (record db { transactions = create t db.transactions })

unfoldable pub record_attempt :
    Environment → ActionContext → String → Payment → TransitionOutcome → Store → Outcome
record_attempt env ctx key payment o db =
    let t = attempt_of env ctx key payment db in
    elim (create_transaction key t db) [
      | none ↦ none
      | some db' ↦ some (
        outcome_to_result o
            (some (record { id = t.id; status = t.status; hash = none; attempt = t.attempt })),
        db',
      )
    ]

abbrev pub after_submit :
    Environment → ActionContext → String → Payment → TransitionOutcome × Store → Outcome
after_submit env ctx key payment (Service.denied status code, db) =
    some (refused status (some (outcome_code code)), db)
after_submit env ctx key payment (changed a b, db) =
    record_attempt env ctx key payment (changed a b) db
after_submit env ctx key payment (unchanged s, db) =
    record_attempt env ctx key payment (unchanged s) db

abbrev pub submit_request : ActionContext → String → Payment → TransitionRequest
submit_request ctx key payment =
    request_of ctx (actor_from_membership ctx.membership) payment submitting none
      (("action", text "submit") ∷ ("idempotencyKey", text key) ∷ [])

unfoldable pub submit_with_key : Environment → ActionContext → String → Payment → Store → Outcome
submit_with_key env ctx key payment db = elim (find_first (has_key key) db.transactions) [
  | some t ↦ replay payment t db
  | none ↦
      after_submit env ctx key payment
        (apply_transition (submit_request ctx key payment) env.now db)
]

unfoldable pub submit_payment_for_settlement : Environment → ActionContext → Store → Outcome
submit_payment_for_settlement env ctx db = elim (truthy ctx.idempotency_key) [
  | none ↦ some (refused 400 none, db)
  | some key ↦ with_payment ctx db (λ payment. submit_with_key env ctx key payment db)
]

unfoldable pub retry_payment : Environment → ActionContext → Store → Outcome
retry_payment env ctx db = with_payment ctx db (λ payment.
    if payment.state == settlement_failed
    then some (refused 409 (some reconciliation_first), db)
    else answer (
        apply_transition
          (request_of ctx (actor_from_membership ctx.membership) payment ready_to_settle
            (some (value_or ctx.reason "Retried after a failed submission.")) (action_name "retry"))
          env.now db))

unfoldable pub flag_for_reconciliation : Environment → ActionContext → Store → Outcome
flag_for_reconciliation env ctx db =
    if not (ctx.membership.role == OrgRole.owner) && not (ctx.membership.role == OrgRole.admin)
    then some (refused 403 none, db)
    else with_payment ctx db (λ payment. answer (
        apply_transition
          (request_of ctx
            (record {
              kind = ActorKind.reconciler;
              role = none;
              address = some ctx.membership.wallet_address;
              system = some "reconciler";
            })
            payment reconciliation_required
            (some (value_or ctx.reason "Flagged for reconciliation by an operator."))
            (action_name "reconcile"))
          env.now db))
