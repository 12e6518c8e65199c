-- ===== src/Payments/Service.antt =====
-- `transitionPayment`, `applyTransition` and `recordAuditEvent` of src/lib/payments/service.ts.
-- `applyTransition` reads the payment, and later swaps its state if it is still the one read:
-- `apply_read` is what follows the read, over the store as it is by then. Prose is left out.
use core_flow.Prelude.{
  ℕ, String, Bool, [], ◌∷◌, Option, none, some, ◌==◌, string_eq, nat_eq, ◌&&◌, if◌then◌else◌,
}
use core_flow.Prelude.Table.{find_first, create, count, update_rows}
use core_flow.Roles.{OrgRole}
use core_flow.Payments.Types.{
  PaymentState, paid, payment_state_eq, ActorKind, actor_kind_eq, Actor, Transition,
}
use core_flow.Payments.Check.{
  TransitionErrorCode, actor_not_permitted, role_not_permitted, role_required, ok, fail,
  check_transition,
}
use core_flow.Payments.Store.{Payment, Metadata, text, spread, AuditEvent, Store}

pub record TransitionRequest : Type 0 where
  pub payment_id : String
  pub to : PaymentState
  pub actor : Actor
  pub org_id : String
  pub reason : Option String
  pub tx_hash : Option String
  pub metadata : Metadata
  pub settled_at : Option ℕ

pub data OutcomeCode : Type 0 where
  check_failed : TransitionErrorCode → OutcomeCode
  not_found concurrent_modification : OutcomeCode

pub data TransitionOutcome : Type 0 where
  changed : (previous_state new_state : PaymentState) → TransitionOutcome
  unchanged : (state : PaymentState) → TransitionOutcome
  denied : (status : ℕ) → OutcomeCode → TransitionOutcome

-- A text that JavaScript takes for true: one that is there and not empty.
abbrev pub truthy : Option String → Option String
truthy none = none
truthy (some s) = if s == "" then none else some s

abbrev pub or_else {ℓ} : {A : Type ℓ} → Option A → Option A → Option A
or_else none b = b
or_else (some a) b = some a

abbrev pub value_or {ℓ} : {A : Type ℓ} → Option A → A → A
value_or none b = b
value_or (some a) b = a

-- A role or actor problem is a 403; anything else is a state conflict.
unfoldable pub status_of : TransitionErrorCode → ℕ
status_of role_not_permitted = 403
status_of actor_not_permitted = 403
status_of role_required = 403
status_of _ = 409

abbrev pub kind_name : ActorKind → String
kind_name ActorKind.user = "user"
kind_name ActorKind.indexer = "indexer"
kind_name ActorKind.reconciler = "reconciler"
kind_name ActorKind.system = "system"

abbrev pub role_name : OrgRole → String
role_name OrgRole.owner = "OWNER"
role_name OrgRole.admin = "ADMIN"
role_name OrgRole.manager = "MANAGER"
role_name OrgRole.finance = "FINANCE"
role_name OrgRole.worker = "WORKER"
role_name OrgRole.viewer = "VIEWER"

abbrev pub machine_name : Actor → Option String
machine_name actor =
    if actor.kind == ActorKind.user
    then none
    else some (value_or actor.system (kind_name actor.kind))

-- `...(o ? { key: o } : {})`
abbrev pub optional_key : String → Option String → Metadata
optional_key key none = []
optional_key key (some s) = (key, text s) ∷ []

abbrev pub role_text : Option OrgRole → Option String
role_text none = none
role_text (some r) = some (role_name r)

unfoldable pub transition_metadata : TransitionRequest → Transition → Metadata
transition_metadata req t =
    let kind = ("actorKind", text (kind_name req.actor.kind)) ∷ [] in
    let role = spread kind (optional_key "actorRole" (role_text req.actor.role)) in
    let why = spread role (("transitionReason", text t.reason) ∷ []) in
    spread (spread why (optional_key "operatorReason" (truthy req.reason))) req.metadata

-- The columns that a transition writes.
unfoldable pub moved : TransitionRequest → ℕ → Payment → Payment
moved req now p = record p {
  state = req.to;
  state_updated_at = now;
  state_reason = req.reason;
  settlement_tx_hash = or_else (truthy req.tx_hash) p.settlement_tx_hash;
  settled_at = if req.to == paid then some (value_or req.settled_at now) else p.settled_at;
}

unfoldable pub transition_event : TransitionRequest → Payment → Transition → AuditEvent
transition_event req payment t = record {
  org_id = req.org_id;
  type = "payment.state.changed";
  actor_address = req.actor.address;
  actor_system = machine_name req.actor;
  payment_id = some payment.id;
  batch_id = some payment.batch_id;
  escrow_id = payment.escrow_id;
  previous_state = some payment.state;
  new_state = some req.to;
  tx_hash = req.tx_hash;
  metadata = transition_metadata req t;
}

-- `where: { id, orgId }`
abbrev pub is_row : String → String → Payment → Bool
is_row id org p = p.id == id && p.org_id == org

unfoldable pub read_payment : TransitionRequest → Store → Option Payment
read_payment req db = find_first (is_row req.payment_id req.org_id) db.payments

-- `where: { id: payment.id, orgId: req.orgId, state: payment.state }`
unfoldable pub is_unmoved : TransitionRequest → Payment → Payment → Bool
is_unmoved req payment p = is_row payment.id req.org_id p && p.state == payment.state

-- The compare-and-swap and the audit event, in the caller's transaction.
unfoldable pub swap_state :
    TransitionRequest → ℕ → Payment → Transition → Store → TransitionOutcome × Store
swap_state req now payment t db =
    if count (is_unmoved req payment) db.payments == 0
    then (denied 409 concurrent_modification, db)
    else (
      changed payment.state req.to,
      record db {
        payments = update_rows (is_unmoved req payment) (moved req now) db.payments;
        audit_events = create (transition_event req payment t) db.audit_events;
      },
    )

unfoldable pub apply_found : TransitionRequest → ℕ → Payment → Store → TransitionOutcome × Store
apply_found req now payment db =
    if payment.state == req.to
    then (unchanged req.to, db)
    else elim (check_transition payment.state req.to req.actor) [
      | fail code ↦ (denied (status_of code) (check_failed code), db)
      | ok t ↦ swap_state req now payment t db
    ]

-- What follows the read of `seen`.
unfoldable pub apply_read :
    TransitionRequest → ℕ → Option Payment → Store → TransitionOutcome × Store
apply_read req now none db = (denied 404 not_found, db)
apply_read req now (some payment) db = apply_found req now payment db

-- `applyTransition` and `transitionPayment` where nothing else writes between the two.
unfoldable pub apply_transition : TransitionRequest → ℕ → Store → TransitionOutcome × Store
apply_transition req now db = apply_read req now (read_payment req db) db
