-- ===== src/Payments/Store.antt =====
-- The rows that the payment domain reads and writes (prisma/schema.prisma), in the tables that
-- src/lib/payments/__tests__/fake-db.ts keeps in place of the database. A column that no modelled code
-- reads or writes is left out; a time is a number of milliseconds.
use core_flow.Prelude.{ℕ, String, Eq, List, [], ◌∷◌, Option, ◌==◌, string_eq, if◌then◌else◌}
use core_flow.Prelude.Int.{ℤ}
use core_flow.Roles.{OrgRole}
use core_flow.Payments.Types.{PaymentState}

pub record Payment : Type 0 where
  pub id : String
  pub org_id : String
  pub batch_id : String
  pub project_id : Option String
  pub escrow_id : Option String
  pub worker_id : Option String
  pub recipient_address : String
  pub on_chain_payment_index : Option ℕ
  pub asset_code : String
  pub asset_contract_id : Option String
  pub asset_decimals : ℕ
  pub amount_base_units : ℤ
  pub rate_base_units : ℤ
  pub hours : ℤ
  pub period_start : Option ℤ
  pub period_end : Option ℤ
  pub source_reference : Option (List ℕ)
  pub state : PaymentState
  pub state_updated_at : ℕ
  pub state_reason : Option String
  pub settlement_tx_hash : Option String
  pub settled_at : Option ℕ

pub data ApprovalDecision : Type 0 where
  approved rejected : ApprovalDecision

pub record Approval : Type 0 where
  pub org_id : String
  pub payment_id : String
  pub role : OrgRole
  pub decision : ApprovalDecision
  pub actor_address : String
  pub reason : Option String

pub data TxKind : Type 0 where
  initialize_escrow submit_hours_proof manager_approve finance_approve pay_batch cancel_escrow
        rotate_oracle_key extend_escrow_ttl :
      TxKind

unfoldable pub TxKind-discrete : Discrete TxKind
TxKind-discrete = hlevel

instance abbrev pub tx_kind_eq : Eq TxKind
tx_kind_eq = record { dec = TxKind-discrete }

pub data TxStatus : Type 0 where
  preparing simulating awaiting_signature submitted confirmed failed expired cancelled : TxStatus

unfoldable pub TxStatus-discrete : Discrete TxStatus
TxStatus-discrete = hlevel

instance abbrev pub tx_status_eq : Eq TxStatus
tx_status_eq = record { dec = TxStatus-discrete }

-- One row for each attempt to reach the chain.
pub record BlockchainTransaction : Type 0 where
  pub id : String
  pub org_id : String
  pub payment_id : Option String
  pub escrow_id : Option String
  pub kind : TxKind
  pub status : TxStatus
  pub hash : Option String
  pub idempotency_key : String
  pub attempt : ℕ
  pub contract_id : Option String

-- The values that the code puts into a JSON column.
pub data MetaValue : Type 0 where
  text : String → MetaValue
  number : ℕ → MetaValue
  -- A text, by its code points.
  label : List ℕ → MetaValue
  null : MetaValue
  -- A bigint, printed.
  printed : ℤ → MetaValue

abbrev pub Metadata : Type 0
Metadata = List (String × MetaValue)

-- A key that is set again keeps its place and takes the later value.
abbrev pub set_key : String → MetaValue → Metadata → Metadata
set_key k v [] = (k, v) ∷ []
set_key k v ((j, w) ∷ m) = let rest = set_key k v m in if j == k then (k, v) ∷ m else (j, w) ∷ rest

-- `{ ...a, ...b }`
abbrev pub spread : Metadata → Metadata → Metadata
spread a [] = a
spread a ((k, v) ∷ b) = spread (set_key k v a) b

pub record AuditEvent : Type 0 where
  pub org_id : String
  pub type : String
  pub actor_address : Option String
  pub actor_system : Option String
  pub payment_id : Option String
  pub batch_id : Option String
  pub escrow_id : Option String
  pub previous_state : Option PaymentState
  pub new_state : Option PaymentState
  pub tx_hash : Option String
  pub metadata : Metadata

pub record Store : Type 0 where
  pub payments : List Payment
  pub approvals : List Approval
  pub transactions : List BlockchainTransaction
  pub audit_events : List AuditEvent
