-- ===== src/Indexer/World.antt =====
-- The tables that the indexer reads and writes (prisma/schema.prisma), beside those of payments and
-- findings, and the helpers of src/lib/indexer/index.ts that make sure a row is there.
use core_flow.Prelude.{
  ℕ, String, string_eq, nat_eq, option_eq, Bool, false, ◌&&◌, List, Option, none, some, ◌==◌, ◌++◌,
}
use core_flow.Prelude.Int.{ℤ, pos}
use core_flow.Prelude.Text.{codes}
use core_flow.Money.Amount.{Text, pad_start, to_decimal}
use core_flow.Payroll.Checks.{text_eq}
use core_flow.Payroll.Batches.{PayrollBatch, Worker, has_reference}
use core_flow.Payroll.Writing.{has_wallet}
use core_flow.Prelude.Table.{find_first, create, update}
use core_flow.Payments.Store.{Payment, AuditEvent, Store}
use core_flow.Payments.Service.{TransitionRequest, TransitionOutcome, value_or, apply_transition}
use core_flow.Reconciliation.Findings.{ReconciliationFinding, Books}
use core_flow.Indexer.Events.{CoreFlowEvent}

pub record Escrow : Type 0 where
  pub id : String
  pub org_id : String
  pub on_chain_id : Option ℕ
  pub contract_id : String
  pub network : String
  pub manager_address : String
  pub finance_approver_address : String
  pub asset_decimals : ℕ
  pub total_amount_base_units : ℤ
  pub manager_approved : Bool
  pub finance_approved : Bool
  pub cancelled : Bool
  pub oracle_rotations : ℕ

-- `parsed ? parsed.kind : unknown:${raw.topic0}:${raw.topic1}`
pub data EventType : Type 0 where
  known : String → EventType
  unknown : (topic0 topic1 : String) → EventType

-- The marker of an event, with its payload.
pub record ChainEvent : Type 0 where
  pub id : String
  pub contract_id : String
  pub network : String
  pub type : EventType
  pub ledger : ℕ
  pub tx_hash : Option String
  pub escrow_on_chain_id : Option ℕ
  pub payment_index : Option ℕ
  pub payload : Option CoreFlowEvent
  pub attributed : Bool
  pub processed_at : ℕ

pub record IndexerCursor : Type 0 where
  pub contract_id : String
  pub network : String
  pub last_ledger : ℕ

-- The tables that an event is projected on.
pub record World : Type 0 where
  pub books : Books
  pub escrows : List Escrow
  pub batches : List PayrollBatch
  pub workers : List Worker

-- What an event's transaction works on.
pub record Indexed : Type 0 where
  pub world : World
  pub chain_events : List ChainEvent

pub record Database : Type 0 where
  pub indexed : Indexed
  pub cursors : List IndexerCursor

pub record IndexerContext : Type 0 where
  pub contract_id : String
  pub network : String
  pub asset_decimals : Option ℕ

-- The time of an event's transaction, and the ids of the rows that it may create.
pub record Env : Type 0 where
  pub now : ℕ
  pub escrow : String
  pub batch : String
  pub worker : String
  pub payment : String

-- `where: { onChainId, contractId, network }`
abbrev pub of_deployment : IndexerContext → ℕ → Escrow → Bool
of_deployment ctx id e =
    e.on_chain_id == some id && e.contract_id == ctx.contract_id && e.network == ctx.network

-- `resolveEscrowTenant`: the escrow's organization, if it can be attributed.
unfoldable pub resolve_escrow_tenant : IndexerContext → ℕ → World → Option String
resolve_escrow_tenant ctx id w = elim (find_first (of_deployment ctx id) w.escrows) [
  | none ↦ none
  | some e ↦ some e.org_id
]

-- `where: { onChainId }`, a unique column.
abbrev pub is_on_chain : ℕ → Escrow → Bool
is_on_chain id e = e.on_chain_id == some id

unfoldable pub find_escrow : ℕ → World → Option Escrow
find_escrow id w = find_first (is_on_chain id) w.escrows

abbrev pub patch_escrow : String → (Escrow → Escrow) → World → World
patch_escrow id f w = record w { escrows = update (λ e. e.id == id) f w.escrows }

abbrev pub new_escrow : IndexerContext → Env → String → ℕ → Escrow
new_escrow ctx env org id = record {
  id = env.escrow;
  org_id = org;
  on_chain_id = some id;
  contract_id = ctx.contract_id;
  network = ctx.network;
  manager_address = "";
  finance_approver_address = "";
  asset_decimals = value_or ctx.asset_decimals 7;
  total_amount_base_units = pos 0;
  manager_approved = false;
  finance_approved = false;
  cancelled = false;
  oracle_rotations = 0;
}

-- `ensureEscrow`: `patch` is what the caller writes on the row, found or new.
unfoldable pub ensure_escrow :
    IndexerContext → Env → String → ℕ → (Escrow → Escrow) → World → Escrow × World
ensure_escrow ctx env org id patch w = elim (find_escrow id w) [
  | some e ↦ (patch e, patch_escrow e.id patch w)
  | none ↦
      let e = patch (new_escrow ctx env org id) in (e, record w { escrows = create e w.escrows })
]

-- `CHAIN-${String(escrowId).padStart(5, '0')}`
unfoldable pub escrow_batch_reference : ℕ → Text
escrow_batch_reference id = codes "CHAIN-" ++ pad_start 5 (to_decimal id)

-- `ensureBatch`; `reference` is `escrowBatchReference` of the escrow's id.
unfoldable pub ensure_batch : Env → String → (reference : Text) → World → PayrollBatch × World
ensure_batch env org reference w = elim (find_first (has_reference org reference) w.batches) [
  | some b ↦ (b, w)
  | none ↦
      let b : PayrollBatch = record {
        id = env.batch;
        org_id = org;
        project_id = none;
        reference = reference;
        period_start = none;
        period_end = none;
        source_filename = none;
        source_row_count = none;
        source_checksum = none;
        idempotency_key = none;
        idempotency_fingerprint = none;
        uploaded_by = none;
        created_at = env.now;
      } in
      (b, record w { batches = create b w.batches })
]

unfoldable pub ensure_worker : Env → String → (wallet : String) → World → Worker × World
ensure_worker env org wallet w = elim (find_first (has_wallet org wallet) w.workers) [
  | some k ↦ (k, w)
  | none ↦
      let k : Worker = record { id = env.worker; org_id = org; wallet_address = wallet } in
      (k, record w { workers = create k w.workers })
]

-- ── Writes on the tables of payments and findings ──

abbrev pub with_store : (Store → Store) → World → World
with_store f w = record w { books = record w.books { store = f w.books.store } }

abbrev pub write_payments : (List Payment → List Payment) → World → World
write_payments f w = with_store (λ s. record s { payments = f s.payments }) w

abbrev pub audit : AuditEvent → World → World
audit e w = with_store (λ s. record s { audit_events = create e s.audit_events }) w

-- `openFinding`
abbrev pub open_finding : ReconciliationFinding → World → World
open_finding f w = record w { books = record w.books { findings = create f w.books.findings } }

-- `applyTransition`, in the indexer's transaction.
unfoldable pub transition : TransitionRequest → ℕ → World → TransitionOutcome × World
transition req now w =
    let out = apply_transition req now w.books.store in (out.0, with_store (λ s. out.1) w)

-- The payment of an escrow's slot.
abbrev pub in_slot : String → ℕ → Payment → Bool
in_slot escrow index p = p.escrow_id == some escrow && p.on_chain_payment_index == some index

unfoldable pub find_slot : String → ℕ → World → Option Payment
find_slot escrow index w = find_first (in_slot escrow index) w.books.store.payments
