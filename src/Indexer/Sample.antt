-- ===== src/Indexer/Sample.antt =====
-- An escrow with one payment, and two events for it (src/lib/indexer).
use core_flow.Prelude.{String, true, false, [], ◌∷◌, none, some, string_eq, nat_eq}
use core_flow.Prelude.Int.{pos}
use core_flow.Payments.Types.{submitting}
use core_flow.Payments.Store.{Payment}
use core_flow.Indexer.Events.{Value, Scalar, Conversions, CoreFlowEvent, PaidSlot}
use core_flow.Indexer.World.{World, Escrow, Database, IndexerContext, Env}
use core_flow.Indexer.Added.{EventMeta}
use core_flow.Indexer.Batch.{RawIndexedEvent, Deps}

abbrev pub ctx : IndexerContext
ctx = record { contract_id = "CA"; network = "testnet"; asset_decimals = some 7 }

abbrev pub conversions : Conversions
conversions = record { number_of = λ v. 0; bigint_of = λ s. pos 0; text_of = λ v. "" }

abbrev pub env : String → Env
env id = record { now = 5000; escrow = "e9"; batch = "b9"; worker = "w9"; payment = id }

abbrev pub escrow : Escrow
escrow = record {
  id = "e1";
  org_id = "o1";
  on_chain_id = some 3;
  contract_id = "CA";
  network = "testnet";
  manager_address = "GM";
  finance_approver_address = "GF";
  asset_decimals = 7;
  total_amount_base_units = pos 100;
  manager_approved = true;
  finance_approved = true;
  cancelled = false;
  oracle_rotations = 0;
}

abbrev pub payment : Payment
payment = record {
  id = "p1";
  org_id = "o1";
  batch_id = "b1";
  project_id = none;
  escrow_id = some "e1";
  worker_id = none;
  recipient_address = "GW";
  on_chain_payment_index = some 0;
  asset_code = "USDC";
  asset_contract_id = some "CU";
  asset_decimals = 7;
  amount_base_units = pos 100;
  rate_base_units = pos 10;
  hours = pos 10;
  period_start = none;
  period_end = none;
  source_reference = none;
  state = submitting;
  state_updated_at = 0;
  state_reason = none;
  settlement_tx_hash = none;
  settled_at = none;
}

abbrev pub world : World
world = record {
  books = record {
    store = record {
      payments = payment ∷ [];
      approvals = [];
      transactions = [];
      audit_events = [];
    };
    findings = [];
  };
  escrows = escrow ∷ [];
  batches = [];
  workers = [];
}

abbrev pub database : Database
database = record { indexed = record { world = world; chain_events = [] }; cursors = [] }

abbrev pub slot : PaidSlot
slot = record {
  payment_index = 0;
  worker = "GW";
  token = "CU";
  amount_base_units = pos 100;
  hours = pos 10;
}

abbrev pub settled_event : CoreFlowEvent
settled_event = CoreFlowEvent.payment_paid 3 slot

abbrev pub meta : EventMeta
meta = record { tx_hash = some "h1"; ledger = 40 }

abbrev pub paid_value : Value
paid_value = Value.array (
    Scalar.number 3
    ∷ (Scalar.number 0
        ∷ (Scalar.text "GW"
            ∷ (Scalar.text "CU" ∷ (Scalar.bigint (pos 100) ∷ (Scalar.bigint (pos 10) ∷ []))))))

-- The event of an id: the settlement, and otherwise one that the indexer does not know.
abbrev pub raw_event : String → String → Value → String → RawIndexedEvent
raw_event topic0 topic1 value id = record {
  id = id;
  ledger = 40;
  topic0 = topic0;
  topic1 = topic1;
  value = value;
  tx_hash = some "h1";
}

abbrev pub first : RawIndexedEvent
first = raw_event "payment" "paid" paid_value "a"

abbrev pub second : RawIndexedEvent
second = raw_event "escrow" "paused" (Value.scalar Scalar.undefined) "b"

abbrev pub log : String → RawIndexedEvent
log = raw_event "payment" "paid" paid_value

abbrev pub deps : Deps
deps = record { ctx = ctx; conversions = conversions; locale_le = λ a b. true; env = env }
