-- ===== src/Indexer/Batch.antt =====
-- `processBatch`, `getCursor` and `setCursor` of src/lib/indexer/index.ts, and the start of a run in
-- src/lib/indexer/run.ts. A transaction that the database refuses is rolled back whole: which
-- transactions it refuses, the time and the ids of new rows are parameters, by the event's id.
use core_flow.Prelude.{
  ℕ, suc, ◌+◌, ◌-◌, String, string_eq, nat_eq, Bool, false, ◌&&◌, ◌||◌, List, [], ◌∷◌, Option, none,
  some, ◌==◌, ltb, if◌then◌else◌,
}
use core_flow.Prelude.Table.{find_first, upsert}
use core_flow.Indexer.Events.{
  CoreFlowEvent, Value, Conversions, parse_core_flow_event, escrow_id_of, kind_of, payment_index_of,
}
use core_flow.Indexer.World.{
  World, IndexerContext, IndexerCursor, Indexed, Database, Env, ChainEvent, EventType, known,
  unknown,
}
use core_flow.Indexer.Added.{ApplyResult, nothing}
use core_flow.Indexer.Apply.{apply_event}

pub record RawIndexedEvent : Type 0 where
  pub id : String
  pub ledger : ℕ
  pub topic0 : String
  pub topic1 : String
  pub value : Value
  pub tx_hash : Option String

pub record RunResult : Type 0 where
  pub processed : ℕ
  pub skipped : ℕ
  pub last_ledger : ℕ
  pub payments_created : ℕ
  pub payments_paid : ℕ
  pub findings : ℕ
  pub unattributed : ℕ

-- Why the database refused a transaction: `P2002` on the marker, or anything else.
pub data Fault : Type 0 where
  duplicate_key : Fault
  broken : String → Fault

-- The fault of an event's transaction, by the event's id.
abbrev pub Faults : Type 0
Faults = String → Option Fault

pub record Deps : Type 0 where
  pub ctx : IndexerContext
  pub conversions : Conversions
  -- `a.localeCompare(b) <= 0`
  pub locale_le : String → String → Bool
  pub env : String → Env

-- ── The order of a batch ──

abbrev pub comes_before : (String → String → Bool) → RawIndexedEvent → RawIndexedEvent → Bool
comes_before le a b = ltb a.ledger b.ledger || (a.ledger == b.ledger && le a.id b.id)

module _ {A : Type 0} (le : A → A → Bool) where
  unfoldable pub insert : A → List A → List A
  insert x [] = x ∷ []
  insert x (y ∷ ys) = let rest = insert x ys in if le x y then x ∷ y ∷ ys else y ∷ rest

  -- `sort`, which is stable.
  unfoldable pub sort : List A → List A
  sort [] = []
  sort (x ∷ xs) = insert x (sort xs)

-- ── One event ──

-- `where: { id: raw.id }`
abbrev pub has_id : String → ChainEvent → Bool
has_id id c = c.id == id

unfoldable pub effect_of :
    Deps → RawIndexedEvent → Option CoreFlowEvent → World → ApplyResult × World
effect_of deps raw none w = (nothing, w)
effect_of deps raw (some ev) w =
    apply_event deps.ctx (deps.env raw.id) (record { tx_hash = raw.tx_hash; ledger = raw.ledger })
      ev w

abbrev pub type_of : RawIndexedEvent → Option CoreFlowEvent → EventType
type_of raw none = unknown raw.topic0 raw.topic1
type_of raw (some ev) = known (kind_of ev)

abbrev pub escrow_of : Option CoreFlowEvent → Option ℕ
escrow_of none = none
escrow_of (some ev) = some (escrow_id_of ev)

abbrev pub index_of : Option CoreFlowEvent → Option ℕ
index_of none = none
index_of (some ev) = payment_index_of ev

unfoldable pub marker :
    Deps → RawIndexedEvent → Option CoreFlowEvent → (attributed : Bool) → ChainEvent
marker deps raw parsed attributed = record {
  id = raw.id;
  contract_id = deps.ctx.contract_id;
  network = deps.ctx.network;
  type = type_of raw parsed;
  ledger = raw.ledger;
  tx_hash = raw.tx_hash;
  escrow_on_chain_id = escrow_of parsed;
  payment_index = index_of parsed;
  payload = parsed;
  attributed = attributed;
  processed_at = (deps.env raw.id).now;
}

abbrev pub mark : (attributed : Bool) → ℕ → ChainEvent → ChainEvent
mark attributed now c = record c { attributed = attributed; processed_at = now }

unfoldable pub record_event :
    Deps
    → RawIndexedEvent
    → Option CoreFlowEvent
    → (attributed : Bool) → List ChainEvent
    → List ChainEvent
record_event deps raw parsed attributed events =
    upsert (has_id raw.id) (marker deps raw parsed attributed)
      (mark attributed (deps.env raw.id).now) events

abbrev pub is_done : Option ChainEvent → Bool
is_done none = false
is_done (some c) = c.attributed

-- The transaction of an event; `none` stands for an event that was seen before.
unfoldable pub process_event : Deps → RawIndexedEvent → Indexed → Option ApplyResult × Indexed
process_event deps raw x =
    let parsed = parse_core_flow_event deps.conversions raw.topic0 raw.topic1 raw.value in
    let effect = effect_of deps raw parsed x.world in
    if is_done (find_first (has_id raw.id) x.chain_events) then (none, x) else (
      some effect.0,
      record {
        world = effect.1;
        chain_events = record_event deps raw parsed effect.0.attributed x.chain_events;
      },
    )

-- ── The cursor ──

abbrev pub of_cursor : IndexerContext → IndexerCursor → Bool
of_cursor ctx c = c.contract_id == ctx.contract_id && c.network == ctx.network

unfoldable pub get_cursor : IndexerContext → List IndexerCursor → ℕ
get_cursor ctx cursors = elim (find_first (of_cursor ctx) cursors) [
  | none ↦ 0
  | some c ↦ c.last_ledger
]

abbrev pub at_ledger : ℕ → IndexerCursor → IndexerCursor
at_ledger ledger c = record c { last_ledger = ledger }

unfoldable pub set_cursor : IndexerContext → ℕ → List IndexerCursor → List IndexerCursor
set_cursor ctx ledger cursors =
    upsert (of_cursor ctx)
      (record { contract_id = ctx.contract_id; network = ctx.network; last_ledger = ledger })
      (at_ledger ledger) cursors

abbrev pub lookback_ledgers : ℕ
lookback_ledgers = 1000

abbrev pub max : ℕ → ℕ → ℕ
max m n = if ltb m n then n else m

-- The ledger that a run of src/lib/indexer/run.ts reads from.
unfoldable pub start_ledger : (latest cursor : ℕ) → ℕ
start_ledger latest cursor = if ltb 0 cursor then cursor + 1 else max 1 (latest - lookback_ledgers)

-- ── The batch ──

-- The variables of the loop.
pub record Progress : Type 0 where
  pub result : RunResult
  pub committed_ledger : ℕ
  pub indexed : Indexed

abbrev pub started : Indexed → Progress
started x = record {
  result = record {
    processed = 0;
    skipped = 0;
    last_ledger = 0;
    payments_created = 0;
    payments_paid = 0;
    findings = 0;
    unattributed = 0;
  };
  committed_ledger = 0;
  indexed = x;
}

abbrev pub count_skipped : RunResult → RunResult
count_skipped r = record r { skipped = suc r.skipped }

abbrev pub tally : ApplyResult → RunResult → RunResult
tally applied r = record r {
  processed = suc r.processed;
  payments_created = r.payments_created + applied.payments_created;
  payments_paid = r.payments_paid + applied.payments_paid;
  findings = r.findings + applied.findings;
  unattributed = if applied.attributed then r.unattributed else suc r.unattributed;
}

abbrev pub count_outcome : Option ApplyResult → RunResult → RunResult
count_outcome none r = count_skipped r
count_outcome (some applied) r = tally applied r

abbrev pub commit : Deps → RawIndexedEvent → Progress → Progress
commit deps raw p =
    let out = process_event deps raw p.indexed in
    record {
      result = count_outcome out.0 p.result;
      committed_ledger = max p.committed_ledger raw.ledger;
      indexed = out.1;
    }

abbrev pub pass_over : RawIndexedEvent → Progress → Progress
pass_over raw p = record {
  result = count_skipped p.result;
  committed_ledger = max p.committed_ledger raw.ledger;
  indexed = p.indexed;
}

-- The loop, and the error that ended it before the last event.
unfoldable pub run_events :
    Deps → Faults → List RawIndexedEvent → Progress → Option String × Progress
run_events deps fault [] p = (none, p)
run_events deps fault (raw ∷ rest) p = elim (fault raw.id) [
  | none ↦ run_events deps fault rest (commit deps raw p)
  | some duplicate_key ↦ run_events deps fault rest (pass_over raw p)
  | some (broken why) ↦ (some why, p)
]

pub data BatchOutcome : Type 0 where
  done : RunResult → BatchOutcome
  threw : String → BatchOutcome

abbrev pub outcome_of : Option String × Progress → BatchOutcome
outcome_of (none, p) = done (record p.result { last_ledger = p.committed_ledger })
outcome_of (some why, p) = threw why

abbrev pub settle_cursor : IndexerContext → ℕ → List IndexerCursor → List IndexerCursor
settle_cursor ctx committed cursors =
    if ltb 0 committed then set_cursor ctx committed cursors else cursors

unfoldable pub process_batch :
    List RawIndexedEvent → Deps → Faults → Database → BatchOutcome × Database
process_batch events deps fault db =
    let out =
      run_events deps fault (sort (comes_before deps.locale_le) events) (started db.indexed) in
    (
      outcome_of out,
      record {
        indexed = out.1.indexed;
        cursors = settle_cursor deps.ctx out.1.committed_ledger db.cursors;
      },
    )
