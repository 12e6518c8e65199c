-- ===== src/Indexer/Replay.antt =====
-- `replayUnattributed` of src/lib/indexer/index.ts: events of the log that had no organization when
-- they came are projected again. The payload of a row is the event that `deserializePayload` reads.
use core_flow.Prelude.{
  ℕ, zero, suc, ◌+◌, String, string_eq, nat_eq, Bool, true, not, ◌&&◌, ◌||◌, List, [], ◌∷◌, Option,
  none, some, ◌==◌, ltb, filter, length, if◌then◌else◌,
}
use core_flow.Prelude.Table.{update}
use core_flow.Indexer.Events.{CoreFlowEvent}
use core_flow.Indexer.World.{Indexed, ChainEvent, IndexerContext}
use core_flow.Indexer.Added.{ApplyResult}
use core_flow.Indexer.Apply.{apply_event}
use core_flow.Indexer.Batch.{Deps, Fault, Faults, sort, has_id, mark}

pub record ReplayResult : Type 0 where
  pub examined : ℕ
  pub applied : ℕ
  pub still_unattributed : ℕ
  pub payments_created : ℕ
  pub payments_paid : ℕ

-- `where: { attributed: false, contractId, network }`
abbrev pub is_pending : IndexerContext → ChainEvent → Bool
is_pending ctx c = not c.attributed && c.contract_id == ctx.contract_id && c.network == ctx.network

-- `orderBy: [{ ledger: 'asc' }, { id: 'asc' }]`, by the database's order of the ids.
abbrev pub is_earlier : (String → String → Bool) → ChainEvent → ChainEvent → Bool
is_earlier le a b = ltb a.ledger b.ledger || (a.ledger == b.ledger && le a.id b.id)

-- `take`
abbrev pub take {ℓ} : {A : Type ℓ} → ℕ → List A → List A
take zero xs = []
take (suc n) [] = []
take (suc n) (x ∷ xs) = x ∷ take n xs

unfoldable pub pending_of :
    (String → String → Bool) → IndexerContext → (limit : ℕ) → Indexed → List ChainEvent
pending_of le ctx limit x =
    take limit (sort (is_earlier le) (filter (is_pending ctx) x.chain_events))

abbrev pub set_attributed : ChainEvent → ChainEvent
set_attributed c = record c { attributed = true }

abbrev pub write_events : (List ChainEvent → List ChainEvent) → Indexed → Indexed
write_events f x = record x { chain_events = f x.chain_events }

abbrev pub count_replay : ApplyResult → ReplayResult → ReplayResult
count_replay effect out =
    if effect.attributed
    then record out {
      applied = suc out.applied;
      payments_created = out.payments_created + effect.payments_created;
      payments_paid = out.payments_paid + effect.payments_paid;
    }
    else record out { still_unattributed = suc out.still_unattributed }

unfoldable pub replay_parsed :
    Deps
    → ChainEvent
    → Option CoreFlowEvent
    → Option Fault
    → ReplayResult
    → Indexed
    → ReplayResult × Indexed
replay_parsed deps row none refused out x =
    (out, write_events (update (has_id row.id) set_attributed) x)
replay_parsed deps row (some ev) (some refused) out x =
    (record out { still_unattributed = suc out.still_unattributed }, x)
replay_parsed deps row (some ev) none out x =
    let env = deps.env row.id in
    let effect =
      apply_event deps.ctx env (record { tx_hash = row.tx_hash; ledger = row.ledger }) ev x.world in
    (
      count_replay effect.0 out,
      record {
        world = effect.1;
        chain_events = update (has_id row.id) (mark effect.0.attributed env.now) x.chain_events;
      },
    )

-- One row of the backlog, whose transaction may be refused.
abbrev pub replay_event :
    Deps → Faults → ChainEvent → ReplayResult × Indexed → ReplayResult × Indexed
replay_event deps fault row out = replay_parsed deps row row.payload (fault row.id) out.0 out.1

unfoldable pub replay_events :
    Deps → Faults → List ChainEvent → ReplayResult × Indexed → ReplayResult × Indexed
replay_events deps fault [] out = out
replay_events deps fault (row ∷ rest) out =
    replay_events deps fault rest (replay_event deps fault row out)

unfoldable pub replay_unattributed :
    Deps
    → Faults
    → (database_le : String → String → Bool) → (limit : ℕ) → Indexed
    → ReplayResult × Indexed
replay_unattributed deps fault le limit x =
    let pending = pending_of le deps.ctx limit x in
    replay_events deps fault pending (
      record {
        examined = length pending;
        applied = 0;
        still_unattributed = 0;
        payments_created = 0;
        payments_paid = 0;
      },
      x,
    )
