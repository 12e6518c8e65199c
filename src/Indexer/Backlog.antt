-- ===== src/Indexer/Backlog.antt =====
-- What a replay of the backlog and a whole run do to the table of payments: `replayUnattributed` of
-- src/lib/indexer/index.ts and `runIndexerFromRpc` of src/lib/indexer/run.ts.
use core_flow.Prelude.{String, Bool, ◌||◌, List, [], ◌∷◌, Option, none, some, ℕ, any}
use core_flow.Indexer.Events.{CoreFlowEvent}
use core_flow.Indexer.World.{Indexed, Database, ChainEvent}
use core_flow.Indexer.Batch.{Deps, Fault, Faults, BatchOutcome, done, threw, process_batch}
use core_flow.Indexer.Run.{Surroundings, replay_limit, fetched, after_batch, run_indexer_from_rpc}
use core_flow.Indexer.Replay.{
  ReplayResult, pending_of, replay_parsed, replay_event, replay_events, replay_unattributed,
}
use core_flow.Indexer.Effects.{payments_of}
use core_flow.Indexer.Sequence.{
  is_paid_event, is_settlement, GrownIn, GrownIn-refl, GrownIn-trans, apply_event-GrownIn,
  process_batch-GrownIn,
}

abbrev pub is_paid_row : ChainEvent → Bool
is_paid_row row = is_paid_event row.payload

replay_parsed-GrownIn :
    (deps : Deps) (row : ChainEvent) (payload : Option CoreFlowEvent) (refused : Option Fault)
    (out : ReplayResult) (x : Indexed)
    → GrownIn
        (is_paid_event payload)
        (payments_of x.world)
        (payments_of (replay_parsed deps row payload refused out x).1.world)
unfolding replay_parsed
replay_parsed-GrownIn deps row none refused out x = GrownIn-refl _ (payments_of x.world)
replay_parsed-GrownIn deps row (some ev) (some why) out x = GrownIn-refl _ (payments_of x.world)
replay_parsed-GrownIn deps row (some ev) none out x =
    apply_event-GrownIn deps.ctx (deps.env row.id)
      (record { tx_hash = row.tx_hash; ledger = row.ledger }) ev x.world

replay_events-GrownIn :
    (deps : Deps) (fault : Faults) (rows : List ChainEvent) (out : ReplayResult × Indexed)
    → GrownIn
        (any is_paid_row rows)
        (payments_of out.1.world)
        (payments_of (replay_events deps fault rows out).1.world)
unfolding replay_events
replay_events-GrownIn deps fault [] out = GrownIn-refl _ (payments_of out.1.world)
replay_events-GrownIn deps fault (row ∷ rest) out =
    GrownIn-trans (is_paid_row row) (any is_paid_row rest) (payments_of out.1.world) _ _
      (replay_parsed-GrownIn deps row row.payload (fault row.id) out.0 out.1)
      (replay_events-GrownIn deps fault rest (replay_event deps fault row out))

-- A replay of the events that had no organization, whatever transactions are refused: every payment
-- keeps its id, organization, escrow, slot, amount and recipient; a payment in a terminal state is
-- not changed; and one is PAID after it only if it was before or a `payment_paid` event was pending.
replay_unattributed-GrownIn :
    (deps : Deps) (fault : Faults) (le : String → String → Bool) (limit : ℕ) (x : Indexed)
    → GrownIn
        (any is_paid_row (pending_of le deps.ctx limit x))
        (payments_of x.world)
        (payments_of (replay_unattributed deps fault le limit x).1.world)
unfolding replay_unattributed
replay_unattributed-GrownIn deps fault le limit x =
    replay_events-GrownIn deps fault (pending_of le deps.ctx limit x) _

after_batch-GrownIn :
    (deps : Deps) (around : Surroundings) (outcome : BatchOutcome) (db : Database)
    → GrownIn
        (any is_paid_row (pending_of around.database_le deps.ctx replay_limit db.indexed))
        (payments_of db.indexed.world)
        (payments_of (after_batch deps around (outcome, db)).1.indexed.world)
unfolding after_batch
after_batch-GrownIn deps around (threw why) db = GrownIn-refl _ (payments_of db.indexed.world)
after_batch-GrownIn deps around (done r) db =
    replay_unattributed-GrownIn deps around.replay_fault around.database_le replay_limit db.indexed

-- What a run of the indexer does to the payments, whatever the RPC returns and whatever transactions
-- are refused: every payment keeps its id, organization, escrow, slot, amount and recipient; a payment
-- in a terminal state is not changed; and one, old or new, is PAID after it only if it was before, or
-- a `payment_paid` event was fetched or is waiting for its organization after the batch.
pub run_indexer_from_rpc-GrownIn :
    (deps : Deps) (fault : Faults) (around : Surroundings) (db : Database)
    → let batch = process_batch (fetched deps around db) deps fault db in
      GrownIn
        (any (is_settlement deps) (fetched deps around db)
          || any is_paid_row (pending_of around.database_le deps.ctx replay_limit batch.1.indexed))
        (payments_of db.indexed.world)
        (payments_of (run_indexer_from_rpc deps fault around db).1.indexed.world)
unfolding run_indexer_from_rpc
run_indexer_from_rpc-GrownIn deps fault around db =
    let events = fetched deps around db in
    let batch = process_batch events deps fault db in
    GrownIn-trans (any (is_settlement deps) events)
      (any is_paid_row (pending_of around.database_le deps.ctx replay_limit batch.1.indexed))
      (payments_of db.indexed.world) (payments_of batch.1.indexed.world) _
      (process_batch-GrownIn events deps fault db) (after_batch-GrownIn deps around batch.0 batch.1)
