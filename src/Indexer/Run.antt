-- ===== src/Indexer/Run.antt =====
-- `runIndexerFromRpc` of src/lib/indexer/run.ts. What the RPC returns from a ledger on is a parameter.
use core_flow.Prelude.{ℕ, ◌+◌, String, Bool, List}
use core_flow.Indexer.World.{Database}
use core_flow.Indexer.Batch.{
  RawIndexedEvent, Deps, Faults, BatchOutcome, done, threw, get_cursor, start_ledger, process_batch,
}
use core_flow.Indexer.Replay.{replay_unattributed}

-- The latest ledger, the first page of events from a ledger on, the transactions that are refused in
-- the replay, and the database's order of ids.
pub record Surroundings : Type 0 where
  pub latest : ℕ
  pub events_from : ℕ → List RawIndexedEvent
  pub replay_fault : Faults
  pub database_le : String → String → Bool

-- `opts.limit ?? 1000`
abbrev pub replay_limit : ℕ
replay_limit = 1000

abbrev pub fetched : Deps → Surroundings → Database → List RawIndexedEvent
fetched deps around db =
    around.events_from (start_ledger around.latest (get_cursor deps.ctx db.cursors))

-- What follows the batch: nothing if it threw, and otherwise the replay.
unfoldable pub after_batch : Deps → Surroundings → BatchOutcome × Database → BatchOutcome × Database
after_batch deps around (threw why, db) = (threw why, db)
after_batch deps around (done r, db) =
    let out =
      replay_unattributed deps around.replay_fault around.database_le replay_limit db.indexed in
    (
      done (record r {
        payments_created = r.payments_created + out.0.payments_created;
        payments_paid = r.payments_paid + out.0.payments_paid;
        unattributed = out.0.still_unattributed;
      }),
      record db { indexed = out.1 },
    )

unfoldable pub run_indexer_from_rpc :
    Deps → Faults → Surroundings → Database → BatchOutcome × Database
run_indexer_from_rpc deps fault around db =
    after_batch deps around (process_batch (fetched deps around db) deps fault db)
