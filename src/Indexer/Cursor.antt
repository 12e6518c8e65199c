-- ===== src/Indexer/Cursor.antt =====
-- The cursor after a batch: `setCursor` and `getCursor` of src/lib/indexer/index.ts, and the start of
-- the next run in src/lib/indexer/run.ts.
use core_flow.Prelude.{
  ℕ, ◌<◌, String, string_eq, nat_eq, ◌≡◌, ◌≢◌, refl, ◌∙◌, Bool, true, List, [], ◌∷◌, none, some,
  eq_self, arith,
}
use core_flow.Indexer.World.{Database, IndexerContext, IndexerCursor}
use core_flow.Indexer.Batch.{
  RawIndexedEvent, Deps, Faults, broken, comes_before, insert, sort, started, commit, max, threw,
  get_cursor, set_cursor, settle_cursor, start_ledger, process_batch,
}
use core_flow.Indexer.Markers.{marker_of, process_event-marker_of}
use core_flow.Indexer.Sequence.{run_events-commits, run_events-stops}

get_cursor-set_cursor :
    (ctx : IndexerContext) (ledger : ℕ) (cursors : List IndexerCursor)
    → get_cursor ctx (set_cursor ctx ledger cursors) ≡ ledger
unfolding get_cursor set_cursor
get_cursor-set_cursor ctx ledger [] = ground (arith, eq_self ctx.contract_id, eq_self ctx.network)
get_cursor-set_cursor ctx ledger (c ∷ cursors) =
    ground (arith, get_cursor-set_cursor ctx ledger cursors)

sort_two :
    (le : String → String → Bool) (a b : RawIndexedEvent)
    → a.ledger ≡ b.ledger
    → le a.id b.id ≡ true
    → sort (comes_before le) (a ∷ b ∷ []) ≡ a ∷ b ∷ []
unfolding sort insert
sort_two le a b same first = ground arith

start_ledger-after :
    (ctx : IndexerContext) (latest ledger : ℕ) (cursors : List IndexerCursor)
    → 0 < ledger
    → ledger < start_ledger latest (get_cursor ctx (settle_cursor ctx ledger cursors))
unfolding start_ledger
start_ledger-after ctx latest ledger cursors above =
    ground (arith, get_cursor-set_cursor ctx ledger cursors)

-- Of two events of one ledger the second meets a fault: the batch throws, and that event has no
-- marker at all if it had none, attributed or waiting, but the next run starts above its ledger.
pub process_batch_loses :
    (deps : Deps) (fault : Faults) (db : Database) (a b : RawIndexedEvent) (why : String)
    (latest : ℕ)
    → a.ledger ≡ b.ledger
    → 0 < a.ledger
    → deps.locale_le a.id b.id ≡ true
    → a.id ≢ b.id
    → fault a.id ≡ none
    → fault b.id ≡ some (broken why)
    → marker_of db.indexed b ≡ none
    → let out = process_batch (a ∷ b ∷ []) deps fault db in
      (out.0 ≡ threw why)
      × (marker_of out.1.indexed b ≡ none)
      × (b.ledger < start_ledger latest (get_cursor deps.ctx out.1.cursors))
unfolding process_batch
process_batch_loses deps fault db a b why latest same above first apart sound broke fresh =
    let top_is : max 0 a.ledger ≡ b.ledger = ground arith in
    rw
      (
        sort_two deps.locale_le a b same first,
        run_events-commits deps fault a (b ∷ []) (started db.indexed) sound,
        run_events-stops deps fault b [] (commit deps a (started db.indexed)) why broke,
      )
      (
        refl,
        process_event-marker_of deps a b db.indexed apart ∙ fresh,
        omega (
          arith,
          top_is,
          start_ledger-after deps.ctx latest (max 0 a.ledger) db.cursors (omega (arith, top_is)),
        ),
      )
