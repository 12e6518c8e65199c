-- ===== src/Indexer/Tests.antt =====
-- Runs of the indexer on an escrow with one payment.
use core_flow.Prelude.{
  ℕ, String, string_discrete, option_discrete, ℕ_discrete, ◌≡◌, ◌≢◌, refl, ap, true, false, [], ◌∷◌,
  map, none, some, any, ◌<◌, arith, if◌then◌else◌, ◌==◌, ◌||◌, string_eq, nat_eq, zero, suc, leb,
}
use mathlib.Core.List.{Permᴰ}
use Prim.Native.Char.{code}
use core_flow.Prelude.Int.{ℤ, pos, negsuc}
use core_flow.Indexer.Events.{
  Value, Scalar, kind_of, payment_index_of, parse_core_flow_event, to_num,
}
use core_flow.Indexer.World.{
  Indexed, Database, ChainEvent, EventType, resolve_escrow_tenant, find_escrow,
}
use core_flow.Indexer.Added.{on_escrow}
use core_flow.Indexer.Approvals.{apply_cancelled}
use core_flow.Indexer.Apply.{apply_event, apply_in}
use core_flow.Indexer.Batch.{
  RawIndexedEvent, RunResult, Deps, Faults, broken, duplicate_key, done, threw, start_ledger,
  get_cursor, insert, sort, effect_of, marker, record_event, process_event, run_events,
  process_batch,
}
use core_flow.Indexer.Payload.{
  BigIntText, entries, serialize_payload, deserialize_payload,
  deserialize_payload-serialize_payload,
}
use core_flow.Indexer.Replay.{pending_of}
use core_flow.Indexer.Held.{Held, Grown}
use core_flow.Indexer.Effects.{payments_of, IsNew}
use core_flow.Indexer.Steps.{settled_by, apply_event-Grown}
use core_flow.Indexer.Sequence.{is_settlement, GrownIn, process_batch-GrownIn}
use core_flow.Indexer.Order.{OrdersIds, process_batch-Perm}
use core_flow.Indexer.Markers.{marker_of}
use core_flow.Indexer.Resume.{no_faults, process_batch-resume}
use core_flow.Indexer.Cursor.{process_batch_loses}
use core_flow.Indexer.Backlog.{is_paid_row, run_indexer_from_rpc-GrownIn}
use core_flow.Indexer.Run.{Surroundings, run_indexer_from_rpc}
use core_flow.Indexer.Sample.{
  ctx, env, world, database, settled_event, meta, raw_event, first, second, deps,
}

apply_event-Grown_example :
    Grown
      (Held (settled_by settled_event world))
      IsNew
      (payments_of world)
      (payments_of (apply_event ctx (env "p2") meta settled_event world).1)
apply_event-Grown_example = apply_event-Grown ctx (env "p2") meta settled_event world

process_batch-GrownIn_example :
    GrownIn
      (any (is_settlement deps) (second ∷ first ∷ []))
      (payments_of world)
      (payments_of (process_batch (second ∷ first ∷ []) deps no_faults database).1.indexed.world)
process_batch-GrownIn_example = process_batch-GrownIn (second ∷ first ∷ []) deps no_faults database

-- Numbers in unary.
abbrev ones : ℕ → String
ones zero = ""
ones (suc n) = String.◌∷◌ "1" (ones n)

abbrev count_ones : String → ℕ
count_ones String.[] = 0
count_ones (String.◌∷◌ c s) = suc (count_ones s)

count_ones-ones : (n : ℕ) → count_ones (ones n) ≡ n
count_ones-ones zero = refl
count_ones-ones (suc n) = ap suc (count_ones-ones n)

-- Events of one ledger, with numbered ids.
abbrev numbered : ℕ → RawIndexedEvent
numbered n = record first { id = ones n }

abbrev by_number : Deps
by_number = record deps { locale_le = λ s t. leb (count_ones s) (count_ones t) }

numbered-OrdersIds : OrdersIds by_number.locale_le numbered
numbered-OrdersIds = record {
  total = λ a b h. ground (arith, count_ones-ones a, count_ones-ones b);
  transitive = λ a b c h k. ground (arith, count_ones-ones a, count_ones-ones b, count_ones-ones c);
  antisymmetric = λ a b h k. ground (arith, count_ones-ones a, count_ones-ones b);
}

process_batch-Perm_example :
    process_batch (map numbered (2 ∷ 1 ∷ [])) by_number no_faults database
    ≡ process_batch (map numbered (1 ∷ 2 ∷ [])) by_number no_faults database
process_batch-Perm_example =
    process_batch-Perm by_number no_faults numbered (2 ∷ 1 ∷ []) (1 ∷ 2 ∷ []) database
      numbered-OrdersIds (Permᴰ.swap refl refl)

abbrev closing : RawIndexedEvent
closing = raw_event "escrow" "cancel" (Value.scalar (Scalar.number 3)) "a"

-- The second event meets a fault.
abbrev fault_at_b : Faults
fault_at_b id = if id == "b" then some (broken "timeout") else none

abbrev both : RunResult
both = record {
  processed = 2;
  skipped = 0;
  last_ledger = 40;
  payments_created = 0;
  payments_paid = 0;
  findings = 0;
  unattributed = 0;
}

only_broken : (id : String) → fault_at_b id ≢ some duplicate_key
only_broken id h = absurd (ground arith)

both_lem : (process_batch (closing ∷ second ∷ []) deps no_faults database).0 ≡ done both
unfolding process_batch sort insert run_events process_event parse_core_flow_event effect_of
    apply_event resolve_escrow_tenant string_discrete ℕ_discrete option_discrete record_event marker
    to_num apply_in apply_cancelled on_escrow find_escrow kind_of payment_index_of
both_lem = refl

process_batch-resume_example :
    (process_batch
      (closing ∷ second ∷ [])
      deps
      no_faults
      (process_batch (closing ∷ second ∷ []) deps fault_at_b database).1).1
    ≡ (process_batch (closing ∷ second ∷ []) deps no_faults database).1
process_batch-resume_example =
    process_batch-resume (closing ∷ second ∷ []) deps fault_at_b database both only_broken both_lem
      refl

differ : first.id ≢ second.id
unfolding string_discrete
differ h = let e : false ≡ true = ap (λ (s : String). s == "b") h in cc

clear : fault_at_b "a" ≡ none
unfolding string_discrete
clear = refl

struck : fault_at_b "b" ≡ some (broken "timeout")
unfolding string_discrete
struck = refl

process_batch_loses_example :
    let out = process_batch (first ∷ second ∷ []) deps fault_at_b database in
    (out.0 ≡ threw "timeout")
    × (marker_of out.1.indexed second ≡ none)
    × (40 < start_ledger 900 (get_cursor ctx out.1.cursors))
process_batch_loses_example =
    process_batch_loses deps fault_at_b database first second "timeout" 900 refl (omega arith) refl
      differ clear struck refl

abbrev waiting : ChainEvent
waiting = record {
  id = "a";
  contract_id = "CA";
  network = "testnet";
  type = EventType.known "payment_paid";
  ledger = 40;
  tx_hash = some "h1";
  escrow_on_chain_id = some 3;
  payment_index = some 0;
  payload = some settled_event;
  attributed = false;
  processed_at = 0;
}

abbrev backlog : Indexed
backlog = record { world = world; chain_events = waiting ∷ [] }

abbrev around : Surroundings
around = record {
  latest = 900;
  events_from = λ n. second ∷ [];
  replay_fault = no_faults;
  database_le = λ a b. true;
}

abbrev claimed : Database
claimed = record { indexed = backlog; cursors = [] }

run_indexer_from_rpc-GrownIn_example :
    GrownIn
      (any (is_settlement deps) (second ∷ [])
        || any is_paid_row (
            pending_of around.database_le ctx 1000
              (process_batch (second ∷ []) deps no_faults claimed).1.indexed))
      (payments_of world)
      (payments_of (run_indexer_from_rpc deps no_faults around claimed).1.indexed.world)
run_indexer_from_rpc-GrownIn_example = run_indexer_from_rpc-GrownIn deps no_faults around claimed

-- Digits in unary, after a sign.
abbrev print_unary : ℤ → String
print_unary (pos n) = String.◌∷◌ "+" (ones n)
print_unary (negsuc n) = String.◌∷◌ "-" (ones n)

abbrev parse_unary : String → ℤ
parse_unary String.[] = pos 0
parse_unary (String.◌∷◌ c s) = if code c == 43 then pos (count_ones s) else negsuc (count_ones s)

abbrev unary : BigIntText
unary = record { print = print_unary; parse = parse_unary }

unary_back : (z : ℤ) → parse_unary (print_unary z) ≡ z
unfolding ℕ_discrete
unary_back (pos n) = ap pos (count_ones-ones n)
unary_back (negsuc n) = ap negsuc (count_ones-ones n)

deserialize_payload-serialize_payload_example :
    deserialize_payload unary (serialize_payload unary (some settled_event))
    ≡ some (entries settled_event)
deserialize_payload-serialize_payload_example =
    deserialize_payload-serialize_payload unary (some settled_event) unary_back
