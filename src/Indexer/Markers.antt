-- ===== src/Indexer/Markers.antt =====
-- The markers of events, by which a batch that is run again passes over what is done:
-- `processBatch` of src/lib/indexer/index.ts.
use core_flow.Prelude.{
  ℕ, String, string_eq, ◌≡◌, ◌≢◌, ◌∙◌, refl, ap, inl, inr, Bool, true, false, List, [], ◌∷◌, ◌++◌,
  Option, none, ◌==◌, if◌then◌else◌, eq_self, eq-eq_true, Bool-cases, arith,
}
use core_flow.Prelude.Table.{find_first, upsert}
use core_flow.Indexer.Events.{CoreFlowEvent}
use core_flow.Indexer.World.{Indexed, ChainEvent}
use core_flow.Indexer.Added.{ApplyResult}
use core_flow.Indexer.Batch.{
  RawIndexedEvent, RunResult, Deps, has_id, effect_of, marker, mark, record_event, process_event,
  is_done, Progress, commit, tally,
}

-- The event has its marker, and was attributed.
abbrev pub is_marked : Indexed → RawIndexedEvent → Bool
is_marked x raw = is_done (find_first (has_id raw.id) x.chain_events)

-- What a run without faults leaves.
abbrev pub play : Deps → List RawIndexedEvent → Indexed → Indexed
play deps [] x = x
play deps (raw ∷ rest) x = play deps rest (process_event deps raw x).1

pub play-append :
    (deps : Deps) (xs ys : List RawIndexedEvent) (x : Indexed)
    → play deps (xs ++ ys) x ≡ play deps ys (play deps xs x)
play-append deps [] ys x = refl
play-append deps (raw ∷ xs) ys x = play-append deps xs ys (process_event deps raw x).1

-- ── Markers ──

upsert-is_done :
    (id other : String) (new : ChainEvent) (attributed : Bool) (now : ℕ) (rows : List ChainEvent)
    → new.id ≡ id
    → new.attributed ≡ attributed
    → is_done (find_first (has_id other) (upsert (has_id id) new (mark attributed now) rows))
      ≡ (if id == other then attributed else is_done (find_first (has_id other) rows))
upsert-is_done id other new attributed now [] same flag = ground arith
upsert-is_done id other new attributed now (c ∷ rows) same flag =
    ground (arith, upsert-is_done id other new attributed now rows)

pub process_event-marked :
    (deps : Deps) (raw : RawIndexedEvent) (x : Indexed)
    → is_marked x raw ≡ true
    → process_event deps raw x ≡ (none, x)
unfolding process_event
process_event-marked deps raw x seen = rw seen refl

record_event-is_done :
    (deps : Deps) (raw other : RawIndexedEvent) (parsed : Option CoreFlowEvent) (attributed : Bool)
    (rows : List ChainEvent)
    → is_done (find_first (has_id other.id) (record_event deps raw parsed attributed rows))
      ≡ (if raw.id == other.id then attributed else is_done (find_first (has_id other.id) rows))
unfolding record_event marker
record_event-is_done deps raw other parsed attributed rows =
    upsert-is_done raw.id other.id _ attributed _ rows refl refl

is_marked-id :
    (a b : String) (x : Indexed)
    → a ≡ b
    → is_done (find_first (has_id a) x.chain_events)
      ≡ is_done (find_first (has_id b) x.chain_events)
is_marked-id a b x same = ap (λ id. is_done (find_first (has_id id) x.chain_events)) same

pub process_event-apart :
    (deps : Deps) (raw other : RawIndexedEvent) (x : Indexed)
    → raw.id ≢ other.id
    → is_marked (process_event deps raw x).1 other ≡ is_marked x other
unfolding process_event
process_event-apart deps raw other x apart =
    let differ : (raw.id == other.id) ≡ false = ground arith in
    elim (Bool-cases (is_marked x raw)) [
      | inl seen ↦ rw seen refl
      | inr fresh ↦ rw (fresh, record_event-is_done deps raw other _ _ _, differ) refl
    ]

upsert_apart :
    (id other : String) (new : ChainEvent) (attributed : Bool) (now : ℕ) (rows : List ChainEvent)
    → new.id ≡ id
    → (id == other) ≡ false
    → find_first (has_id other) (upsert (has_id id) new (mark attributed now) rows)
      ≡ find_first (has_id other) rows
upsert_apart id other new attributed now [] same apart = ground arith
upsert_apart id other new attributed now (c ∷ rows) same apart =
    ground (arith, upsert_apart id other new attributed now rows)

record_event_apart :
    (deps : Deps) (raw other : RawIndexedEvent) (parsed : Option CoreFlowEvent) (attributed : Bool)
    (rows : List ChainEvent)
    → (raw.id == other.id) ≡ false
    → find_first (has_id other.id) (record_event deps raw parsed attributed rows)
      ≡ find_first (has_id other.id) rows
unfolding record_event marker
record_event_apart deps raw other parsed attributed rows apart =
    upsert_apart raw.id other.id _ attributed _ rows refl apart

-- The marker of an event, attributed or not.
abbrev pub marker_of : Indexed → RawIndexedEvent → Option ChainEvent
marker_of x raw = find_first (has_id raw.id) x.chain_events

-- An event writes no marker but its own.
pub process_event-marker_of :
    (deps : Deps) (raw other : RawIndexedEvent) (x : Indexed)
    → raw.id ≢ other.id
    → marker_of (process_event deps raw x).1 other ≡ marker_of x other
unfolding process_event
process_event-marker_of deps raw other x apart =
    let differ : (raw.id == other.id) ≡ false = ground arith in
    elim (Bool-cases (is_marked x raw)) [
      | inl seen ↦ rw seen refl
      | inr fresh ↦ rw fresh (record_event_apart deps raw other _ _ _ differ)
    ]

-- A marker stays.
process_event-keeps :
    (deps : Deps) (raw other : RawIndexedEvent) (x : Indexed)
    → is_marked x other ≡ true
    → is_marked (process_event deps raw x).1 other ≡ true
process_event-keeps deps raw other x before = elim (Bool-cases (raw.id == other.id)) [
  | inl same ↦
      let here : is_marked x raw ≡ true =
        is_marked-id raw.id other.id x (eq-eq_true raw.id other.id same) ∙ before in
      ap (λ out. is_marked out.1 other) (process_event-marked deps raw x here) ∙ before
  | inr differ ↦ process_event-apart deps raw other x (ground arith) ∙ before
]

pub play-keeps :
    (deps : Deps) (events : List RawIndexedEvent) (other : RawIndexedEvent) (x : Indexed)
    → is_marked x other ≡ true
    → is_marked (play deps events x) other ≡ true
play-keeps deps [] other x before = before
play-keeps deps (raw ∷ rest) other x before =
    play-keeps deps rest other (process_event deps raw x).1
      (process_event-keeps deps raw other x before)

tally_attributed :
    (applied : ApplyResult) (r : RunResult)
    → (tally applied r).unattributed ≡ 0
    → applied.attributed ≡ true
tally_attributed applied r counted = ground arith

-- An event that is counted as attributed is marked.
pub commit-marks :
    (deps : Deps) (raw : RawIndexedEvent) (p : Progress)
    → (commit deps raw p).result.unattributed ≡ 0
    → is_marked (commit deps raw p).indexed raw ≡ true
unfolding process_event
commit-marks deps raw p counted = elim (Bool-cases (is_marked p.indexed raw)) [
  | inl seen ↦ rw seen seen
  | inr fresh ↦
      rw (fresh, record_event-is_done deps raw raw _ _ _, eq_self raw.id)
        (tally_attributed (effect_of deps raw _ p.indexed.world).0 p.result (rw fresh at counted))
]

pub commit-unattributed :
    (deps : Deps) (raw : RawIndexedEvent) (p : Progress)
    → (commit deps raw p).result.unattributed ≡ 0
    → p.result.unattributed ≡ 0
unfolding process_event
commit-unattributed deps raw p counted = ground arith
