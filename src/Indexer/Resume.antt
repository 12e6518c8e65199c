-- ===== src/Indexer/Resume.antt =====
-- A batch that is run again, after a fault or after its end: `processBatch` of
-- src/lib/indexer/index.ts.
use core_flow.Prelude.{
  ℕ, String, string_eq, ◌≡◌, refl, sym, ◌∙◌, ap, ◌≢◌, inl, inr, true, List, [], ◌∷◌, ◌++◌, Option,
  none, some, ◌≤◌, all, eq_self, arith,
}
use core_flow.Indexer.World.{Indexed, Database, IndexerContext, IndexerCursor}
use core_flow.Indexer.Batch.{
  RawIndexedEvent, RunResult, Deps, Faults, duplicate_key, comes_before, sort, Progress, started,
  commit, max, run_events, done, outcome_of, set_cursor, settle_cursor, process_batch,
}
use core_flow.Indexer.Sequence.{run_events-commits, run_events-stops, fault_cases}
use core_flow.Indexer.Markers.{
  is_marked, play, play-append, process_event-marked, play-keeps, commit-marks, commit-unattributed,
}

-- ── Runs ──

-- The highest ledger of events, above one.
abbrev top : List RawIndexedEvent → ℕ → ℕ
top [] n = n
top (raw ∷ rest) n = top rest (max n raw.ledger)

top_grows : (xs ys : List RawIndexedEvent) (n : ℕ) → top xs n ≤ top (xs ++ ys) n
top_grows [] [] n = omega arith
top_grows [] (y ∷ ys) n = ground (arith, top_grows [] ys (max n y.ledger))
top_grows (x ∷ xs) ys n = top_grows xs ys (max n x.ledger)

top_le : (events xs ys : List RawIndexedEvent) (n : ℕ) → events ≡ xs ++ ys → top xs n ≤ top events n
top_le events xs ys n parts = rw parts (top_grows xs ys n)

module _ (deps : Deps) (fault : Faults) (sound : (id : String) → fault id ≡ none) where
  run_events-plays :
      (events : List RawIndexedEvent) (p : Progress)
      → let out = run_events deps fault events p in
        (out.0 ≡ none)
        × (out.1.indexed ≡ play deps events p.indexed)
        × (out.1.committed_ledger ≡ top events p.committed_ledger)
  unfolding run_events
  run_events-plays [] p = (refl, refl, refl)
  run_events-plays (raw ∷ rest) p =
      rw (run_events-commits deps fault raw rest p (sound raw.id))
        (run_events-plays rest (commit deps raw p))

  run_events-unattributed :
      (events : List RawIndexedEvent) (p : Progress)
      → (run_events deps fault events p).1.result.unattributed ≡ 0
      → p.result.unattributed ≡ 0
  unfolding run_events
  run_events-unattributed [] p counted = counted
  run_events-unattributed (raw ∷ rest) p counted = commit-unattributed deps raw p (
      run_events-unattributed rest (commit deps raw p)
        (rw (run_events-commits deps fault raw rest p (sound raw.id)) at counted))

  -- Each event of a prefix has its marker once the prefix is done.
  run_events-marks :
      (done_ rest : List RawIndexedEvent) (p : Progress)
      → (run_events deps fault (done_ ++ rest) p).1.result.unattributed ≡ 0
      → all (is_marked (play deps done_ p.indexed)) done_ ≡ true
  run_events-marks [] rest p counted = refl
  run_events-marks (raw ∷ done_) rest p counted =
      let counted' =
        rw (run_events-commits deps fault raw (done_ ++ rest) p (sound raw.id)) at counted in
      let later = run_events-marks done_ rest (commit deps raw p) counted' in
      let here = play-keeps deps done_ raw (commit deps raw p).indexed (
        commit-marks deps raw p
          (run_events-unattributed (done_ ++ rest) (commit deps raw p) counted')) in
      ground arith

-- Events that all have their markers are passed over.
play-marked :
    (deps : Deps) (events : List RawIndexedEvent) (x : Indexed)
    → all (is_marked x) events ≡ true
    → play deps events x ≡ x
play-marked deps [] x marked = refl
play-marked deps (raw ∷ rest) x marked =
    let here : is_marked x raw ≡ true = ground arith in
    ap (λ out. play deps rest out.1) (process_event-marked deps raw x here)
    ∙ play-marked deps rest x (ground arith)

-- What is left where a fault may have ended the run.
run_events-stopped :
    (deps : Deps) (fault : Faults) (events : List RawIndexedEvent) (p : Progress)
    → ((id : String) → fault id ≢ some duplicate_key)
    → (done_ rest : List RawIndexedEvent) × (events ≡ done_ ++ rest)
      × ((run_events deps fault events p).1.indexed ≡ play deps done_ p.indexed)
      × ((run_events deps fault events p).1.committed_ledger ≡ top done_ p.committed_ledger)
unfolding run_events
run_events-stopped deps fault [] p alone = ([], [], refl, refl, refl)
run_events-stopped deps fault (raw ∷ rest) p alone = elim (fault_cases (fault raw.id)) [
  | inl sound ↦
      let later = run_events-stopped deps fault rest (commit deps raw p) alone in
      rw (run_events-commits deps fault raw rest p sound)
        (raw ∷ later.0, later.1, ap (λ l. raw ∷ l) later.2, later.3, later.4)
  | inr (inl raced) ↦ absurd (alone raw.id raced)
  | inr (inr (why, broke)) ↦
      rw (run_events-stops deps fault raw rest p why broke) ([], raw ∷ rest, refl, refl, refl)
]

-- ── The cursor ──

set_cursor-twice :
    (ctx : IndexerContext) (a b : ℕ) (cursors : List IndexerCursor)
    → set_cursor ctx b (set_cursor ctx a cursors) ≡ set_cursor ctx b cursors
unfolding set_cursor
set_cursor-twice ctx a b [] = ground (arith, eq_self ctx.contract_id, eq_self ctx.network)
set_cursor-twice ctx a b (c ∷ cursors) = ground (arith, set_cursor-twice ctx a b cursors)

settle_cursor-twice :
    (ctx : IndexerContext) (a b : ℕ) (cursors : List IndexerCursor)
    → a ≤ b
    → settle_cursor ctx b (settle_cursor ctx a cursors) ≡ settle_cursor ctx b cursors
settle_cursor-twice ctx a b cursors le = ground (arith, set_cursor-twice ctx a b cursors)

play-twice :
    (deps : Deps) (events done_ rest : List RawIndexedEvent) (x : Indexed)
    → events ≡ done_ ++ rest
    → all (is_marked (play deps done_ x)) done_ ≡ true
    → play deps events (play deps done_ x) ≡ play deps events x
play-twice deps events done_ rest x parts marked = rw parts (
    play-append deps done_ rest (play deps done_ x)
    ∙ ap (play deps rest) (play-marked deps done_ (play deps done_ x) marked)
    ∙ sym (play-append deps done_ rest x))

abbrev pub no_faults : Faults
no_faults id = none

unattributed_of :
    (out : Option String × Progress) (r : RunResult)
    → outcome_of out ≡ done r
    → r.unattributed ≡ 0
    → out.1.result.unattributed ≡ 0
unattributed_of (none, p) r h zero_ = ground arith
unattributed_of (some why, p) r h zero_ = absurd (ground arith)

-- A batch whose every event is attributed to an organization can be cut short by a fault at any
-- event, or run to its end, and be run again: the second run leaves the very database that one run
-- without faults leaves. (A fault is an error of the database, not the loss of a race for a marker;
-- the time of an event's transaction and the ids of its new rows are the same in every run.)
pub process_batch-resume :
    (events : List RawIndexedEvent) (deps : Deps) (fault : Faults) (db : Database) (r : RunResult)
    → ((id : String) → fault id ≢ some duplicate_key)
    → (process_batch events deps no_faults db).0 ≡ done r
    → r.unattributed ≡ 0
    → (process_batch events deps no_faults (process_batch events deps fault db).1).1
      ≡ (process_batch events deps no_faults db).1
unfolding process_batch
process_batch-resume events deps fault db r alone finished attributed =
    let ordered = sort (comes_before deps.locale_le) events in
    let p = started db.indexed in
    let (done_, rest, parts, left, reached) = run_events-stopped deps fault ordered p alone in
    let cut = (run_events deps fault ordered p).1 in
    let whole = run_events-plays deps no_faults (λ _. refl) ordered p in
    let again = run_events-plays deps no_faults (λ _. refl) ordered (started cut.indexed) in
    let counted = unattributed_of (run_events deps no_faults ordered p) r finished attributed in
    let marked = run_events-marks deps no_faults (λ _. refl) done_ rest p (rw parts at counted) in
    let same : (run_events deps no_faults ordered (started cut.indexed)).1.indexed
        ≡ (run_events deps no_faults ordered p).1.indexed =
      again.1
      ∙ ap (play deps ordered) left
      ∙ play-twice deps ordered done_ rest db.indexed parts marked
      ∙ sym whole.1 in
    let cursor : settle_cursor deps.ctx
          (run_events deps no_faults ordered (started cut.indexed)).1.committed_ledger
          (settle_cursor deps.ctx cut.committed_ledger db.cursors)
        ≡ settle_cursor deps.ctx (run_events deps no_faults ordered p).1.committed_ledger
            db.cursors =
      rw (again.2, whole.2, reached)
        (settle_cursor-twice deps.ctx (top done_ 0) (top ordered 0) db.cursors
          (top_le ordered done_ rest 0 parts)) in
    λ i. record { indexed = same i; cursors = cursor i }
