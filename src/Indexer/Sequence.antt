-- ===== src/Indexer/Sequence.antt =====
-- What a batch of events does to the table of payments: `processBatch` of src/lib/indexer/index.ts.
use core_flow.Prelude.{
  String, ◌≡◌, refl, ◌∙◌, ap, ◌⊎◌, inl, inr, Bool, true, false, ◌||◌, List, [], ◌∷◌, Option, none,
  some, Bool-cases, arith, any,
}
use mathlib.Core.Path.{subst}
use core_flow.Prelude.Table.{find_first}
use core_flow.Payments.Types.{paid}
use core_flow.Payments.Store.{Payment}
use core_flow.Indexer.Events.{CoreFlowEvent, parse_core_flow_event}
use core_flow.Indexer.World.{World, IndexerContext, Env, Indexed, Database}
use core_flow.Indexer.Added.{EventMeta}
use core_flow.Indexer.Apply.{apply_event}
use core_flow.Indexer.Batch.{
  RawIndexedEvent, Deps, Fault, Faults, duplicate_key, broken, comes_before, insert, sort,
  effect_of, process_event, is_done, has_id, Progress, started, commit, pass_over, run_events,
  process_batch,
}
use core_flow.Indexer.Held.{Held, Held-refl, Held-trans, Grown, Grown-trans}
use core_flow.Indexer.Effects.{payments_of, IsNew}
use core_flow.Indexer.Steps.{settled_by, apply_event-Grown}

-- The event reports the settlement of a payment.
abbrev pub is_paid_event : Option CoreFlowEvent → Bool
is_paid_event (some (CoreFlowEvent.payment_paid id s)) = true
is_paid_event _ = false

abbrev pub is_settlement : Deps → RawIndexedEvent → Bool
is_settlement deps raw =
    is_paid_event (parse_core_flow_event deps.conversions raw.topic0 raw.topic1 raw.value)

-- A new row that is PAID was settled by some event.
abbrev pub NewIn : Bool → Payment → Type 0
NewIn settlement p = p.state ≡ paid → settlement ≡ true

abbrev pub GrownIn : Bool → List Payment → List Payment → Type 0
GrownIn settlement xs ys = Grown (Held (λ _. settlement)) (NewIn settlement) xs ys

any-insert :
    {A : Type 0} (le : A → A → Bool) (p : A → Bool) (x : A) (xs : List A)
    → any p (insert le x xs) ≡ any p (x ∷ xs)
unfolding insert
any-insert le p x [] = refl
any-insert le p x (y ∷ ys) = ground (arith, any-insert le p x ys)

any-sort :
    {A : Type 0} (le : A → A → Bool) (p : A → Bool) (xs : List A) → any p (sort le xs) ≡ any p xs
unfolding sort
any-sort le p [] = refl
any-sort le p (x ∷ xs) = any-insert le p x (sort le xs) ∙ ap (λ b. p x || b) (any-sort le p xs)

pub GrownIn-refl : (b : Bool) (xs : List Payment) → GrownIn b xs xs
GrownIn-refl b [] = tt
GrownIn-refl b (x ∷ xs) = (Held-refl (λ _. b) x, GrownIn-refl b xs)

or_left : (a b : Bool) → a ≡ true → (a || b) ≡ true
or_left true b h = refl
or_left false b h = cc

or_right : (a b : Bool) → b ≡ true → (a || b) ≡ true
or_right true b h = refl
or_right false b h = h

pub GrownIn-trans :
    (a b : Bool) (xs ys zs : List Payment)
    → GrownIn a xs ys
    → GrownIn b ys zs
    → GrownIn (a || b) xs zs
GrownIn-trans a b =
    Grown-trans (Held (λ _. a)) (Held (λ _. b)) (Held (λ _. a || b)) (NewIn a) (NewIn b)
      (NewIn (a || b))
      (Held-trans (λ _. a) (λ _. b) (λ _. a || b) (λ r. or_left a b) (λ r s e. or_right a b))
      (λ y z new kept is_paid. elim (kept.settled is_paid) [
        | inl before ↦ or_left a b (new before)
        | inr now ↦ or_right a b now
      ])
      (λ z new is_paid. or_right a b (new is_paid))

settled_by-is_paid_event :
    (ev : CoreFlowEvent) (w : World) (p : Payment)
    → settled_by ev w p ≡ true
    → is_paid_event (some ev) ≡ true
settled_by-is_paid_event (CoreFlowEvent.created id m t) w p h = cc
settled_by-is_paid_event (CoreFlowEvent.payment_added id s) w p h = cc
settled_by-is_paid_event (CoreFlowEvent.hours id i l) w p h = cc
settled_by-is_paid_event (CoreFlowEvent.manager_approved id) w p h = cc
settled_by-is_paid_event (CoreFlowEvent.finance_approved id) w p h = cc
settled_by-is_paid_event (CoreFlowEvent.payment_paid id s) w p h = refl
settled_by-is_paid_event (CoreFlowEvent.payment_cancelled id i) w p h = cc
settled_by-is_paid_event (CoreFlowEvent.finalized id t n) w p h = cc
settled_by-is_paid_event (CoreFlowEvent.cancelled id) w p h = cc
settled_by-is_paid_event (CoreFlowEvent.oracle_rotated id r) w p h = cc

Held-wider :
    (now later : Payment → Bool)
    → ((r : Payment) → now r ≡ true → later r ≡ true)
    → (p q : Payment) → Held now p q
    → Held later p q
Held-wider now later wider p q h = record {
  same_row = h.same_row;
  same_slot = h.same_slot;
  same_money = h.same_money;
  frozen = h.frozen;
  settled = λ e. elim (h.settled e) [ inl before ↦ inl before | inr hit ↦ inr (wider p hit) ];
}

Grown-wider :
    (P Q : Payment → Payment → Type 0) (New Later : Payment → Type 0)
    → ((p q : Payment) → P p q → Q p q)
    → ((q : Payment) → New q → Later q)
    → (xs ys : List Payment) → Grown P New xs ys
    → Grown Q Later xs ys
Grown-wider P Q New Later rows new [] [] g = tt
Grown-wider P Q New Later rows new [] (y ∷ ys) g =
    (new y g.0, Grown-wider P Q New Later rows new [] ys g.1)
Grown-wider P Q New Later rows new (x ∷ xs) [] g = absurd g
Grown-wider P Q New Later rows new (x ∷ xs) (y ∷ ys) g =
    (rows x y g.0, Grown-wider P Q New Later rows new xs ys g.1)

pub apply_event-GrownIn :
    (ctx : IndexerContext) (env : Env) (meta : EventMeta) (ev : CoreFlowEvent) (w : World)
    → GrownIn
        (is_paid_event (some ev))
        (payments_of w)
        (payments_of (apply_event ctx env meta ev w).1)
apply_event-GrownIn ctx env meta ev w =
    Grown-wider (Held (settled_by ev w)) (Held (λ _. is_paid_event (some ev))) IsNew
      (NewIn (is_paid_event (some ev)))
      (Held-wider (settled_by ev w) (λ _. is_paid_event (some ev)) (settled_by-is_paid_event ev w))
      (λ q new is_paid. absurd (ground arith)) (payments_of w) _
      (apply_event-Grown ctx env meta ev w)

effect_of-GrownIn :
    (deps : Deps) (raw : RawIndexedEvent) (parsed : Option CoreFlowEvent) (w : World)
    → GrownIn (is_paid_event parsed) (payments_of w) (payments_of (effect_of deps raw parsed w).1)
unfolding effect_of
effect_of-GrownIn deps raw none w = GrownIn-refl false (payments_of w)
effect_of-GrownIn deps raw (some ev) w =
    apply_event-GrownIn deps.ctx (deps.env raw.id)
      (record { tx_hash = raw.tx_hash; ledger = raw.ledger }) ev w

process_event-GrownIn :
    (deps : Deps) (raw : RawIndexedEvent) (x : Indexed)
    → GrownIn
        (is_settlement deps raw)
        (payments_of x.world)
        (payments_of (process_event deps raw x).1.world)
unfolding process_event
process_event-GrownIn deps raw x =
    let parsed = parse_core_flow_event deps.conversions raw.topic0 raw.topic1 raw.value in
    elim (Bool-cases (is_done (find_first (has_id raw.id) x.chain_events))) [
      | inl seen ↦ rw seen (GrownIn-refl (is_settlement deps raw) (payments_of x.world))
      | inr fresh ↦ rw fresh (effect_of-GrownIn deps raw parsed x.world)
    ]

pub run_events-commits :
    (deps : Deps) (fault : Faults) (raw : RawIndexedEvent) (rest : List RawIndexedEvent)
    (p : Progress)
    → fault raw.id ≡ none
    → run_events deps fault (raw ∷ rest) p ≡ run_events deps fault rest (commit deps raw p)
unfolding run_events
run_events-commits deps fault raw rest p sound = ground arith

run_events-passes :
    (deps : Deps) (fault : Faults) (raw : RawIndexedEvent) (rest : List RawIndexedEvent)
    (p : Progress)
    → fault raw.id ≡ some duplicate_key
    → run_events deps fault (raw ∷ rest) p ≡ run_events deps fault rest (pass_over raw p)
unfolding run_events
run_events-passes deps fault raw rest p raced = ground arith

pub run_events-stops :
    (deps : Deps) (fault : Faults) (raw : RawIndexedEvent) (rest : List RawIndexedEvent)
    (p : Progress) (why : String)
    → fault raw.id ≡ some (broken why)
    → run_events deps fault (raw ∷ rest) p ≡ (some why, p)
unfolding run_events
run_events-stops deps fault raw rest p why broke = ground arith

pub fault_cases :
    (o : Option Fault)
    → (o ≡ none) ⊎ ((o ≡ some duplicate_key) ⊎ ((why : String) × (o ≡ some (broken why))))
fault_cases none = inl refl
fault_cases (some duplicate_key) = inr (inl refl)
fault_cases (some (broken why)) = inr (inr (why, refl))

run_events-GrownIn :
    (deps : Deps) (fault : Faults) (events : List RawIndexedEvent) (p : Progress)
    → GrownIn
        (any (is_settlement deps) events)
        (payments_of p.indexed.world)
        (payments_of (run_events deps fault events p).1.indexed.world)
unfolding run_events
run_events-GrownIn deps fault [] p = GrownIn-refl false (payments_of p.indexed.world)
run_events-GrownIn deps fault (raw ∷ rest) p =
    let here = is_settlement deps raw in
    let later = any (is_settlement deps) rest in
    let rows = payments_of p.indexed.world in
    elim (fault_cases (fault raw.id)) [
      | inl sound ↦ rw (run_events-commits deps fault raw rest p sound) (
          GrownIn-trans here later rows _ _ (process_event-GrownIn deps raw p.indexed)
            (run_events-GrownIn deps fault rest (commit deps raw p)))
      | inr (inl raced) ↦ rw (run_events-passes deps fault raw rest p raced) (
          GrownIn-trans here later rows rows _ (GrownIn-refl here rows)
            (run_events-GrownIn deps fault rest (pass_over raw p)))
      | inr (inr (why, broke)) ↦
          rw (run_events-stops deps fault raw rest p why broke) (GrownIn-refl (here || later) rows)
    ]

-- What a batch does to the payments, also if a fault ends it: every row keeps its id, organization,
-- escrow, slot, amount and recipient; a row in a terminal state is not changed; and a row, old or
-- new, is PAID after it only if it was before or the batch holds a `payment_paid` event.
pub process_batch-GrownIn :
    (events : List RawIndexedEvent) (deps : Deps) (fault : Faults) (db : Database)
    → GrownIn
        (any (is_settlement deps) events)
        (payments_of db.indexed.world)
        (payments_of (process_batch events deps fault db).1.indexed.world)
unfolding process_batch
process_batch-GrownIn events deps fault db =
    let le = comes_before deps.locale_le in
    let ordered = sort le events in
    subst
      (λ b.
        GrownIn b (payments_of db.indexed.world)
          (payments_of (run_events deps fault ordered (started db.indexed)).1.indexed.world))
      (any-sort le (is_settlement deps) events)
      (run_events-GrownIn deps fault ordered (started db.indexed))
