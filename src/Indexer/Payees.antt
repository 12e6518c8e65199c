-- ===== src/Indexer/Payees.antt =====
-- What a settlement and a payment's creation do to the table of payments: `applyEvent` of
-- src/lib/indexer/index.ts.
use core_flow.Prelude.{
  ℕ, String, ◌≡◌, refl, ◌∙◌, inl, inr, Bool, true, some, ◌==◌, string_eq, option_eq, nat_eq,
  Bool-cases, arith,
}
use mathlib.Core.Path.{subst}
use core_flow.Prelude.Table.{Rows, Rows-refl, Rows-trans}
use core_flow.Payments.Types.{paid, validating, payment_state_eq, PaymentState-discrete}
use core_flow.Payments.Store.{Payment}
use core_flow.Payments.Service.{
  TransitionRequest, TransitionOutcome, changed, unchanged, denied, apply_transition,
}
use core_flow.Payments.Transfer.{Follows, apply_read-Follows}
use core_flow.Indexer.Events.{AddedSlot, PaidSlot}
use core_flow.Indexer.World.{
  Escrow, World, IndexerContext, Env, find_escrow, ensure_escrow, ensure_batch, ensure_worker,
  transition, find_slot, escrow_batch_reference,
}
use core_flow.Indexer.Added.{
  ApplyResult, nothing, EventMeta, is_different, advance_request, after_advance, replay_added,
  new_payment, apply_added,
}
use core_flow.Indexer.Settled.{paid_request, compare_paid, after_paid, settle, apply_paid}
use core_flow.Indexer.Held.{
  Held, nobody, Held-refl, Held-weaken, Follows-Held, Grown, Rows-Grown, create-Grown,
}
use core_flow.Indexer.Effects.{
  payments_of, is_at, IsNew, Calm, calm, ensure_escrow-payments, ensure_batch-payments,
  ensure_worker-payments, transition-Held,
}
use core_flow.Indexer.Branches.{on_escrow-cases, on_slot-cases}

-- ── payment_paid ──

after_paid-payments :
    (org : String) (p : Payment) (out : ApplyResult) (t : TransitionOutcome × World)
    → payments_of (after_paid org p out t).1 ≡ payments_of t.1
unfolding after_paid
after_paid-payments org p out (changed a b, w) = refl
after_paid-payments org p out (unchanged a, w) = refl
after_paid-payments org p out (denied status code, w) = refl

compare_paid-payments :
    (org : String) (s : PaidSlot) (p : Payment) (out : ApplyResult × World)
    → payments_of (compare_paid org s p out).1 ≡ payments_of out.1
unfolding compare_paid
compare_paid-payments org s p out = ground arith

transition-Follows :
    (req : TransitionRequest) (now : ℕ) (w : World)
    → Rows (Follows req) (payments_of w) (payments_of (transition req now w).1)
unfolding transition apply_transition
transition-Follows req now w = apply_read-Follows req now w.books.store w.books.store

-- The table after an event, with the rows that it settles.
abbrev pub Settles : (Payment → Bool) → World → World → Type 0
Settles settles w w' = Rows (Held settles) (payments_of w) (payments_of w')

weaken : (settles : Payment → Bool) (w w' : World) → Calm w w' → Settles settles w w'
weaken settles w w' c =
    Rows-trans (Held nobody) (λ p q. p ≡ q) (Held settles)
      (λ x y z h e. rw (← e) (Held-weaken settles x y h)) (payments_of w) (payments_of w')
      (payments_of w') c (Rows-refl (λ p q. p ≡ q) (λ p. refl) (payments_of w'))

transition-Settles :
    (req : TransitionRequest) (now : ℕ) (w : World) (settles : Payment → Bool)
    → ((r : Payment) → r.id ≡ req.payment_id → settles r ≡ true)
    → Settles settles w (transition req now w).1
transition-Settles req now w settles allowed =
    Rows-trans (Follows req) (λ a b. a ≡ b) (Held settles)
      (λ x y z f e. rw (← e) (Follows-Held settles req x y (λ r here to. allowed r here) f))
      (payments_of w) _ _ (transition-Follows req now w) (Rows-refl (λ a b. a ≡ b) (λ a. refl) _)

settle-Settles :
    (env : Env) (meta : EventMeta) (org : String) (id : ℕ) (s : PaidSlot) (p : Payment) (w : World)
    (settles : Payment → Bool)
    → ((r : Payment) → r.id ≡ p.id → settles r ≡ true)
    → Settles settles w (settle env meta org id s p w).1
unfolding settle paid_request
settle-Settles env meta org id s p w settles allowed =
    let out = compare_paid org s p (nothing, w) in
    let req = paid_request meta org id s p in
    let same : payments_of out.1 ≡ payments_of w = compare_paid-payments org s p (nothing, w) in
    elim (Bool-cases (p.state == paid)) [
      | inl before ↦
          rw (before, same) (Rows-refl (Held settles) (Held-refl settles) (payments_of w))
      | inr open_ ↦
          rw (open_, after_paid-payments org p out.0 (transition req env.now out.1))
            (subst (λ rows. Rows (Held settles) rows (payments_of (transition req env.now out.1).1))
              (same) (transition-Settles req env.now out.1 settles allowed))
    ]

is_at_lem :
    (id index : ℕ) (w : World) (e : Escrow) (p r : Payment)
    → find_escrow id w ≡ some e
    → find_slot e.id index w ≡ some p
    → r.id ≡ p.id
    → is_at id index w r ≡ true
is_at_lem id index w e p r found slot same = ground arith

pub apply_paid-Settles :
    (env : Env) (meta : EventMeta) (org : String) (id : ℕ) (s : PaidSlot) (w : World)
    → Settles (is_at id s.payment_index w) w (apply_paid env meta org id s w).1
unfolding apply_paid
apply_paid-Settles env meta org id s w =
    let at = is_at id s.payment_index w in
    let same = Rows-refl (Held at) (Held-refl at) (payments_of w) in
    on_escrow-cases (λ out. Settles at w out.1) id w _ same
      (λ e found.
        on_slot-cases (λ out. Settles at w out.1) e.id s.payment_index w _ _ same
          (λ p slot.
            settle-Settles env meta org id s p w at
              (λ r same_id. is_at_lem id s.payment_index w e p r found slot same_id)))

-- ── payment_added ──

after_advance-payments :
    (out : ApplyResult) (t : TransitionOutcome × World)
    → payments_of (after_advance out t).1 ≡ payments_of t.1
unfolding after_advance
after_advance-payments out (changed a b, w) = refl
after_advance-payments out (unchanged a, w) = refl
after_advance-payments out (denied status code, w) = refl

replay_added-Calm :
    (env : Env) (org : String) (s : AddedSlot) (existing : Payment) (w : World)
    → Calm w (replay_added env org s existing w).1
unfolding replay_added PaymentState-discrete
replay_added-Calm env org s existing w = elim (Bool-cases (is_different s existing)) [
  | inl differs ↦ rw differs (elim (Bool-cases (existing.state == validating)) [
    | inl funded ↦
        rw (funded, after_advance-payments _ _)
          (transition-Held (advance_request org existing) env.now _ refl)
    | inr past ↦ rw past (calm w)
  ])
  | inr agrees ↦ rw agrees (elim (Bool-cases (existing.state == validating)) [
    | inl funded ↦
        rw (funded, after_advance-payments _ _)
          (transition-Held (advance_request org existing) env.now _ refl)
    | inr past ↦ rw past (calm w)
  ])
]

-- Rows as they may be after an event that settles none, then rows that are new.
abbrev pub GrownOut : World → ApplyResult × World → Type 0
GrownOut w out = Grown (Held nobody) IsNew (payments_of w) (payments_of out.1)

pub apply_added-Grown :
    (ctx : IndexerContext) (env : Env) (meta : EventMeta) (org : String) (id : ℕ) (s : AddedSlot)
    (w : World)
    → GrownOut w (apply_added ctx env meta org id s w)
unfolding apply_added
apply_added-Grown ctx env meta org id s w =
    let e = ensure_escrow ctx env org id (λ e. e) w in
    let b = ensure_batch env org (escrow_batch_reference id) e.1 in
    let k = ensure_worker env org s.worker b.1 in
    let same : payments_of k.1 ≡ payments_of w =
      ensure_worker-payments env org s.worker b.1
      ∙ ensure_batch-payments env org id e.1
      ∙ ensure_escrow-payments ctx env org id (λ e. e) w in
    subst
      (λ rows. Grown (Held nobody) IsNew rows (payments_of (apply_added ctx env meta org id s w).1))
      (same)
      (on_slot-cases (GrownOut k.1) e.0.id s.payment_index k.1 _ _
        (create-Grown (Held nobody) IsNew (new_payment ctx env org s e.0 b.0.id k.0.id)
          (payments_of k.1) (Held-refl nobody) refl)
        (λ p slot.
          Rows-Grown (Held nobody) IsNew (payments_of k.1) _ (replay_added-Calm env org s p k.1)))
