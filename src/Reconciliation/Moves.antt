-- ===== src/Reconciliation/Moves.antt =====
-- The reconciliation moves a payment only on what the chain says of its slot.
use core_flow.Prelude.{
  ℕ, String, ◌≡◌, refl, sym, ap, ◌∙◌, ◌≢◌, ◌⊎◌, inl, inr, ◌&&◌, not, List, [], ◌∷◌, Option, some,
  ◌==◌, string_eq, nat_eq, eq-eq_true, Bool-cases, arith,
}
use core_flow.Prelude.Table.{Rows, Rows-refl}
use core_flow.Payments.Types.{
  PaymentState, paid, cancelled, reconciliation_required, payment_state_eq,
}
use core_flow.Payments.Store.{Payment, number, Metadata, Store}
use core_flow.Payments.Service.{TransitionRequest, TransitionOutcome, apply_transition}
use core_flow.Payments.Transfer.{Follows, apply_read-Follows}
use core_flow.Reconciliation.Views.{finalized, chain_cancelled, ChainPaymentView, LoadedEscrow, Run}
use core_flow.Reconciliation.Findings.{
  chain_paid_db_not, db_paid_chain_not, Quoted, ReconciliationFinding, record_finding,
}
use core_flow.Reconciliation.Reconcile.{
  finding, open_finding, has_changed, ask, transit, flagged, caught_up, catch_up, doubt, withdraw,
  settle_up,
}

-- How the row `y` may come from `x` when the slot `cp` is compared with the loaded payment `p`.
abbrev pub Explained : Payment → ChainPaymentView → Payment → Payment → Type 0
Explained p cp x y =
    (y ≡ x)
    ⊎ ((y.id ≡ p.id)
        × (y.amount_base_units ≡ x.amount_base_units)
        × (y.recipient_address ≡ x.recipient_address)
        × (((y.state ≡ paid) × (cp.status ≡ 3))
            ⊎ ((y.state ≡ cancelled) × (cp.status ≡ 4))
            ⊎ ((y.state ≡ reconciliation_required) × (p.state ≡ paid) × (cp.status ≢ 3))))

abbrev rows_of : Run → List Payment
rows_of r = r.books.store.payments

map-Rows :
    {P Q : Payment → Payment → Type 0}
    → ((x y : Payment) → P x y → Q x y)
    → (xs ys : List Payment) → Rows P xs ys
    → Rows Q xs ys
map-Rows f [] [] h = tt
map-Rows f [] (y ∷ ys) h = absurd h
map-Rows f (x ∷ xs) [] h = absurd h
map-Rows f (x ∷ xs) (y ∷ ys) h = (f x y h.0, map-Rows f xs ys h.1)

flagged-rows : (o : TransitionOutcome) (r : Run) → rows_of (flagged (o, r)) ≡ rows_of r
unfolding flagged
flagged-rows o r = ground arith

open_finding-rows :
    (f : ReconciliationFinding) (r : Run) → r.books.store ≡ (open_finding f r).books.store
unfolding open_finding record_finding
open_finding-rows f r = ground arith

caught_up-rows :
    (org : String) (p : Payment) (o : TransitionOutcome) (r : Run)
    → rows_of (caught_up org p (o, r)) ≡ rows_of r
unfolding caught_up
caught_up-rows org p o r =
    let opened =
      open_finding-rows
        (finding org (some p.id) chain_paid_db_not (some (Quoted.state p.state))
          (some (Quoted.word "FINALIZED")))
        r in
    elim (Bool-cases (has_changed o)) [
      | inl moved ↦ rw moved
      | inr idle ↦ rw idle (ap (λ (s : Store). s.payments) (sym opened))
    ]

transit-Follows :
    (req : TransitionRequest) (now : ℕ) (r : Run)
    → Rows (Follows req) (rows_of r) (rows_of (transit req now r).1)
unfolding apply_transition
transit-Follows req now r = apply_read-Follows req now r.books.store r.books.store

-- A move that the comparison asks for is explained by what it asks.
asked :
    (org : String) (p : Payment) (cp : ChainPaymentView) (to : PaymentState)
    (reason : Option String) (m : Metadata)
    → ((s : PaymentState)
        → s ≡ to
        → ((s ≡ paid) × (cp.status ≡ 3))
          ⊎ ((s ≡ cancelled) × (cp.status ≡ 4))
          ⊎ ((s ≡ reconciliation_required) × (p.state ≡ paid) × (cp.status ≢ 3)))
    → (x y : Payment) → Follows (ask org p to reason m) x y
    → Explained p cp x y
asked org p cp to reason m why x y (inl same) = inl same
asked org p cp to reason m why x y (inr moved) = inr (
  moved.same_row.0 ∙ moved.in_scope.0,
  moved.same_money.0,
  moved.same_money.1,
  why y.state moved.arrives,
)

catch_up-Explained :
    (org : String) (now : ℕ) (p : Payment) (cp : ChainPaymentView) (m : Metadata) (r : Run)
    → cp.status ≡ 3
    → Rows (Explained p cp) (rows_of r) (rows_of (catch_up org now p m r))
unfolding catch_up
catch_up-Explained org now p cp m r settled =
    let reason = some "Reconciliation: the chain reports this payment as settled." in
    let out = transit (ask org p paid reason m) now r in
    rw (caught_up-rows org p out.0 out.1) (
      map-Rows (asked org p cp paid reason m (λ s e. inl (e, settled))) (rows_of r) (rows_of out.1)
        (transit-Follows (ask org p paid reason m) now r))

Rows-start :
    (P : Payment → Payment → Type 0) (xs ys zs : List Payment)
    → xs ≡ ys
    → Rows P ys zs
    → Rows P xs zs
Rows-start P xs ys zs e h = rw e h

doubt-Explained :
    (org : String) (now : ℕ) (p : Payment) (cp : ChainPaymentView) (r : Run)
    → p.state ≡ paid
    → cp.status ≢ 3
    → Rows (Explained p cp) (rows_of r) (rows_of (doubt org now p cp r))
unfolding doubt
doubt-Explained org now p cp r claimed denied =
    let reason = some "Reconciliation: recorded as PAID but the chain disagrees." in
    let m = ("chainStatus", number cp.status) ∷ [] in
    let f =
      finding org (some p.id) db_paid_chain_not (some (Quoted.word "PAID"))
        (some (Quoted.status cp.status)) in
    let opened = open_finding f r in
    let req = ask org p reconciliation_required reason m in
    let out = transit req now opened in
    Rows-start (Explained p cp) (rows_of r) (rows_of opened) (rows_of (flagged out))
      (ap (λ (s : Store). s.payments) (open_finding-rows f r))
      (rw (flagged-rows out.0 out.1) (
        map-Rows
          (asked org p cp reconciliation_required reason m (λ s e. inr (inr (e, claimed, denied))))
          (rows_of opened) (rows_of out.1) (transit-Follows req now opened)))

withdraw-Explained :
    (org : String) (now : ℕ) (p : Payment) (cp : ChainPaymentView) (r : Run)
    → cp.status ≡ 4
    → Rows (Explained p cp) (rows_of r) (rows_of (withdraw org now p r))
unfolding withdraw
withdraw-Explained org now p cp r closed =
    let reason = some "Reconciliation: the escrow was cancelled on-chain." in
    let out = transit (ask org p cancelled reason []) now r in
    rw (flagged-rows out.0 out.1) (
      map-Rows (asked org p cp cancelled reason [] (λ s e. inr (inl (e, closed)))) (rows_of r)
        (rows_of out.1) (transit-Follows (ask org p cancelled reason []) now r))

-- When a slot is compared with a payment, a payment row stays as it is or is that payment, its
-- amount and recipient kept, moved to PAID on a slot that the chain reports finalized, to CANCELLED
-- on one that it reports cancelled, or to RECONCILIATION_REQUIRED where the loaded row claimed PAID
-- and the slot is not finalized.
pub settle_up-Explained :
    (org : String) (now : ℕ) (escrow : LoadedEscrow) (p : Payment) (cp : ChainPaymentView) (r : Run)
    → Rows (Explained p cp) (rows_of r) (rows_of (settle_up org now escrow p cp r))
unfolding settle_up
settle_up-Explained org now escrow p cp r =
    elim (Bool-cases (cp.status == finalized && not (p.state == paid))) [
      | inl settled ↦
          rw settled (catch_up-Explained org now p cp _ r (eq-eq_true cp.status 3 (ground arith)))
      | inr a ↦ elim (Bool-cases (p.state == paid && not (cp.status == finalized))) [
        | inl claimed ↦
            rw (a, claimed)
              (doubt-Explained org now p cp r (eq-eq_true p.state paid (ground arith))
                (λ e. absurd (ground arith)))
        | inr b ↦
            elim (Bool-cases (
              cp.status == chain_cancelled
              && not (p.state == cancelled)
              && not (p.state == paid))) [
                | inl closed ↦
                    rw (a, b, closed)
                      (withdraw-Explained org now p cp r (eq-eq_true cp.status 4 (ground arith)))
                | inr quiet ↦
                    rw (a, b, quiet) (Rows-refl (Explained p cp) (λ x. inl refl) (rows_of r))
              ]
      ]
    ]
