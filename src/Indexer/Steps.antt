-- ===== src/Indexer/Steps.antt =====
-- What one event of the chain does to the table of payments: `applyEvent` of
-- src/lib/indexer/index.ts.
use core_flow.Prelude.{
  ℕ, String, ◌≡◌, ◌∙◌, inl, inr, Bool, false, string_eq, option_eq, nat_eq, Option-cases,
}
use core_flow.Prelude.Int.{ℤ}
use core_flow.Prelude.Table.{Rows-refl}
use core_flow.Payments.Types.{payment_state_eq}
use core_flow.Payments.Store.{Payment}
use core_flow.Indexer.Events.{CoreFlowEvent, escrow_id_of}
use core_flow.Indexer.World.{World, IndexerContext, Env, resolve_escrow_tenant}
use core_flow.Indexer.Added.{EventMeta}
use core_flow.Indexer.Approvals.{Half}
use core_flow.Indexer.Apply.{apply_created, apply_in, apply_event}
use core_flow.Indexer.Held.{Held, nobody, Held-refl, Grown, Rows-Grown}
use core_flow.Indexer.Effects.{
  payments_of, is_at, IsNew, calm, ensure_escrow-payments, ensure_batch-payments,
}
use core_flow.Indexer.Branches.{
  apply_hours-Calm, apply_approved-Calm, apply_cancelled-Calm, apply_rotated-Calm,
  apply_finalized-Calm, apply_payment_cancelled-Calm,
}
use core_flow.Indexer.Payees.{apply_paid-Settles, apply_added-Grown}

-- The payments that an event settles: the one in the slot that a `payment_paid` names.
abbrev pub settled_by : CoreFlowEvent → World → Payment → Bool
settled_by (CoreFlowEvent.created id m t) w p = false
settled_by (CoreFlowEvent.payment_added id s) w p = false
settled_by (CoreFlowEvent.hours id i h) w p = false
settled_by (CoreFlowEvent.manager_approved id) w p = false
settled_by (CoreFlowEvent.finance_approved id) w p = false
settled_by (CoreFlowEvent.payment_paid id s) w p = is_at id s.payment_index w p
settled_by (CoreFlowEvent.payment_cancelled id i) w p = false
settled_by (CoreFlowEvent.finalized id t n) w p = false
settled_by (CoreFlowEvent.cancelled id) w p = false
settled_by (CoreFlowEvent.oracle_rotated id r) w p = false

apply_created-payments :
    (ctx : IndexerContext) (env : Env) (org : String) (id : ℕ) (m : String) (t : ℤ) (w : World)
    → payments_of (apply_created ctx env org id m t w).1 ≡ payments_of w
unfolding apply_created
apply_created-payments ctx env org id m t w =
    ensure_batch-payments env org id _ ∙ ensure_escrow-payments ctx env org id _ w

apply_in-Grown :
    (ctx : IndexerContext) (env : Env) (meta : EventMeta) (org : String) (ev : CoreFlowEvent)
    (w : World)
    → Grown
        (Held (settled_by ev w))
        IsNew
        (payments_of w)
        (payments_of (apply_in ctx env meta org ev w).1)
unfolding apply_in
apply_in-Grown ctx env meta org (CoreFlowEvent.created id m t) w =
    rw (apply_created-payments ctx env org id m t w)
      (Rows-Grown (Held nobody) IsNew (payments_of w) _ (calm w))
apply_in-Grown ctx env meta org (CoreFlowEvent.payment_added id s) w =
    apply_added-Grown ctx env meta org id s w
apply_in-Grown ctx env meta org (CoreFlowEvent.hours id i h) w =
    Rows-Grown (Held nobody) IsNew (payments_of w) _ (apply_hours-Calm env meta org id i h w)
apply_in-Grown ctx env meta org (CoreFlowEvent.manager_approved id) w =
    Rows-Grown (Held nobody) IsNew (payments_of w) _
      (apply_approved-Calm env meta org Half.manager id w)
apply_in-Grown ctx env meta org (CoreFlowEvent.finance_approved id) w =
    Rows-Grown (Held nobody) IsNew (payments_of w) _
      (apply_approved-Calm env meta org Half.finance id w)
apply_in-Grown ctx env meta org (CoreFlowEvent.payment_paid id s) w =
    Rows-Grown (Held (is_at id s.payment_index w)) IsNew (payments_of w) _
      (apply_paid-Settles env meta org id s w)
apply_in-Grown ctx env meta org (CoreFlowEvent.payment_cancelled id i) w =
    Rows-Grown (Held nobody) IsNew (payments_of w) _
      (apply_payment_cancelled-Calm env meta org id i w)
apply_in-Grown ctx env meta org (CoreFlowEvent.finalized id t n) w =
    Rows-Grown (Held nobody) IsNew (payments_of w) _ (apply_finalized-Calm org id n w)
apply_in-Grown ctx env meta org (CoreFlowEvent.cancelled id) w =
    Rows-Grown (Held nobody) IsNew (payments_of w) _ (apply_cancelled-Calm id w)
apply_in-Grown ctx env meta org (CoreFlowEvent.oracle_rotated id r) w =
    Rows-Grown (Held nobody) IsNew (payments_of w) _ (apply_rotated-Calm env id r w)

-- What one event of the chain does to the payments: every row keeps its id, organization, escrow,
-- slot, amount and recipient; a row in a terminal state is not changed; a row is PAID after it only
-- if it was before, or if the event is a `payment_paid` and the row has the id of the payment that
-- stands in the slot of the event's escrow; and rows that are added await the oracle.
pub apply_event-Grown :
    (ctx : IndexerContext) (env : Env) (meta : EventMeta) (ev : CoreFlowEvent) (w : World)
    → Grown
        (Held (settled_by ev w))
        IsNew
        (payments_of w)
        (payments_of (apply_event ctx env meta ev w).1)
unfolding apply_event
apply_event-Grown ctx env meta ev w =
    elim (Option-cases (resolve_escrow_tenant ctx (escrow_id_of ev) w)) [
      | inl nobody_s ↦
          rw (nobody_s, payments_of)
            (Rows-Grown (Held (settled_by ev w)) IsNew (payments_of w) (payments_of w)
              (Rows-refl (Held (settled_by ev w)) (Held-refl (settled_by ev w)) (payments_of w)))
      | inr (org, known) ↦ rw (known, payments_of) (apply_in-Grown ctx env meta org ev w)
    ]
