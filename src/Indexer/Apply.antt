-- ===== src/Indexer/Apply.antt =====
-- `applyEvent` of src/lib/indexer/index.ts: the tenant of an event, and the branch for its kind.
use core_flow.Prelude.{ℕ, String, false, none, some}
use core_flow.Prelude.Int.{ℤ}
use core_flow.Indexer.Events.{CoreFlowEvent, escrow_id_of}
use core_flow.Indexer.World.{
  World, IndexerContext, Env, resolve_escrow_tenant, ensure_escrow, escrow_batch_reference,
  ensure_batch,
}
use core_flow.Indexer.Added.{ApplyResult, nothing, EventMeta, apply_added}
use core_flow.Indexer.Approvals.{Half, apply_hours, apply_approved, apply_cancelled, apply_rotated}
use core_flow.Indexer.Settled.{apply_paid, apply_payment_cancelled, apply_finalized}

unfoldable pub apply_created :
    IndexerContext → Env → String → ℕ → String → ℤ → World → ApplyResult × World
apply_created ctx env org id manager total w =
    let patched =
      ensure_escrow ctx env org id
        (λ e. record e { manager_address = manager; total_amount_base_units = total }) w in
    (nothing, (ensure_batch env org (escrow_batch_reference id) patched.1).1)

-- The `switch`, for an event of the organization.
unfoldable pub apply_in :
    IndexerContext → Env → EventMeta → String → CoreFlowEvent → World → ApplyResult × World
apply_in ctx env meta org (CoreFlowEvent.created id m t) w = apply_created ctx env org id m t w
apply_in ctx env meta org (CoreFlowEvent.payment_added id s) w = apply_added ctx env meta org id s w
apply_in ctx env meta org (CoreFlowEvent.hours id i h) w = apply_hours env meta org id i h w
apply_in ctx env meta org (CoreFlowEvent.manager_approved id) w =
    apply_approved env meta org Half.manager id w
apply_in ctx env meta org (CoreFlowEvent.finance_approved id) w =
    apply_approved env meta org Half.finance id w
apply_in ctx env meta org (CoreFlowEvent.payment_paid id s) w = apply_paid env meta org id s w
apply_in ctx env meta org (CoreFlowEvent.payment_cancelled id i) w =
    apply_payment_cancelled env meta org id i w
apply_in ctx env meta org (CoreFlowEvent.finalized id t n) w = apply_finalized org id n w
apply_in ctx env meta org (CoreFlowEvent.cancelled id) w = apply_cancelled id w
apply_in ctx env meta org (CoreFlowEvent.oracle_rotated id r) w = apply_rotated env id r w

unfoldable pub apply_event :
    IndexerContext → Env → EventMeta → CoreFlowEvent → World → ApplyResult × World
apply_event ctx env meta ev w = elim (resolve_escrow_tenant ctx (escrow_id_of ev) w) [
  | none ↦ (record nothing { attributed = false }, w)
  | some org ↦ apply_in ctx env meta org ev w
]
