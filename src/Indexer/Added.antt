-- ===== src/Indexer/Added.antt =====
-- `applyEvent` of src/lib/indexer/index.ts: its result, and the `payment_added` branch.
use core_flow.Prelude.{
  ℕ, zero, suc, ◌/◌, String, string_eq, nat_eq, option_eq, Bool, true, ◌&&◌, ◌||◌, not, [], ◌∷◌,
  Option, none, some, ◌==◌, if◌then◌else◌,
}
use core_flow.Prelude.Int.{ℤ, pos, negsuc, leb_ℤ, negate, ◌*ℤ◌, int_eq}
use core_flow.Prelude.Table.{create}
use core_flow.Payments.Types.{
  PaymentState, validating, awaiting_oracle, payment_state_eq, ActorKind, Actor,
}
use core_flow.Payments.Store.{Payment, MetaValue, Metadata, AuditEvent}
use core_flow.Payments.Service.{
  TransitionRequest, TransitionOutcome, changed, unchanged, denied, value_or,
}
use core_flow.Reconciliation.Findings.{amount_mismatch, Quoted}
use core_flow.Reconciliation.Reconcile.{finding}
use core_flow.Indexer.Events.{AddedSlot}
use core_flow.Indexer.World.{
  Escrow, World, IndexerContext, Env, find_escrow, ensure_escrow, escrow_batch_reference,
  ensure_batch, ensure_worker, write_payments, audit, open_finding, transition, find_slot,
}

-- ── What the branches share ──

pub record ApplyResult : Type 0 where
  pub payments_created : ℕ
  pub payments_advanced : ℕ
  pub payments_paid : ℕ
  pub findings : ℕ
  pub attributed : Bool

abbrev pub nothing : ApplyResult
nothing = record {
  payments_created = 0;
  payments_advanced = 0;
  payments_paid = 0;
  findings = 0;
  attributed = true;
}

-- `if (!escrow) return out`
unfoldable pub on_escrow : ℕ → World → (Escrow → ApplyResult × World) → ApplyResult × World
on_escrow id w body = elim (find_escrow id w) [ none ↦ (nothing, w) | some escrow ↦ body escrow ]

-- The payment of an escrow's slot, and what is returned if there is none.
unfoldable pub on_slot :
    String → ℕ → World → ApplyResult × World → (Payment → ApplyResult × World) → ApplyResult × World
on_slot escrow index w missing body = elim (find_slot escrow index w) [
  | none ↦ missing
  | some p ↦ body p
]

-- What the event's row says beside its payload.
pub record EventMeta : Type 0 where
  pub tx_hash : Option String
  pub ledger : ℕ

abbrev pub indexer_actor : Actor
indexer_actor = record {
  kind = ActorKind.indexer;
  role = none;
  address = none;
  system = some "indexer";
}

abbrev pub ask :
    String → String → PaymentState → Option String → Option String → Metadata → TransitionRequest
ask org id to reason tx_hash metadata = record {
  payment_id = id;
  to = to;
  actor = indexer_actor;
  org_id = org;
  reason = reason;
  tx_hash = tx_hash;
  metadata = metadata;
  settled_at = none;
}

-- An audit event of the indexer.
abbrev pub observed :
    String
    → String
    → Option String
    → Option String
    → Option String
    → Option PaymentState
    → PaymentState
    → EventMeta
    → Metadata
    → AuditEvent
observed org type payment batch escrow previous next meta metadata = record {
  org_id = org;
  type = type;
  actor_address = none;
  actor_system = some "indexer";
  payment_id = payment;
  batch_id = batch;
  escrow_id = escrow;
  previous_state = previous;
  new_state = some next;
  tx_hash = meta.tx_hash;
  metadata = metadata;
}

-- `updateMany({ where, data: { state, stateUpdatedAt: new Date(), ... } })` on an escrow's payments.
abbrev pub is_waiting : String → PaymentState → Payment → Bool
is_waiting escrow state p = p.escrow_id == some escrow && p.state == state

abbrev pub advance : PaymentState → ℕ → Payment → Payment
advance to now p = record p { state = to; state_updated_at = now }

-- ── payment_added ──

-- `rate > 0n ? amount / rate : 0n`, a division that drops the remainder.
abbrev pub hours_at : ℤ → ℤ → ℤ
hours_at amount (negsuc r) = pos 0
hours_at amount (pos zero) = pos 0
hours_at (pos n) (pos (suc r)) = pos (n / suc r)
hours_at (negsuc n) (pos (suc r)) = negate (pos (suc n / suc r))

-- `t > 0n ? new Date(Number(t) * 1000) : null`
abbrev pub date_of : ℤ → Option ℤ
date_of t = if leb_ℤ t (pos 0) then none else some (t *ℤ pos 1000)

unfoldable pub is_different : AddedSlot → Payment → Bool
is_different s p =
    not (p.amount_base_units == s.amount_base_units) || not (p.recipient_address == s.worker)

abbrev pub advance_request : String → Payment → TransitionRequest
advance_request org existing = ask org existing.id awaiting_oracle none none []

unfoldable pub after_advance : ApplyResult → TransitionOutcome × World → ApplyResult × World
after_advance out (changed previous next, w) = (record out { payments_advanced = 1 }, w)
after_advance out (unchanged state, w) = (out, w)
after_advance out (denied status code, w) = (out, w)

-- A slot that has a row already.
unfoldable pub replay_added : Env → String → AddedSlot → Payment → World → ApplyResult × World
replay_added env org s existing w =
    let differs = is_different s existing in
    let noted =
      if differs
      then open_finding
          (finding org (some existing.id) amount_mismatch
            (some (Quoted.slot existing.recipient_address existing.amount_base_units))
            (some (Quoted.slot s.worker s.amount_base_units)))
          w
      else w in
    let out = record nothing { findings = if differs then 1 else 0 } in
    if existing.state == validating
    then after_advance out (transition (advance_request org existing) env.now noted)
    else (out, noted)

abbrev pub new_payment :
    IndexerContext → Env → String → AddedSlot → Escrow → (batch worker : String) → Payment
new_payment ctx env org s escrow batch worker = record {
  id = env.payment;
  org_id = org;
  batch_id = batch;
  project_id = none;
  escrow_id = some escrow.id;
  worker_id = some worker;
  recipient_address = s.worker;
  on_chain_payment_index = some s.payment_index;
  asset_code = "USDC";
  asset_contract_id = some s.token;
  asset_decimals = value_or ctx.asset_decimals escrow.asset_decimals;
  amount_base_units = s.amount_base_units;
  rate_base_units = s.rate_base_units;
  hours = hours_at s.amount_base_units s.rate_base_units;
  period_start = date_of s.period_start;
  period_end = date_of s.period_end;
  source_reference = none;
  state = awaiting_oracle;
  state_updated_at = env.now;
  state_reason = none;
  settlement_tx_hash = none;
  settled_at = none;
}

unfoldable pub apply_added :
    IndexerContext → Env → EventMeta → String → ℕ → AddedSlot → World → ApplyResult × World
apply_added ctx env meta org id s w =
    let (escrow, w1) = ensure_escrow ctx env org id (λ e. e) w in
    let (batch, w2) = ensure_batch env org (escrow_batch_reference id) w1 in
    let (worker, w3) = ensure_worker env org s.worker w2 in
    on_slot escrow.id s.payment_index w3
      (
        record nothing { payments_created = 1 },
        audit
            (observed org "payment.indexed" none (some batch.id) (some escrow.id) none
              awaiting_oracle meta
              (("escrowOnChainId", MetaValue.number id)
                ∷ (("paymentIndex", MetaValue.number s.payment_index)
                    ∷ (("ledger", MetaValue.number meta.ledger) ∷ []))))
            (write_payments (create (new_payment ctx env org s escrow batch.id worker.id)) w3),
      )
      (λ existing. replay_added env org s existing w3)
