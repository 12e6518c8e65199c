-- ===== src/Payments/Transitions/Approval.antt =====
-- The rows of `TRANSITIONS` (src/lib/payments/state-machine.ts), up to the second approval.
use core_flow.Prelude.{List, [], ◌∷◌, ◌++◌, none, some}
use core_flow.Roles.{OrgRole}
use core_flow.Payments.Types.{
  draft, validating, awaiting_oracle, oracle_verified, awaiting_manager, awaiting_finance,
  ready_to_settle, rejected, cancelled, expired, ActorKind, Transition, administrative,
  chain_observers,
}

abbrev pub authoring : List Transition
authoring =
    record {
      from = draft;
      to = validating;
      actors = ActorKind.user ∷ [];
      roles = some (administrative ++ OrgRole.manager ∷ []);
      reason = "Submitted for validation by whoever is preparing the batch.";
    }
    ∷ record {
      from = draft;
      to = cancelled;
      actors = ActorKind.user ∷ [];
      roles = some (administrative ++ OrgRole.manager ∷ []);
      reason = "A draft row is discarded before anything is funded.";
    }
    ∷ record {
      from = validating;
      to = draft;
      actors = ActorKind.system ∷ [];
      roles = none;
      reason = "Validation failed; the row returns to editable rather than stalling.";
    }
    ∷ record {
      from = validating;
      to = awaiting_oracle;
      actors = chain_observers;
      roles = none;
      reason =
          "The escrow is funded on-chain. Only the indexer asserts this, because it means custody actually moved.";
    }
    ∷ record {
      from = validating;
      to = rejected;
      actors = ActorKind.user ∷ [];
      roles = some (administrative ++ OrgRole.manager ∷ OrgRole.finance ∷ []);
      reason = "Declined during review, before funding.";
    }
    ∷ record {
      from = validating;
      to = cancelled;
      actors = ActorKind.user ∷ [];
      roles = some (administrative ++ OrgRole.manager ∷ []);
      reason = "Withdrawn during review.";
    }
    ∷ []

abbrev pub oracle : List Transition
oracle =
    record {
      from = awaiting_oracle;
      to = oracle_verified;
      actors = chain_observers;
      roles = none;
      reason =
          "A `hours/submit` event was observed, meaning the contract ACCEPTED an Ed25519 attestation for this payment. Requesting an attestation is not the same as the chain verifying one.";
    }
    ∷ record {
      from = awaiting_oracle;
      to = cancelled;
      actors = chain_observers;
      roles = none;
      reason = "The escrow was cancelled on-chain; custody refunded.";
    }
    ∷ record {
      from = awaiting_oracle;
      to = expired;
      actors = ActorKind.system ∷ [];
      roles = none;
      reason = "The attestation window lapsed without a proof.";
    }
    ∷ record {
      from = oracle_verified;
      to = awaiting_manager;
      actors = ActorKind.system ∷ ActorKind.indexer ∷ [];
      roles = none;
      reason = "Proof in hand; the payment enters the approval chain.";
    }
    ∷ record {
      from = oracle_verified;
      to = cancelled;
      actors = chain_observers;
      roles = none;
      reason = "The escrow was cancelled on-chain.";
    }
    ∷ []

abbrev pub dual_approval : List Transition
dual_approval =
    record {
      from = awaiting_manager;
      to = awaiting_finance;
      actors = chain_observers;
      roles = none;
      reason =
          "An `approve/manager` event was observed. The approval is the on-chain signature, not the API call that prompted it.";
    }
    ∷ record {
      from = awaiting_manager;
      to = rejected;
      actors = ActorKind.user ∷ [];
      roles = some (administrative ++ OrgRole.manager ∷ []);
      reason = "The manager declined.";
    }
    ∷ record {
      from = awaiting_manager;
      to = cancelled;
      actors = chain_observers;
      roles = none;
      reason = "The escrow was cancelled on-chain.";
    }
    ∷ record {
      from = awaiting_manager;
      to = expired;
      actors = ActorKind.system ∷ [];
      roles = none;
      reason = "The approval window lapsed.";
    }
    ∷ record {
      from = awaiting_finance;
      to = ready_to_settle;
      actors = chain_observers;
      roles = none;
      reason = "An `approve/finance` event was observed from the distinct finance key.";
    }
    ∷ record {
      from = awaiting_finance;
      to = rejected;
      actors = ActorKind.user ∷ [];
      roles = some (administrative ++ OrgRole.finance ∷ []);
      reason =
          "Finance declined. MANAGER is absent here on purpose: a manager who could exercise the finance decision would collapse the separation of duties.";
    }
    ∷ record {
      from = awaiting_finance;
      to = cancelled;
      actors = chain_observers;
      roles = none;
      reason = "The escrow was cancelled on-chain.";
    }
    ∷ record {
      from = awaiting_finance;
      to = expired;
      actors = ActorKind.system ∷ [];
      roles = none;
      reason = "The approval window lapsed.";
    }
    ∷ []
