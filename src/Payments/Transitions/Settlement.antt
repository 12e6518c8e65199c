-- ===== src/Payments/Transitions/Settlement.antt =====
-- The rows of `TRANSITIONS` (src/lib/payments/state-machine.ts), from settlement to reconciliation.
use core_flow.Prelude.{List, [], ◌∷◌, ◌++◌, none, some}
use core_flow.Roles.{OrgRole}
use core_flow.Payments.Types.{
  ready_to_settle, submitting, confirming, paid, cancelled, submission_failed, settlement_failed,
  reconciliation_required, ActorKind, Transition, administrative, chain_observers,
}

abbrev pub settlement : List Transition
settlement =
    record {
      from = ready_to_settle;
      to = submitting;
      actors = ActorKind.user ∷ [];
      roles = some (administrative ++ OrgRole.manager ∷ OrgRole.finance ∷ []);
      reason = "A settlement transaction is being built and signed.";
    }
    ∷ record {
      from = ready_to_settle;
      to = cancelled;
      actors = chain_observers;
      roles = none;
      reason = "The escrow was cancelled before settlement.";
    }
    ∷ record {
      from = submitting;
      to = confirming;
      actors = ActorKind.system ∷ [];
      roles = none;
      reason = "The network accepted the transaction; it awaits ledger close.";
    }
    ∷ record {
      from = submitting;
      to = submission_failed;
      actors = ActorKind.system ∷ [];
      roles = none;
      reason =
          "The transaction never reached the network (build, simulate, sign or RPC failure). Nothing was submitted, so a retry cannot double-pay.";
    }
    ∷ record {
      from = confirming;
      to = paid;
      actors = chain_observers;
      roles = none;
      reason =
          "A confirmed `payment/paid` event was observed in the contract log, which the contract emits only after the SAC transfer for that payee succeeded.";
    }
    ∷ record {
      from = ready_to_settle;
      to = paid;
      actors = chain_observers;
      roles = none;
      reason =
          "Settled without this application driving the submission — by the CLI, a validation script, or another client. The chain is authoritative for settlement, so a `payment/paid` event is accepted from an approved payment even though we never recorded a SUBMITTING step. Refusing would strand every externally-settled payment in RECONCILIATION_REQUIRED, which is noise rather than safety.";
    }
    ∷ record {
      from = submitting;
      to = paid;
      actors = chain_observers;
      roles = none;
      reason =
          "Confirmation arrived before our own SUBMITTING → CONFIRMING update landed. A real race, and the log is the side that knows.";
    }
    ∷ record {
      from = confirming;
      to = settlement_failed;
      actors = ActorKind.indexer ∷ ActorKind.system ∷ [];
      roles = none;
      reason = "The transaction reached the chain and failed there.";
    }
    ∷ record {
      from = confirming;
      to = reconciliation_required;
      actors = ActorKind.reconciler ∷ ActorKind.system ∷ [];
      roles = none;
      reason =
          "Confirmation timed out or the result was ambiguous. The outcome is genuinely unknown, and saying so beats guessing either way.";
    }
    ∷ []

abbrev pub recovery : List Transition
recovery =
    record {
      from = submission_failed;
      to = ready_to_settle;
      actors = ActorKind.user ∷ [];
      roles = some (administrative ++ OrgRole.manager ∷ OrgRole.finance ∷ []);
      reason =
          "Retry. Safe without reconciliation precisely because nothing reached the chain; the approvals that authorized it are still on-chain and intact.";
    }
    ∷ record {
      from = submission_failed;
      to = cancelled;
      actors = ActorKind.user ∷ [];
      roles = some (administrative ++ OrgRole.manager ∷ []);
      reason = "Abandoned after a failed submission.";
    }
    ∷ record {
      from = submission_failed;
      to = reconciliation_required;
      actors = ActorKind.reconciler ∷ [];
      roles = none;
      reason =
          "Reconciliation found chain activity for a submission we recorded as never sent — our record of \"never submitted\" was wrong.";
    }
    ∷ record {
      from = settlement_failed;
      to = reconciliation_required;
      actors = ActorKind.reconciler ∷ ActorKind.system ∷ [];
      roles = none;
      reason = "Establish what the chain actually did before anything is retried.";
    }
    ∷ record {
      from = settlement_failed;
      to = paid;
      actors = chain_observers;
      roles = none;
      reason =
          "A `payment/paid` event arrived for a payment we had recorded as failed. The log wins: our failure record was wrong.";
    }
    ∷ record {
      from = settlement_failed;
      to = ready_to_settle;
      actors = ActorKind.reconciler ∷ [];
      roles = none;
      reason =
          "Reconciliation confirmed the chain did NOT settle. Deliberately not a user transition: retrying a transaction that reached the chain requires first establishing what it did, and a human clicking retry has not.";
    }
    ∷ []

abbrev pub reconciliation_outcomes : List Transition
reconciliation_outcomes =
    record {
      from = reconciliation_required;
      to = paid;
      actors = ActorKind.reconciler ∷ ActorKind.indexer ∷ [];
      roles = none;
      reason = "Chain evidence confirms settlement.";
    }
    ∷ record {
      from = reconciliation_required;
      to = ready_to_settle;
      actors = ActorKind.reconciler ∷ [];
      roles = none;
      reason = "Chain evidence confirms no settlement occurred; approvals still stand.";
    }
    ∷ record {
      from = reconciliation_required;
      to = settlement_failed;
      actors = ActorKind.reconciler ∷ [];
      roles = none;
      reason = "Chain evidence confirms the settlement attempt failed.";
    }
    ∷ record {
      from = reconciliation_required;
      to = cancelled;
      actors = ActorKind.user ∷ ActorKind.reconciler ∷ [];
      roles = some administrative;
      reason = "An administrator closes out an unrecoverable payment.";
    }
    ∷ []
