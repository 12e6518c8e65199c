-- ===== src/Payments/Descriptors.antt =====
-- `STATE_DESCRIPTORS` and `describeState` of src/lib/payments/state-machine.ts.
use core_flow.Prelude.{String, Bool, true, false}
use core_flow.Payments.Types.{
  PaymentState, draft, validating, awaiting_oracle, oracle_verified, awaiting_manager,
  awaiting_finance, ready_to_settle, submitting, confirming, paid, rejected, cancelled, expired,
  submission_failed, settlement_failed, reconciliation_required,
}

pub data Tone : Type 0 where
  neutral progress pending success warning danger : Tone

pub record StateDescriptor : Type 0 where
  pub label : String
  pub description : String
  pub tone : Tone
  pub may_have_transaction : Bool
  pub needs_attention : Bool

unfoldable pub describe_state : PaymentState → StateDescriptor
describe_state draft = record {
  label = "Draft";
  description = "Not yet submitted. Still editable.";
  tone = Tone.neutral;
  may_have_transaction = false;
  needs_attention = false;
}
describe_state validating = record {
  label = "Validating";
  description = "Checking recipient, amount, asset and hours.";
  tone = Tone.progress;
  may_have_transaction = false;
  needs_attention = false;
}
describe_state awaiting_oracle = record {
  label = "Awaiting oracle verification";
  description = "Funded on-chain. Waiting for a signed work attestation.";
  tone = Tone.pending;
  may_have_transaction = false;
  needs_attention = false;
}
describe_state oracle_verified = record {
  label = "Work verified";
  description = "The contract accepted the oracle attestation for this payment.";
  tone = Tone.progress;
  may_have_transaction = true;
  needs_attention = false;
}
describe_state awaiting_manager = record {
  label = "Awaiting manager approval";
  description = "Needs the manager’s on-chain signature.";
  tone = Tone.pending;
  may_have_transaction = true;
  needs_attention = true;
}
describe_state awaiting_finance = record {
  label = "Awaiting finance approval";
  description = "Manager approved. Needs the separate finance signature.";
  tone = Tone.pending;
  may_have_transaction = true;
  needs_attention = true;
}
describe_state ready_to_settle = record {
  label = "Ready to settle";
  description = "Both approvals are on-chain. Settlement can be submitted.";
  tone = Tone.progress;
  may_have_transaction = true;
  needs_attention = true;
}
describe_state submitting = record {
  label = "Submitting to Stellar";
  description = "Building and signing the settlement transaction. Not yet paid.";
  tone = Tone.progress;
  may_have_transaction = true;
  needs_attention = false;
}
describe_state confirming = record {
  label = "Confirming on Stellar";
  description = "Submitted to the network. Awaiting ledger confirmation — not yet paid.";
  tone = Tone.progress;
  may_have_transaction = true;
  needs_attention = false;
}
describe_state paid = record {
  label = "Paid";
  description = "Settled on-chain and confirmed. Funds reached the recipient.";
  tone = Tone.success;
  may_have_transaction = true;
  needs_attention = false;
}
describe_state rejected = record {
  label = "Rejected";
  description = "An approver declined this payment.";
  tone = Tone.danger;
  may_have_transaction = false;
  needs_attention = false;
}
describe_state cancelled = record {
  label = "Cancelled";
  description = "Cancelled before settlement. Escrowed funds were refunded.";
  tone = Tone.neutral;
  may_have_transaction = true;
  needs_attention = false;
}
describe_state expired = record {
  label = "Expired";
  description = "The approval or attestation window lapsed before settlement.";
  tone = Tone.warning;
  may_have_transaction = false;
  needs_attention = true;
}
describe_state submission_failed = record {
  label = "Submission failed";
  description = "The transaction never reached Stellar. Safe to retry.";
  tone = Tone.danger;
  may_have_transaction = false;
  needs_attention = true;
}
describe_state settlement_failed = record {
  label = "Settlement failed";
  description = "The transaction reached Stellar and failed. Needs reconciliation before retry.";
  tone = Tone.danger;
  may_have_transaction = true;
  needs_attention = true;
}
describe_state reconciliation_required = record {
  label = "Reconciliation required";
  description = "CoreFlow’s records and the chain disagree. An operator must resolve it.";
  tone = Tone.danger;
  may_have_transaction = true;
  needs_attention = true;
}
