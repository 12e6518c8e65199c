-- ===== src/Funding/Tests.antt =====
-- A batch that may be funded, and the theorems on assessments at it.
use core_flow.Prelude.{
  ℕ, String, ◌≡◌, refl, ◌↔◌, inl, Bool, true, List, [], ◌∷◌, Option, none, some, length, map, arith,
  string_discrete,
}
use core_flow.Prelude.Int.{ℤ, pos, sum_ℤ}
use core_flow.Roles.{OrgRole}
use core_flow.Payments.Types.{draft}
use core_flow.Funding.Eligibility.{
  FundingPayment, SettlementAsset, EligibilityInput, hours_rate_mismatch, FundingBlocker,
  payment_blockers, amount_code, period_code, assess_funding_eligibility,
}
use core_flow.Funding.Verdict.{Fundable}
use core_flow.Funding.Assessment.{eligible_iff}

abbrev usdc : SettlementAsset
usdc = record { code = "USDC"; decimals = 7; contract_id = some "CUSDC" }

abbrev worked : ℕ → FundingPayment
worked hours = record {
  id = "pay_1";
  recipient_address = "GWORKER";
  asset_code = "USDC";
  asset_contract_id = some "CUSDC";
  asset_decimals = 7;
  amount_base_units = pos 1000;
  rate_base_units = pos 250;
  hours = pos hours;
  period_start = some (pos 0);
  period_end = some (pos 86400000);
  state = draft;
  escrow_id = none;
  on_chain_payment_index = none;
}

abbrev payroll : EligibilityInput
payroll = record {
  payments = worked 4 ∷ worked 4 ∷ [];
  asset = usdc;
  funder = record { wallet_address = "GMANAGER"; role = OrgRole.manager };
  finance_approver_address = some "GFINANCE";
  attempt = none;
  oracle_public_key = some "key";
}

-- Five hours at 250 are not 1000.
short_paid :
    payment_blockers usdc 1 (worked 5)
    ≡ record { code = hours_rate_mismatch; payment_id = some "pay_1"; position = some 1 } ∷ []
unfolding payment_blockers amount_code period_code string_discrete
    core_flow.Payments.Types.PaymentState-discrete core_flow.Prelude.Int.ℤ-discrete
    core_flow.Prelude.Int.◌*ℤ◌ core_flow.Prelude.ℕ_discrete
short_paid = refl

eligible_iff_example : ((assess_funding_eligibility payroll).eligible ≡ true) ↔ Fundable payroll
eligible_iff_example = eligible_iff payroll

payroll_eligible : (assess_funding_eligibility payroll).eligible ≡ true
unfolding assess_funding_eligibility core_flow.Funding.Eligibility.all_blockers
    core_flow.Funding.Eligibility.row_blockers core_flow.Funding.Eligibility.attempt_blockers
    core_flow.Funding.Eligibility.approver_blockers payment_blockers amount_code period_code
    string_discrete core_flow.Payments.Types.PaymentState-discrete core_flow.Prelude.Int.ℤ-discrete
    core_flow.Roles.OrgRole-discrete core_flow.Prelude.Int.◌*ℤ◌ core_flow.Prelude.ℕ_discrete
payroll_eligible = refl
