-- ===== src/Funding/Assessment.antt =====
-- The assessment of a batch as a whole: it is eligible exactly when it is fundable, and its total
-- is what its payments add up to.
use core_flow.Prelude.{
  ℕ, String, ◌≡◌, refl, sym, ◌∙◌, ◌↔◌, true, false, List, [], ◌∷◌, ◌++◌, Option, none, some, ◌==◌,
  string_eq, nat_eq, not, ltb, length, map, contains, arith, eq_self,
}
use core_flow.Prelude.Int.{ℤ, pos, ◌+ℤ◌, sum_ℤ, +ℤ_zero, zero_+ℤ, +ℤ_assoc}
use core_flow.Roles.{org_role_eq}
use core_flow.Payments.Service.{truthy}
use core_flow.Funding.Eligibility.{
  no_payments, too_many_payments, settlement_asset_unconfigured, mixed_assets,
  oracle_key_unavailable, role_not_permitted, FundingBlocker, FundingPayment, EligibilityInput,
  funding_roles, max_fundable_payments, block_if, is_null, distinct, attempt_blockers, row_blockers,
  total_from, approver_blockers, all_blockers, assess_funding_eligibility,
}
use core_flow.Funding.Verdict.{
  Fundable, clear_parts, row_blockers-Ready, unblocked, attempt_blockers-Settled,
  approver_blockers-Distinct, codes_of, one_asset,
}

all_blockers-Fundable : (i : EligibilityInput) → all_blockers i ≡ [] → Fundable i
unfolding all_blockers
all_blockers-Fundable i h =
    let b1 = block_if (not (contains i.funder.role funding_roles)) role_not_permitted in
    let b2 = b1 ++ attempt_blockers i.attempt in
    let b3 = b2 ++ block_if (length i.payments == 0) no_payments in
    let many = ltb max_fundable_payments (length i.payments) in
    let b4 = b3 ++ block_if many too_many_payments in
    let b5 = b4 ++ block_if (is_null i.asset.contract_id) settlement_asset_unconfigured in
    let mixed = ltb 1 (length (distinct (codes_of i.payments))) in
    let b6 = b5 ++ block_if mixed mixed_assets in
    let b7 = b6 ++ row_blockers i.asset 0 i.payments in
    let approver = approver_blockers i.finance_approver_address i.funder.wallet_address in
    let keyless = is_null (truthy i.oracle_public_key) in
    let p9 = clear_parts (b7 ++ approver) (block_if keyless oracle_key_unavailable) h in
    let p8 = clear_parts b7 approver p9.0 in
    let p7 = clear_parts b6 (row_blockers i.asset 0 i.payments) p8.0 in
    let p6 = clear_parts b5 (block_if mixed mixed_assets) p7.0 in
    let p5 =
      clear_parts b4 (block_if (is_null i.asset.contract_id) settlement_asset_unconfigured) p6.0 in
    let p4 = clear_parts b3 (block_if many too_many_payments) p5.0 in
    let p3 = clear_parts b2 (block_if (length i.payments == 0) no_payments) p4.0 in
    let p2 = clear_parts b1 (attempt_blockers i.attempt) p3.0 in
    let roled =
      (unblocked (not (contains i.funder.role funding_roles)) role_not_permitted).0 p2.0 in
    let some_rows = (unblocked (length i.payments == 0) no_payments).0 p3.1 in
    let few = (unblocked many too_many_payments).0 p4.1 in
    let known = (unblocked (is_null i.asset.contract_id) settlement_asset_unconfigured).0 p5.1 in
    let keyed = (unblocked keyless oracle_key_unavailable).0 p9.1 in
    record {
      role = ground arith;
      no_attempt = (attempt_blockers-Settled i.attempt).0 p2.1;
      size = (ground arith, ground arith);
      configured = there i.asset.contract_id known;
      rows = (row_blockers-Ready i.asset 0 i.payments).0 p7.1;
      second_approver =
          (approver_blockers-Distinct i.finance_approver_address i.funder.wallet_address).0 p8.1;
      attestable = there (truthy i.oracle_public_key) keyed;
    }
  where
    there : (o : Option String) → is_null o ≡ false → (c : String) × (o ≡ some c)
    there none e = absurd (ground arith)
    there (some c) e = (c, refl)

Fundable-all_blockers : (i : EligibilityInput) → Fundable i → all_blockers i ≡ []
unfolding all_blockers
Fundable-all_blockers i f =
    let role = f.role in
    let size = f.size in
    let configured = f.configured in
    let oracle = f.attestable in
    let free = (attempt_blockers-Settled i.attempt).1 f.no_attempt in
    let ready = (row_blockers-Ready i.asset 0 i.payments).1 f.rows in
    let second =
      (approver_blockers-Distinct i.finance_approver_address i.funder.wallet_address).1
        f.second_approver in
    let single = one_asset i.asset i.payments f.rows in ground arith

-- A batch is eligible exactly when it is fundable: the caller's role may fund, no attempt is
-- confirmed or in flight, it has 1 to 100 payments, the asset's contract is configured, every
-- payment awaits funding, off the chain, in that asset, with positive amounts that are hours times
-- rate and a period that ends after it starts, another wallet approves, and the oracle has a key.
pub eligible_iff :
    (i : EligibilityInput) → ((assess_funding_eligibility i).eligible ≡ true) ↔ Fundable i
unfolding assess_funding_eligibility
eligible_iff i = (
  λ h. all_blockers-Fundable i (none_left (all_blockers i) h),
  λ f. rw (Fundable-all_blockers i f) (eq_self {A = ℕ} 0),
)
  where
    none_left : (bs : List FundingBlocker) → (length bs == 0) ≡ true → bs ≡ []
    none_left [] h = refl
    none_left (b ∷ bs) h = absurd (ground arith)

total_from-sum_ℤ :
    (t : ℤ) (ps : List FundingPayment)
    → total_from t ps ≡ t +ℤ sum_ℤ (map (λ (p : FundingPayment). p.amount_base_units) ps)
unfolding total_from
total_from-sum_ℤ t [] = sym (+ℤ_zero t)
total_from-sum_ℤ t (p ∷ ps) =
    total_from-sum_ℤ (t +ℤ p.amount_base_units) ps
    ∙ +ℤ_assoc t p.amount_base_units (sum_ℤ (map (λ (q : FundingPayment). q.amount_base_units) ps))

-- The total of an assessment is the sum of the amounts of all payments, none left out or counted
-- twice, and its count is their number.
total_is_sum :
    (i : EligibilityInput)
    → ((assess_funding_eligibility i).total_base_units
        ≡ sum_ℤ (map (λ (p : FundingPayment). p.amount_base_units) i.payments))
      × ((assess_funding_eligibility i).payment_count ≡ length i.payments)
unfolding assess_funding_eligibility
total_is_sum i = (
  total_from-sum_ℤ (pos 0) i.payments
      ∙ zero_+ℤ (sum_ℤ (map (λ (p : FundingPayment). p.amount_base_units) i.payments)),
  refl,
)
