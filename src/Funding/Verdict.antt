-- ===== src/Funding/Verdict.antt =====
-- When a batch is eligible: exactly when nothing that the contract or the oracle would refuse is
-- left in it.
use core_flow.Prelude.{
  ℕ, zero, suc, ◌+◌, ◌≤◌, String, ◌≡◌, refl, sym, ap, ◌∙◌, ◌≢◌, ◌↔◌, ◌⊎◌, inl, inr, Bool, true,
  false, List, [], ◌∷◌, ◌++◌, Option, none, some, ◌==◌, string_eq, nat_eq, ◌&&◌, ◌||◌, not, ltb,
  length, filter, map, contains, All, Bool-cases, Option-cases, arith, eq_self,
}
use core_flow.Prelude.Int.{ℤ, pos, ◌+ℤ◌, ◌*ℤ◌, leb_ℤ, int_eq, sum_ℤ, int_laws}
use core_flow.Roles.{org_role_eq}
use core_flow.Payments.Types.{draft, validating, payment_state_eq}
use core_flow.Payments.Store.{TxStatus, tx_status_eq}
use core_flow.Payments.Service.{truthy}
use core_flow.Funding.Eligibility.{
  FundingBlockerCode, payment_not_fundable, payment_already_on_chain, asset_mismatch,
  FundingPayment, ExistingFundingAttempt, SettlementAsset, EligibilityInput, fundable_states,
  funding_roles, in_flight, block_if, is_null, distinct, attempt_blockers, is_positive, amount_code,
  period_code, code_if, at_row, payment_blockers, row_blockers, approver_blockers,
}

abbrev pub Positive : ℤ → Type 0
Positive n = (k : ℕ) × (n ≡ pos (suc k))

-- A payment that the escrow can take and the oracle can attest.
pub record Ready (asset : SettlementAsset) (p : FundingPayment) : Type 0 where
  pub awaiting : (p.state ≡ draft) ⊎ (p.state ≡ validating)
  pub off_chain : (p.escrow_id ≡ none) × (p.on_chain_payment_index ≡ none)
  pub same_asset : p.asset_code ≡ asset.code
  pub positive : Positive p.amount_base_units × Positive p.rate_base_units × Positive p.hours
  pub worked : p.hours *ℤ p.rate_base_units ≡ p.amount_base_units
  pub period :
      (start end : ℤ) × (p.period_start ≡ some start)
      × (p.period_end ≡ some end)
      × (leb_ℤ end start ≡ false)

-- A batch that may be funded.
pub record Fundable (i : EligibilityInput) : Type 0 where
  pub role : contains i.funder.role funding_roles ≡ true
  pub no_attempt :
      (a : ExistingFundingAttempt)
      → i.attempt ≡ some a
      → (a.status ≢ TxStatus.confirmed) × (contains a.status in_flight ≡ false)
  pub size : (1 ≤ length i.payments) × (length i.payments ≤ 100)
  pub configured : (c : String) × (i.asset.contract_id ≡ some c)
  pub rows : All (Ready i.asset) i.payments
  pub second_approver :
      (w : String) × (i.finance_approver_address ≡ some w) × (w ≢ i.funder.wallet_address)
  pub attestable : (k : String) × (truthy i.oracle_public_key ≡ some k)

is_positive-Positive : (n : ℤ) → is_positive n ≡ true → Positive n
is_positive-Positive (core_flow.Prelude.Int.negsuc n) h = absurd (ground arith)
is_positive-Positive (pos zero) h = absurd (ground arith)
is_positive-Positive (pos (suc k)) h = (k, refl)

Positive-is_positive : (n : ℤ) → Positive n → is_positive n ≡ true
Positive-is_positive n (k, same) = ground arith

pub clear_parts {ℓ} : {A : Type ℓ} (xs ys : List A) → xs ++ ys ≡ [] → (xs ≡ []) × (ys ≡ [])
clear_parts [] ys h = (refl, h)
clear_parts (x ∷ xs) ys h = absurd (ground arith)

no_code :
    (p : FundingPayment) (i : ℕ) (c : Option FundingBlockerCode) → at_row p i c ≡ [] → c ≡ none
no_code p i none h = refl
no_code p i (some c) h = absurd (ground arith)

code_if-none : (b : Bool) (c : FundingBlockerCode) → code_if b c ≡ none → b ≡ false
code_if-none true c h = absurd (ground arith)
code_if-none false c h = refl

amount_code-none :
    (p : FundingPayment)
    → amount_code p ≡ none
    → (is_positive p.amount_base_units ≡ true)
      × (is_positive p.rate_base_units ≡ true)
      × (is_positive p.hours ≡ true)
      × (p.hours *ℤ p.rate_base_units ≡ p.amount_base_units)
unfolding amount_code
amount_code-none p h = ground arith

period_code-none :
    (start end : Option ℤ)
    → period_code start end ≡ none
    → (a b : ℤ) × (start ≡ some a) × (end ≡ some b) × (leb_ℤ b a ≡ false)
unfolding period_code
period_code-none none end h = absurd (ground arith)
period_code-none (some a) none h = absurd (ground arith)
period_code-none (some a) (some b) h = (a, b, refl, refl, ground arith)

payment_blockers-Ready :
    (asset : SettlementAsset) (i : ℕ) (p : FundingPayment)
    → payment_blockers asset i p ≡ []
    → Ready asset p
unfolding payment_blockers
payment_blockers-Ready asset i p h =
    let stage = code_if (not (contains p.state fundable_states)) payment_not_fundable in
    let chain =
      code_if (not (is_null p.escrow_id) || not (is_null p.on_chain_payment_index))
        payment_already_on_chain in
    let code = code_if (not (p.asset_code == asset.code)) asset_mismatch in
    let period = at_row p i (period_code p.period_start p.period_end) in
    let two = at_row p i stage ++ at_row p i chain in
    let three = two ++ at_row p i code in
    let d = clear_parts (three ++ at_row p i (amount_code p)) period h in
    let c = clear_parts three (at_row p i (amount_code p)) d.0 in
    let b = clear_parts two (at_row p i code) c.0 in
    let a = clear_parts (at_row p i stage) (at_row p i chain) b.0 in
    let staged =
      code_if-none (not (contains p.state fundable_states)) payment_not_fundable
        (no_code p i stage a.0) in
    let chained =
      code_if-none (not (is_null p.escrow_id) || not (is_null p.on_chain_payment_index))
        payment_already_on_chain (no_code p i chain a.1) in
    let coded =
      code_if-none (not (p.asset_code == asset.code)) asset_mismatch (no_code p i code b.1) in
    let paid = amount_code-none p (no_code p i (amount_code p) c.1) in
    record {
      awaiting = ground arith;
      off_chain = (ground arith, ground arith);
      same_asset = ground arith;
      positive = (
        is_positive-Positive p.amount_base_units paid.0,
        is_positive-Positive p.rate_base_units paid.1,
        is_positive-Positive p.hours paid.2,
      );
      worked = paid.3;
      period =
          period_code-none p.period_start p.period_end
            (no_code p i (period_code p.period_start p.period_end) d.1);
    }

Ready-payment_blockers :
    (asset : SettlementAsset) (i : ℕ) (p : FundingPayment)
    → Ready asset p
    → payment_blockers asset i p ≡ []
unfolding payment_blockers amount_code period_code
Ready-payment_blockers asset i p r =
    let a = Positive-is_positive p.amount_base_units r.positive.0 in
    let b = Positive-is_positive p.rate_base_units r.positive.1 in
    let c = Positive-is_positive p.hours r.positive.2 in
    let stage : contains p.state fundable_states ≡ true = ground arith in
    let state = r.awaiting in
    let chain = r.off_chain in
    let code = r.same_asset in let worth = r.worked in let period = r.period in ground arith

pub row_blockers-Ready :
    (asset : SettlementAsset) (i : ℕ) (ps : List FundingPayment)
    → (row_blockers asset i ps ≡ []) ↔ All (Ready asset) ps
unfolding row_blockers
row_blockers-Ready asset i [] = (λ _. tt, λ _. refl)
row_blockers-Ready asset i (p ∷ ps) =
    let rest = row_blockers-Ready asset (i + 1) ps in
    (
      (λ h.
          let parts =
            clear_parts (payment_blockers asset (i + 1) p) (row_blockers asset (i + 1) ps) h in
          (payment_blockers-Ready asset (i + 1) p parts.0, rest.0 parts.1)),
      (λ r. rw (Ready-payment_blockers asset (i + 1) p r.0, rest.1 r.1)),
    )

pub unblocked : (b : Bool) (c : FundingBlockerCode) → (block_if b c ≡ []) ↔ (b ≡ false)
unblocked true c = (λ h. absurd (ground arith), λ h. absurd (ground arith))
unblocked false c = (λ _. refl, λ _. refl)

abbrev pub Settled : Option ExistingFundingAttempt → Type 0
Settled o =
    (a : ExistingFundingAttempt)
    → o ≡ some a
    → (a.status ≢ TxStatus.confirmed) × (contains a.status in_flight ≡ false)

free_attempt :
    (x : ExistingFundingAttempt)
    → attempt_blockers (some x) ≡ []
    → (x.status ≢ TxStatus.confirmed) × (contains x.status in_flight ≡ false)
unfolding attempt_blockers
free_attempt x h = (λ c. absurd (ground arith), ground arith)

pub attempt_blockers-Settled :
    (o : Option ExistingFundingAttempt) → (attempt_blockers o ≡ []) ↔ Settled o
unfolding attempt_blockers
attempt_blockers-Settled none = (λ h a e. absurd (ground arith), λ _. refl)
attempt_blockers-Settled (some x) = (
  (λ h a e. let same : x ≡ a = ground arith in rw (← same) (free_attempt x h)),
  (λ s. let free = s x refl in ground (arith, free.0, free.1)),
)

abbrev pub Distinct : Option String → String → Type 0
Distinct o wallet = (w : String) × (o ≡ some w) × (w ≢ wallet)

pub approver_blockers-Distinct :
    (o : Option String) (wallet : String) → (approver_blockers o wallet ≡ []) ↔ Distinct o wallet
unfolding approver_blockers
approver_blockers-Distinct none wallet = (λ h. absurd (ground arith), λ d. absurd (ground arith))
approver_blockers-Distinct (some a) wallet = (
  λ h. (a, refl, ground arith),
  λ d. let w = d.0 in let named = d.1 in let other = d.2 in ground arith,
)

abbrev pub codes_of : List FundingPayment → List String
codes_of ps = map (λ (p : FundingPayment). p.asset_code) ps

pub one_asset :
    (asset : SettlementAsset) (ps : List FundingPayment)
    → All (Ready asset) ps
    → (distinct (codes_of ps) ≡ []) ⊎ (distinct (codes_of ps) ≡ asset.code ∷ [])
one_asset asset [] r = inl refl
one_asset asset (p ∷ ps) r =
    let same = r.0.same_asset in
    let own = eq_self asset.code in
    elim (one_asset asset ps r.1) [
      | inl empty ↦ inr (ground arith)
      | inr single ↦ inr (ground arith)
    ]
