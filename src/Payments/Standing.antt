-- ===== src/Payments/Standing.antt =====
-- What a rollup says of its batch (src/lib/payments/service.ts): its counts and sums, and that a
-- broken payment is not hidden behind healthy ones.
use core_flow.Prelude.{
  ℕ, ◌+◌, String, ◌≡◌, refl, sym, ◌∙◌, ap, true, List, [], ◌∷◌, Option, none, some, ◌==◌, length,
  find?, filter, map, any, Member, find?-Member, find?-passes, find?-none, contains, eq_self,
  eq-eq_true, inl, inr, if◌then◌else◌, Bool-cases, Option-cases, arith,
}
use core_flow.Prelude.Int.{ℤ, ◌+ℤ◌, sum_ℤ, +ℤ_zero, zero_+ℤ, +ℤ_assoc}
use core_flow.Payments.Types.{PaymentState, payment_state_eq}
use core_flow.Payments.Rollup.{
  BatchPayment, BatchRollup, progress_order, broken_states, tally, tally_of, is_paid,
  wants_attention, roll, roll_all, label_of, states_of, headline_of, empty_rollup, rollup_batch,
}

abbrev pub amounts : List BatchPayment → List ℤ
amounts ps = map (λ (p : BatchPayment). p.amount_base_units) ps

-- What a rollup counts, from what was counted before.
pub record Counts (r : BatchRollup) (ps : List BatchPayment) (q : BatchRollup) : Type 0 where
  pub amount : q.total_amount_base_units ≡ r.total_amount_base_units +ℤ sum_ℤ (amounts ps)
  pub paid_amount :
      q.paid_amount_base_units ≡ r.paid_amount_base_units +ℤ sum_ℤ (amounts (filter is_paid ps))
  pub attention : q.needs_attention ≡ r.needs_attention + length (filter wants_attention ps)
  pub per_state :
      (s : PaymentState)
      → tally_of s q.by_state
        ≡ tally_of s r.by_state + length (filter (λ (p : BatchPayment). p.state == s) ps)

tally_of-tally :
    (s t : PaymentState) (m : List (PaymentState × ℕ))
    → tally_of s (tally t m) ≡ (if t == s then tally_of s m + 1 else tally_of s m)
tally_of-tally s t [] = ground (arith, eq_self s)
tally_of-tally s t ((u, n) ∷ m) = elim (Bool-cases (u == t)) [
  | inl hit ↦ ground (arith, eq-eq_true u t hit)
  | inr miss ↦ elim (Bool-cases (u == s)) [
    | inl here ↦ ground (arith, eq-eq_true u s here, eq-eq_true t s)
    | inr past ↦ ground (arith, tally_of-tally s t m)
  ]
]

roll_all-Counts : (r : BatchRollup) (ps : List BatchPayment) → Counts r ps (roll_all r ps)
unfolding roll_all roll
roll_all-Counts r [] = record {
  amount = sym (+ℤ_zero r.total_amount_base_units);
  paid_amount = sym (+ℤ_zero r.paid_amount_base_units);
  attention = omega arith;
  per_state = λ s. omega arith;
}
roll_all-Counts r (p ∷ ps) =
    let rest = roll_all-Counts (roll r p) ps in
    let state = rest.attention in
    record {
      amount =
          rest.amount ∙ +ℤ_assoc r.total_amount_base_units p.amount_base_units (sum_ℤ (amounts ps));
      paid_amount = elim (Bool-cases (is_paid p)) [
        | inl paid ↦
            rest.paid_amount
            ∙ rw paid (
                +ℤ_assoc r.paid_amount_base_units p.amount_base_units
                  (sum_ℤ (amounts (filter is_paid ps))))
        | inr unpaid ↦ rest.paid_amount ∙ rw unpaid
      ];
      attention = ground arith;
      per_state = λ s.
          let counted = rest.per_state s in
          let step = tally_of-tally s p.state r.by_state in ground arith;
    }

-- The sums and counts of a rollup are those of its payments: the total and the paid amount, the
-- number of payments, of those in each state, and of those that need attention.
rollup_batch-Counts :
    (ps : List BatchPayment)
    → ((rollup_batch ps).total ≡ length ps)
      × ((rollup_batch ps).total_amount_base_units ≡ sum_ℤ (amounts ps))
      × ((rollup_batch ps).paid_amount_base_units ≡ sum_ℤ (amounts (filter is_paid ps)))
      × ((rollup_batch ps).needs_attention ≡ length (filter wants_attention ps))
      × ((s : PaymentState)
          → tally_of s (rollup_batch ps).by_state
            ≡ length (filter (λ (p : BatchPayment). p.state == s) ps))
unfolding rollup_batch
rollup_batch-Counts ps =
    let c = roll_all-Counts empty_rollup ps in
    (
      refl,
      c.amount ∙ zero_+ℤ (sum_ℤ (amounts ps)),
      c.paid_amount ∙ zero_+ℤ (sum_ℤ (amounts (filter is_paid ps))),
      c.attention ∙ omega arith,
      (λ s. c.per_state s ∙ omega arith),
    )

-- A batch with a payment in a broken state is headed by the label of a broken state that one of its
-- payments is in, however many others are healthy.
rollup_batch_broken :
    (ps : List BatchPayment)
    → any (λ s. contains s broken_states) (states_of ps) ≡ true
    → (s : PaymentState) × Member s (states_of ps)
      × (contains s broken_states ≡ true)
      × ((rollup_batch ps).headline ≡ label_of s)
unfolding rollup_batch headline_of
rollup_batch_broken [] h = absurd (ground arith)
rollup_batch_broken (p ∷ ps) h =
    elim (Option-cases (find? (λ t. contains t broken_states) (states_of (p ∷ ps)))) [
      | inl healthy ↦
          let no = find?-none (λ t. contains t broken_states) (states_of (p ∷ ps)) healthy in
          absurd (ground arith)
      | inr (s, found) ↦ (
        s,
        find?-Member (λ t. contains t broken_states) (states_of (p ∷ ps)) s found,
        find?-passes (λ t. contains t broken_states) (states_of (p ∷ ps)) s found,
        ap headline found,
      )
    ]
  where
    headline : Option PaymentState → String
    headline o = elim o [
      | some broken ↦ label_of broken
      | none ↦ elim (find? (λ t. contains t (states_of (p ∷ ps))) progress_order) [
        | some least ↦ label_of least
        | none ↦ label_of p.state
      ]
    ]
