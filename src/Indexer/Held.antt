-- ===== src/Indexer/Held.antt =====
-- What an event of the chain may do to the rows of payments that are there, and to new ones
-- (src/lib/indexer/index.ts).
use core_flow.Prelude.{
  ◌≡◌, refl, sym, ◌∙◌, ◌⊎◌, inl, inr, Bool, true, false, List, [], ◌∷◌, string_eq, All,
}
use core_flow.Prelude.Table.{create, Rows}
use core_flow.Payments.Types.{paid, payment_state_eq}
use core_flow.Payments.Transitions.{is_terminal}
use core_flow.Payments.Store.{Payment}
use core_flow.Payments.Admission.{check_transition_sound}
use core_flow.Payments.Service.{TransitionRequest}
use core_flow.Payments.Transfer.{Follows}

-- Who a payment is for and what it is of stays; a terminal state stays; and a row is PAID only if it
-- was, or if `settles` holds of it.
pub record Held (settles : Payment → Bool) (p q : Payment) : Type 0 where
  pub same_row : (q.id ≡ p.id) × (q.org_id ≡ p.org_id)
  pub same_slot :
      (q.escrow_id ≡ p.escrow_id) × (q.on_chain_payment_index ≡ p.on_chain_payment_index)
  pub same_money :
      (q.amount_base_units ≡ p.amount_base_units) × (q.recipient_address ≡ p.recipient_address)
  pub frozen : is_terminal p.state ≡ true → q ≡ p
  pub settled : q.state ≡ paid → (p.state ≡ paid) ⊎ (settles p ≡ true)

abbrev pub nobody : Payment → Bool
nobody p = false

module _ (settles : Payment → Bool) where
  pub Held-refl : (p : Payment) → Held settles p p
  Held-refl p = record {
    same_row = (refl, refl);
    same_slot = (refl, refl);
    same_money = (refl, refl);
    frozen = λ _. refl;
    settled = λ e. inl e;
  }

  pub Held-same : (p q : Payment) → q ≡ p → Held settles p q
  Held-same p q same = rw same (Held-refl p)

  pub Held-weaken : (p q : Payment) → Held nobody p q → Held settles p q
  Held-weaken p q h = record {
    same_row = h.same_row;
    same_slot = h.same_slot;
    same_money = h.same_money;
    frozen = h.frozen;
    settled = λ e. elim (h.settled e) [ inl before ↦ inl before | inr never ↦ cc ];
  }

  -- A transition that the table admits.
  pub Follows-Held :
      (req : TransitionRequest) (p q : Payment)
      → ((r : Payment) → r.id ≡ req.payment_id → req.to ≡ paid → settles r ≡ true)
      → Follows req p q
      → Held settles p q
  Follows-Held req p q allowed (inl same) = Held-same p q same
  Follows-Held req p q allowed (inr m) = record {
    same_row = m.same_row;
    same_slot = m.same_slot;
    same_money = m.same_money;
    frozen = λ over. cc (over, still);
    settled = λ e. inr (allowed p m.in_scope.0 (sym m.arrives ∙ e));
  }
    where
      still : is_terminal p.state ≡ false
      still = (check_transition_sound p.state req.to req.actor m.admitted.0 m.admitted.1).4

pub Held-trans :
    (now later : Payment → Bool) (both : Payment → Bool)
    → ((r : Payment) → now r ≡ true → both r ≡ true)
    → ((r s : Payment) → r.id ≡ s.id → later s ≡ true → both r ≡ true)
    → (p q u : Payment) → Held now p q
    → Held later q u
    → Held both p u
Held-trans now later both first second p q u a b = record {
  same_row = (b.same_row.0 ∙ a.same_row.0, b.same_row.1 ∙ a.same_row.1);
  same_slot = (b.same_slot.0 ∙ a.same_slot.0, b.same_slot.1 ∙ a.same_slot.1);
  same_money = (b.same_money.0 ∙ a.same_money.0, b.same_money.1 ∙ a.same_money.1);
  frozen = λ over. let same : q ≡ p = a.frozen over in b.frozen (rw same over) ∙ same;
  settled = λ e. elim (b.settled e) [
    | inr hit ↦ inr (second p q (sym a.same_row.0) hit)
    | inl before ↦ elim (a.settled before) [ inl start ↦ inl start | inr hit ↦ inr (first p hit) ]
  ];
}

-- ── Tables that only grow ──

-- Row for row what the relation allows, then rows that `New` allows.
abbrev pub Grown :
    (Payment → Payment → Type 0) → (Payment → Type 0) → List Payment → List Payment → Type 0
Grown P New [] ys = All New ys
Grown P New (x ∷ xs) [] = ⊥
Grown P New (x ∷ xs) (y ∷ ys) = P x y × Grown P New xs ys

module _ (P : Payment → Payment → Type 0) (New : Payment → Type 0) where
  pub Rows-Grown : (xs ys : List Payment) → Rows P xs ys → Grown P New xs ys
  Rows-Grown [] [] h = tt
  Rows-Grown [] (y ∷ ys) h = absurd h
  Rows-Grown (x ∷ xs) [] h = h
  Rows-Grown (x ∷ xs) (y ∷ ys) h = (h.0, Rows-Grown xs ys h.1)

  pub create-Grown :
      (new : Payment) (xs : List Payment)
      → ((p : Payment) → P p p)
      → New new
      → Grown P New xs (create new xs)
  create-Grown new [] same h = (h, tt)
  create-Grown new (x ∷ xs) same h = (same x, create-Grown new xs same h)

module _ (P Q R : Payment → Payment → Type 0) (New Later Both : Payment → Type 0)
    (rows : (x y z : Payment) → P x y → Q y z → R x z)
    (kept : (y z : Payment) → New y → Q y z → Both z)
    (same : (z : Payment) → Later z → Both z) where
  All-Grown : (ys zs : List Payment) → All New ys → Grown Q Later ys zs → All Both zs
  All-Grown [] [] h g = tt
  All-Grown [] (z ∷ zs) h g = (same z g.0, All-Grown [] zs tt g.1)
  All-Grown (y ∷ ys) [] h g = absurd g
  All-Grown (y ∷ ys) (z ∷ zs) h g = (kept y z h.0 g.0, All-Grown ys zs h.1 g.1)

  pub Grown-trans :
      (xs ys zs : List Payment) → Grown P New xs ys → Grown Q Later ys zs → Grown R Both xs zs
  Grown-trans [] ys zs a b = All-Grown ys zs a b
  Grown-trans (x ∷ xs) [] zs a b = absurd a
  Grown-trans (x ∷ xs) (y ∷ ys) [] a b = absurd b
  Grown-trans (x ∷ xs) (y ∷ ys) (z ∷ zs) a b = (rows x y z a.0 b.0, Grown-trans xs ys zs a.1 b.1)
