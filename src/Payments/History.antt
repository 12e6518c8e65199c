-- ===== src/Payments/History.antt =====
-- Repeated and interleaved transitions: what a history of requests can and cannot do, whatever
-- each of them read before it wrote.
use core_flow.Prelude.{
  ℕ, String, ◌≡◌, refl, sym, ◌∙◌, ap, ◌≢◌, ◌⊎◌, inl, inr, Bool, true, false, ◌||◌, List, [], ◌∷◌,
  Option, some, ◌==◌, string_eq, nat_eq, eq_self, filter, find?-passes, any, Bool-cases,
  Option-cases, arith,
}
use core_flow.Prelude.Table.{
  find_first, count, update_rows, Rows, Rows-refl, Rows-trans, filter-update_rows,
  find?-update_rows, find_first-filter,
}
use core_flow.Payments.Types.{
  PaymentState, paid, payment_state_eq, ActorKind, actor_kind_eq, Transition,
}
use core_flow.Payments.Transitions.{is_terminal}
use core_flow.Payments.Store.{Payment, Store}
use core_flow.Payments.Admission.{check_transition_sound}
use core_flow.Payments.Authority.{paid_needs_chain}
use core_flow.Payments.Service.{
  TransitionRequest, changed, unchanged, moved, is_row, read_payment, is_unmoved, swap_state,
  apply_found, apply_read, apply_transition,
}
use core_flow.Payments.Transfer.{check_cases, Follows, apply_read-Follows}

-- One request of a history: the store that it read, the time, and what it asks.
pub record Served : Type 0 where
  pub seen : Store
  pub now : ℕ
  pub request : TransitionRequest

unfoldable pub serve : List Served → Store → Store
serve [] db = db
serve (r ∷ rs) db = serve rs (apply_read r.request r.now (read_payment r.request r.seen) db).1

abbrev pub in_org : String → Payment → Bool
in_org org p = p.org_id == org

abbrev pub by_chain : Served → Bool
by_chain r =
    r.request.actor.kind == ActorKind.indexer || r.request.actor.kind == ActorKind.reconciler

-- A row in a terminal state is untouched, and one that is paid was paid before or was settled by a
-- request of a chain observer.
pub record Kept (rs : List Served) (p q : Payment) : Type 0 where
  pub frozen : is_terminal p.state ≡ true → q ≡ p
  pub settled : q.state ≡ paid → (p.state ≡ paid) ⊎ (any by_chain rs ≡ true)
  pub same_row : (q.id ≡ p.id) × (q.org_id ≡ p.org_id)
  pub same_money :
      (q.amount_base_units ≡ p.amount_base_units) × (q.recipient_address ≡ p.recipient_address)

Follows-Kept : (r : Served) (p q : Payment) → Follows r.request p q → Kept (r ∷ []) p q
Follows-Kept r p q (inl same) = record {
  frozen = λ _. same;
  settled = λ e. inl (ap (λ (x : Payment). x.state) (sym same) ∙ e);
  same_row = (ap (λ (x : Payment). x.id) same, ap (λ (x : Payment). x.org_id) same);
  same_money = (
    ap (λ (x : Payment). x.amount_base_units) same,
    ap (λ (x : Payment). x.recipient_address) same,
  );
}
Follows-Kept r p q (inr m) = record {
  frozen = λ over. cc (over, still);
  settled = λ e. inr (observed e);
  same_row = m.same_row;
  same_money = m.same_money;
}
  where
    still : is_terminal p.state ≡ false
    still =
        (check_transition_sound p.state r.request.to r.request.actor m.admitted.0 m.admitted.1).4

    observed : q.state ≡ paid → any by_chain (r ∷ []) ≡ true
    observed e =
        let to : r.request.to ≡ paid = sym m.arrives ∙ e in
        ground
          (arith, paid_needs_chain p.state r.request.actor m.admitted.0 (rw (← to) m.admitted.1))

or_true : (b : Bool) → (b || true) ≡ true
or_true true = refl
or_true false = refl

Kept-trans :
    (r : Served) (rs : List Served) (p q u : Payment)
    → Kept (r ∷ []) p q
    → Kept rs q u
    → Kept (r ∷ rs) p u
Kept-trans r rs p q u a b = record {
  frozen = λ over. let same : q ≡ p = a.frozen over in b.frozen (rw same over) ∙ same;
  settled = λ e. elim (b.settled e) [
    | inr later ↦ inr (rw later (or_true (by_chain r)))
    | inl before ↦ elim (a.settled before) [ inl start ↦ inl start | inr now ↦ inr (first now) ]
  ];
  same_row = (b.same_row.0 ∙ a.same_row.0, b.same_row.1 ∙ a.same_row.1);
  same_money = (b.same_money.0 ∙ a.same_money.0, b.same_money.1 ∙ a.same_money.1);
}
  where
    first : any by_chain (r ∷ []) ≡ true → any by_chain (r ∷ rs) ≡ true
    first now = ground arith

-- Over every history of transitions, each with its own and possibly stale read: a payment in a
-- terminal state is never altered again; a payment is PAID at the end only if it was at the start
-- or an indexer or a reconciler made a request; and no payment changes its id, organization, amount
-- or recipient.
pub serve_keeps :
    (rs : List Served) (db : Store) → Rows (Kept rs) db.payments (serve rs db).payments
unfolding serve
serve_keeps [] db =
    Rows-refl (Kept [])
      (λ p. record {
        frozen = λ _. refl;
        settled = λ e. inl e;
        same_row = (refl, refl);
        same_money = (refl, refl);
      })
      db.payments
serve_keeps (r ∷ rs) db =
    let step = (apply_read r.request r.now (read_payment r.request r.seen) db).1 in
    Rows-trans (Follows r.request) (Kept rs) (Kept (r ∷ rs))
      (λ p q u f k. Kept-trans r rs p q u (Follows-Kept r p q f) k) db.payments step.payments
      (serve rs step).payments (apply_read-Follows r.request r.now r.seen db) (serve_keeps rs step)

swap_state_isolates :
    (req : TransitionRequest) (now : ℕ) (payment : Payment) (t : Transition) (db : Store)
    → (org : String) → org ≢ req.org_id
    → filter (in_org org) (swap_state req now payment t db).1.payments
      ≡ filter (in_org org) db.payments
unfolding swap_state is_unmoved moved
swap_state_isolates req now payment t db org other =
    elim (Bool-cases (count (is_unmoved req payment) db.payments == 0)) [
      | inl raced ↦ rw raced
      | inr free ↦ rw free (
          filter-update_rows (is_unmoved req payment) (in_org org) (moved req now)
            (λ p hit. ground arith) db.payments)
    ]

apply_found_isolates :
    (req : TransitionRequest) (now : ℕ) (payment : Payment) (db : Store) (org : String)
    → org ≢ req.org_id
    → filter (in_org org) (apply_found req now payment db).1.payments
      ≡ filter (in_org org) db.payments
unfolding apply_found
apply_found_isolates req now payment db org other = elim (Bool-cases (payment.state == req.to)) [
  | inl there ↦ rw there
  | inr elsewhere ↦ elim (check_cases payment.state req.to req) [
    | inr (c, refused) ↦ rw (elsewhere, refused)
    | inl (t, admitted) ↦
        rw (elsewhere, admitted) (swap_state_isolates req now payment t db org other)
  ]
]

apply_read_keeps :
    (req : TransitionRequest) (now : ℕ) (seen : Option Payment) (db : Store) (org : String)
    → org ≢ req.org_id
    → filter (in_org org) (apply_read req now seen db).1.payments ≡ filter (in_org org) db.payments
unfolding apply_read
apply_read_keeps req now seen db org other = elim (Option-cases seen) [
  | inl missing ↦ rw missing
  | inr (payment, found) ↦ rw found (apply_found_isolates req now payment db org other)
]

read_payment_within :
    (req : TransitionRequest) (seen : Store)
    → read_payment req seen
      ≡ find_first (is_row req.payment_id req.org_id) (filter (in_org req.org_id) seen.payments)
unfolding read_payment
read_payment_within req seen = sym (
    find_first-filter (in_org req.org_id) (is_row req.payment_id req.org_id) (λ p hit. ground arith)
      seen.payments)

-- A transition reads and writes within the request's organization: from two stores that agree on
-- the payments of that organization, whatever they hold of the others, it gives the same answer
-- and the same tables; and it leaves the payments of every other organization as they were.
pub apply_read_isolates :
    (req : TransitionRequest) (now : ℕ) (seen elsewhere db : Store) (org : String)
    → filter (in_org req.org_id) elsewhere.payments ≡ filter (in_org req.org_id) seen.payments
    → org ≢ req.org_id
    → (apply_read req now (read_payment req elsewhere) db
        ≡ apply_read req now (read_payment req seen) db)
      × (filter (in_org org) (apply_read req now (read_payment req seen) db).1.payments
          ≡ filter (in_org org) db.payments)
apply_read_isolates req now seen elsewhere db org agree other =
    let same : read_payment req elsewhere ≡ read_payment req seen =
      read_payment_within req elsewhere
      ∙ ap (find_first (is_row req.payment_id req.org_id)) agree
      ∙ sym (read_payment_within req seen) in
    (
      ap (λ r. apply_read req now r db) same,
      apply_read_keeps req now (read_payment req seen) db org other,
    )

moved-is_row :
    (req : TransitionRequest) (now : ℕ) (p : Payment)
    → is_row req.payment_id req.org_id (moved req now p) ≡ is_row req.payment_id req.org_id p
unfolding moved
moved-is_row req now p = refl

is_unmoved_self :
    (req : TransitionRequest) (payment : Payment) (rows : List Payment)
    → find_first (is_row req.payment_id req.org_id) rows ≡ some payment
    → is_unmoved req payment payment ≡ true
unfolding is_unmoved
is_unmoved_self req payment rows found =
    let hit = find?-passes (is_row req.payment_id req.org_id) rows payment found in ground arith

reread :
    (req : TransitionRequest) (now : ℕ) (payment : Payment) (rows : List Payment)
    → find_first (is_row req.payment_id req.org_id) rows ≡ some payment
    → find_first
        (is_row req.payment_id req.org_id)
        (update_rows (is_unmoved req payment) (moved req now) rows)
      ≡ some (moved req now payment)
reread req now payment rows found =
    find?-update_rows (is_unmoved req payment) (is_row req.payment_id req.org_id) (moved req now)
      (λ p hit. moved-is_row req now p) rows
    ∙ rw (found, is_unmoved_self req payment rows found)

arrived :
    (req : TransitionRequest) (now : ℕ) (p : Payment) → ((moved req now p).state == req.to) ≡ true
unfolding moved
arrived req now p = eq_self req.to

apply_found_repeat :
    (req : TransitionRequest) (now later : ℕ) (payment : Payment) (db : Store) (a b : PaymentState)
    → read_payment req db ≡ some payment
    → (apply_found req now payment db).0 ≡ changed a b
    → let db' = (apply_found req now payment db).1 in
      apply_read req later (read_payment req db') db' ≡ (unchanged req.to, db')
unfolding apply_found swap_state apply_read read_payment
apply_found_repeat req now later payment db a b found h =
    elim (Bool-cases (payment.state == req.to)) [
      | inl there ↦ cc (rw there at h)
      | inr elsewhere ↦ elim (check_cases payment.state req.to req) [
        | inr (c, refused) ↦ cc (rw (elsewhere, refused) at h)
        | inl (t, admitted) ↦ elim (Bool-cases (count (is_unmoved req payment) db.payments == 0)) [
          | inl raced ↦ cc (rw (elsewhere, admitted, raced) at h)
          | inr free ↦
              rw (elsewhere, admitted, free, reread req now payment db.payments found)
                (rw (arrived req now payment))
        ]
      ]
    ]

-- Repeating a request that has just made its change finds the payment in the requested state: it
-- reports that nothing changed, and writes nothing.
pub apply_transition_repeat :
    (req : TransitionRequest) (now later : ℕ) (db : Store) (a b : PaymentState)
    → (apply_transition req now db).0 ≡ changed a b
    → let db' = (apply_transition req now db).1 in
      apply_transition req later db' ≡ (unchanged req.to, db')
unfolding apply_transition apply_read
apply_transition_repeat req now later db a b h = elim (Option-cases (read_payment req db)) [
  | inl missing ↦ absurd (ground arith)
  | inr (payment, found) ↦
      rw found (apply_found_repeat req now later payment db a b found (rw found at h))
]
