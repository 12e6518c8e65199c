-- ===== src/Indexer/Payload.antt =====
-- The stored form of an event: `serializePayload` and `deserializePayload` of
-- src/lib/indexer/index.ts. A bigint is stored as its digits, since JSON has none.
use core_flow.Prelude.{
  ℕ, String, string_eq, ◌≡◌, refl, Bool, true, false, List, [], ◌∷◌, Option, none, some, contains,
  ◌==◌, string_discrete, if◌then◌else◌, map,
}
use core_flow.Prelude.Int.{ℤ}
use core_flow.Indexer.Events.{CoreFlowEvent, kind_of}

pub data Property : Type 0 where
  number : ℕ → Property
  bigint : ℤ → Property
  text : String → Property

abbrev pub Object : Type 0
Object = List (String × Property)

-- `Object.entries(parsed)`
unfoldable pub entries : CoreFlowEvent → Object
unfolding kind_of
entries (CoreFlowEvent.created e m t) =
    ("kind", text "created")
    ∷ (("escrowId", number e) ∷ (("manager", text m) ∷ (("totalAmount", bigint t) ∷ [])))
entries (CoreFlowEvent.payment_added e s) =
    ("kind", text "payment_added")
    ∷ (("escrowId", number e)
        ∷ (("paymentIndex", number s.payment_index)
            ∷ (("worker", text s.worker)
                ∷ (("token", text s.token)
                    ∷ (("amountBaseUnits", bigint s.amount_base_units)
                        ∷ (("rateBaseUnits", bigint s.rate_base_units)
                            ∷ (("periodStart", bigint s.period_start)
                                ∷ (("periodEnd", bigint s.period_end) ∷ []))))))))
entries (CoreFlowEvent.hours e i h) =
    ("kind", text "hours")
    ∷ (("escrowId", number e) ∷ (("paymentIndex", number i) ∷ (("hours", bigint h) ∷ [])))
entries (CoreFlowEvent.manager_approved e) =
    ("kind", text "manager_approved") ∷ (("escrowId", number e) ∷ [])
entries (CoreFlowEvent.finance_approved e) =
    ("kind", text "finance_approved") ∷ (("escrowId", number e) ∷ [])
entries (CoreFlowEvent.payment_paid e s) =
    ("kind", text "payment_paid")
    ∷ (("escrowId", number e)
        ∷ (("paymentIndex", number s.payment_index)
            ∷ (("worker", text s.worker)
                ∷ (("token", text s.token)
                    ∷ (("amountBaseUnits", bigint s.amount_base_units)
                        ∷ (("hours", bigint s.hours) ∷ []))))))
entries (CoreFlowEvent.payment_cancelled e i) =
    ("kind", text "payment_cancelled")
    ∷ (("escrowId", number e) ∷ (("paymentIndex", number i) ∷ []))
entries (CoreFlowEvent.finalized e t n) =
    ("kind", text "finalized")
    ∷ (("escrowId", number e) ∷ (("totalAmount", bigint t) ∷ (("count", number n) ∷ [])))
entries (CoreFlowEvent.cancelled e) = ("kind", text "cancelled") ∷ (("escrowId", number e) ∷ [])
entries (CoreFlowEvent.oracle_rotated e r) =
    ("kind", text "oracle_rotated") ∷ (("escrowId", number e) ∷ (("rotations", number r) ∷ []))

-- `v.toString()` and `BigInt(v)`, of bigints and of texts.
pub record BigIntText : Type 0 where
  pub print : ℤ → String
  pub parse : String → ℤ

abbrev pub bigint_fields : List String
bigint_fields =
    "totalAmount" ∷ "amountBaseUnits" ∷ "rateBaseUnits" ∷ "periodStart" ∷ "periodEnd" ∷ "hours" ∷ []

-- `payload.kind`
abbrev pub get : String → Object → Option Property
get key [] = none
get key ((k, v) ∷ rest) = let later = get key rest in if k == key then some v else later

-- What `!v` finds missing.
abbrev pub is_missing : Option Property → Bool
is_missing none = true
is_missing (some (text s)) = s == ""
is_missing (some (number n)) = false
is_missing (some (bigint z)) = false

module _ (js : BigIntText) where
  abbrev pub stored : String × Property → String × Property
  stored (k, number n) = (k, number n)
  stored (k, bigint z) = (k, text (js.print z))
  stored (k, text s) = (k, text s)

  unfoldable pub serialize_payload : Option CoreFlowEvent → Option Object
  serialize_payload none = none
  serialize_payload (some ev) = some (map stored (entries ev))

  abbrev pub restored : String × Property → String × Property
  restored (k, number n) = (k, number n)
  restored (k, bigint z) = (k, bigint z)
  restored (k, text s) = (k, if contains k bigint_fields then bigint (js.parse s) else text s)

  unfoldable pub deserialize_payload : Option Object → Option Object
  deserialize_payload none = none
  deserialize_payload (some payload) =
      if is_missing (get "kind" payload) then none else some (map restored payload)

-- An event that is stored is read back with all its fields, where `BigInt` reads what `toString`
-- prints of a bigint; an unknown event is stored as nothing and read back as nothing.
pub deserialize_payload-serialize_payload :
    (js : BigIntText) (parsed : Option CoreFlowEvent)
    → ((z : ℤ) → js.parse (js.print z) ≡ z)
    → deserialize_payload js (serialize_payload js parsed)
      ≡ elim parsed [ none ↦ none | some ev ↦ some (entries ev) ]
unfolding deserialize_payload serialize_payload entries string_discrete
deserialize_payload-serialize_payload js none back = refl
deserialize_payload-serialize_payload js (some (CoreFlowEvent.created e m t)) back =
    rw (back t) refl
deserialize_payload-serialize_payload js (some (CoreFlowEvent.payment_added e s)) back =
    rw (back s.amount_base_units, back s.rate_base_units, back s.period_start, back s.period_end)
      refl
deserialize_payload-serialize_payload js (some (CoreFlowEvent.hours e i h)) back = rw (back h) refl
deserialize_payload-serialize_payload js (some (CoreFlowEvent.manager_approved e)) back = refl
deserialize_payload-serialize_payload js (some (CoreFlowEvent.finance_approved e)) back = refl
deserialize_payload-serialize_payload js (some (CoreFlowEvent.payment_paid e s)) back =
    rw (back s.amount_base_units, back s.hours) refl
deserialize_payload-serialize_payload js (some (CoreFlowEvent.payment_cancelled e i)) back = refl
deserialize_payload-serialize_payload js (some (CoreFlowEvent.finalized e t n)) back =
    rw (back t) refl
deserialize_payload-serialize_payload js (some (CoreFlowEvent.cancelled e)) back = refl
deserialize_payload-serialize_payload js (some (CoreFlowEvent.oracle_rotated e r)) back = refl
