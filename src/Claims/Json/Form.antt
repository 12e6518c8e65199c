-- ===== src/Claims/Json/Form.antt =====
-- `claimToJSON` and `claimFromJSON`, packages/sdk/src/json.ts, on objects: the text that
-- `JSON.parse` reads before is left out.
use core_flow.Prelude.{
  ℕ, ◌^◌, Bool, true, false, ◌&&◌, String, string_eq, List, [], ◌∷◌, none, some, ◌==◌, nat_eq, ltb,
  leb, all, length, contains, if◌then◌else◌,
}
use core_flow.Prelude.Int.{ℤ, pos, int_eq}
use core_flow.Prelude.Bytes.{Bytes}
use core_flow.Money.{is_digits, from_decimal, to_decimal}
use core_flow.Claims.Types.{
  invalid_input, Checked, ok, fail, ◌>>=◌, ◌>>◌, PayloadEncoding, Replay, sequence, unique_id,
  Claim,
}
use core_flow.Claims.Encode.{require, is_zero, claim_wire_values, assert_replay_fields}
use core_flow.Claims.Json.Hex.{Text, to_hex, is_hex, from_hex}

pub record ClaimJson : Type 0 where
  pub issuer : Text
  pub claim_type : Text
  pub subject : Text
  pub payload_hash : Text
  pub payload_encoding : ℕ
  pub replay_mode : ℕ
  pub nonce : Text
  pub claim_id : Text
  pub issued_at : Text
  pub expires_at : Text

abbrev pub keys : List String
keys =
    "issuer" ∷ "claim_type" ∷ "subject" ∷ "payload_hash" ∷ "payload_encoding" ∷ "replay_mode"
    ∷ "nonce" ∷ "claim_id" ∷ "issued_at" ∷ "expires_at" ∷ []

unfoldable pub claim_to_json : Claim → Checked ClaimJson
claim_to_json claim = do
  wire ← claim_wire_values claim
  assert_replay_fields claim.replay
  ok (record {
    issuer = to_hex claim.issuer;
    claim_type = to_hex claim.claim_type;
    subject = to_hex claim.subject;
    payload_hash = to_hex claim.payload_hash;
    payload_encoding = wire.encoding;
    replay_mode = wire.mode;
    nonce = to_decimal wire.nonce;
    claim_id = to_hex wire.claim_id;
    issued_at = to_decimal wire.issued_at;
    expires_at = to_decimal wire.expires_at;
  })

-- A value of the object: a text, a number that is an integer, or anything else.
pub data Value : Type 0 where
  text : Text → Value
  number : ℤ → Value
  other : Value

abbrev pub Object : Type 0
Object = List (String × Value)

-- The object that a portable claim is.
abbrev pub object_of : ClaimJson → Object
object_of j =
    ("issuer", text j.issuer)
    ∷ ("claim_type", text j.claim_type)
    ∷ ("subject", text j.subject)
    ∷ ("payload_hash", text j.payload_hash)
    ∷ ("payload_encoding", number (pos j.payload_encoding))
    ∷ ("replay_mode", number (pos j.replay_mode))
    ∷ ("nonce", text j.nonce)
    ∷ ("claim_id", text j.claim_id)
    ∷ ("issued_at", text j.issued_at)
    ∷ ("expires_at", text j.expires_at)
    ∷ []

unfoldable pub hex32 : Value → Checked Bytes
hex32 (text s) = if length s == 64 && all is_hex s then from_hex s else fail invalid_input
hex32 _ = fail invalid_input

-- `^(0|[1-9][0-9]*)$`
abbrev pub is_canonical : Text → Bool
is_canonical [] = false
is_canonical (c ∷ []) = is_digits (c ∷ [])
is_canonical (c ∷ d ∷ s) = leb 49 c && is_digits (c ∷ d ∷ s)

unfoldable pub u64 : Value → Checked ℕ
u64 (number (pos n)) = if ltb n (2 ^ 53) then ok n else fail invalid_input
u64 (text s) =
    if is_canonical s && ltb (from_decimal s) (2 ^ 64)
    then ok (from_decimal s)
    else fail invalid_input
u64 _ = fail invalid_input

-- `flag`: zero is false.
unfoldable pub flag : Value → Checked Bool
flag (number n) =
    if n == pos 0 then ok false else if n == pos 1 then ok true else fail invalid_input
flag _ = fail invalid_input

abbrev pub only_keys : Object → Bool
only_keys [] = true
only_keys ((key, value) ∷ rest) = contains key keys && only_keys rest

-- `record[key]`, which has the key.
unfoldable pub get : String → Object → Checked Value
get key [] = fail invalid_input
get key ((k, value) ∷ rest) = let later = get key rest in if k == key then ok value else later

unfoldable pub has_keys : List String → Object → Checked (Unit {0})
has_keys [] object = ok tt
has_keys (key ∷ rest) object = get key object >>= λ v. has_keys rest object

abbrev pub replay_of : (unique : Bool) → ℕ → Bytes → Replay
replay_of false nonce claim_id =
    sequence (pos nonce) (if is_zero claim_id then none else some claim_id)
replay_of true nonce claim_id = unique_id claim_id (if nonce == 0 then none else some (pos nonce))

unfoldable pub claim_from_json : Object → Checked Claim
claim_from_json object = do
  require (only_keys object) invalid_input
  has_keys keys object
  issuer ← get "issuer" object >>= hex32
  claim_type ← get "claim_type" object >>= hex32
  subject ← get "subject" object >>= hex32
  payload_hash ← get "payload_hash" object >>= hex32
  encoding ← get "payload_encoding" object >>= flag
  unique ← get "replay_mode" object >>= flag
  nonce ← get "nonce" object >>= u64
  claim_id ← get "claim_id" object >>= hex32
  issued_at ← get "issued_at" object >>= u64
  expires_at ← get "expires_at" object >>= u64
  ok (record {
    issuer = issuer;
    claim_type = claim_type;
    subject = subject;
    payload_hash = payload_hash;
    payload_encoding = if encoding then PayloadEncoding.xdr else PayloadEncoding.raw;
    replay = replay_of unique nonce claim_id;
    issued_at = pos issued_at;
    expires_at = pos expires_at;
  })
