-- ===== src/Claims/Decode.antt =====
-- `decodePreimage`, `verifyPreimage` and `comparePreimages` of packages/sdk/src/decode.ts.
use core_flow.Prelude.{ℕ, List, [], ◌∷◌, none, some, ◌==◌, nat_eq, find?, if◌then◌else◌}
use core_flow.Prelude.Bytes.{Bytes, slice, from_big_endian, byte_at, every_same}
use core_flow.Claims.Types.{invalid_input, invalid_signature, Checked, ok, ◌>>=◌, ◌>>◌}
use core_flow.Claims.Crypto.{Crypto}
use core_flow.Claims.Layout
use core_flow.Claims.Layout.{PreimageFieldName, field_name_eq, PreimageField, preimage_layout}
use core_flow.Claims.Encode.{preimage_length, magic, wire_version, require, assert_bytes}

pub record DecodedPreimage : Type 0 where
  pub version : ℕ
  pub network_id : Bytes
  pub contract_digest : Bytes
  pub issuer : Bytes
  pub claim_type : Bytes
  pub subject : Bytes
  pub payload_hash : Bytes
  pub payload_encoding : ℕ
  pub replay_mode : ℕ
  pub nonce : ℕ
  pub claim_id : Bytes
  pub issued_at : ℕ
  pub expires_at : ℕ

-- The region of a field. Every name stands in the layout.
unfoldable pub field_slice : Bytes → PreimageFieldName → Bytes
unfolding Layout.PreimageFieldName-discrete
field_slice bytes name = elim (find? (λ (f : PreimageField). f.name == name) preimage_layout) [
  | none ↦ []
  | some f ↦ slice f.offset f.size bytes
]

unfoldable pub decode_preimage : Bytes → Checked DecodedPreimage
decode_preimage preimage = do
  assert_bytes preimage preimage_length
  require (every_same magic preimage) invalid_input
  let version = from_big_endian (slice 4 2 preimage)
  require (version == wire_version) invalid_input
  ok (record {
    version = version;
    network_id = field_slice preimage PreimageFieldName.network_id;
    contract_digest = field_slice preimage PreimageFieldName.contract;
    issuer = field_slice preimage PreimageFieldName.issuer;
    claim_type = field_slice preimage PreimageFieldName.claim_type;
    subject = field_slice preimage PreimageFieldName.subject;
    payload_hash = field_slice preimage PreimageFieldName.payload_hash;
    payload_encoding = byte_at 198 preimage;
    replay_mode = byte_at 199 preimage;
    nonce = from_big_endian (slice 200 8 preimage);
    claim_id = field_slice preimage PreimageFieldName.claim_id;
    issued_at = from_big_endian (slice 240 8 preimage);
    expires_at = from_big_endian (slice 248 8 preimage);
  })

module _ (crypto : Crypto) where
  unfoldable pub verify_preimage : Bytes → Bytes → Checked (Unit {0})
  verify_preimage preimage signature = do
    assert_bytes signature 64
    d ← decode_preimage preimage
    require (crypto.verify d.issuer preimage signature) invalid_signature

pub record PreimageFieldDiff : Type 0 where
  pub name : PreimageFieldName
  pub offset : ℕ
  pub size : ℕ
  pub a : Bytes
  pub b : Bytes

-- The fields of a layout whose regions differ, in its order.
unfoldable pub field_diffs : List PreimageField → Bytes → Bytes → List PreimageFieldDiff
field_diffs [] a b = []
field_diffs (f ∷ fs) a b =
    let rest = field_diffs fs a b in
    let x = slice f.offset f.size a in
    let y = slice f.offset f.size b in
    if every_same x y
    then rest
    else record { name = f.name; offset = f.offset; size = f.size; a = x; b = y } ∷ rest

unfoldable pub compare_preimages : Bytes → Bytes → Checked (List PreimageFieldDiff)
compare_preimages a b = do
  assert_bytes a preimage_length
  assert_bytes b preimage_length
  ok (field_diffs preimage_layout a b)
