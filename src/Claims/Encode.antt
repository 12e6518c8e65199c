-- ===== src/Claims/Encode.antt =====
-- `encodeClaim` of packages/sdk/src/encode.ts, with the checks of bytes.ts and the digests of
-- hash.ts.
use core_flow.Prelude.{
  ℕ, ◌^◌, Bool, true, false, String, List, [], ◌∷◌, some, ◌==◌, nat_eq, ltb, all, length,
  if◌then◌else◌,
}
use core_flow.Prelude.Int.{ℤ, pos, negsuc, int_eq}
use core_flow.Prelude.Bytes.{Bytes, zeros, big_endian}
use core_flow.Prelude.Slices.{write_all}
use core_flow.Claims.Types.{
  ClaimErrorCode, invalid_input, invalid_replay_fields, Checked, ok, fail, ◌>>=◌, ◌>>◌,
  PayloadEncoding, Replay, sequence, unique_id, Claim, ClaimContext,
}
use core_flow.Claims.Crypto.{Crypto}

abbrev pub preimage_length : ℕ
preimage_length = 256

-- "CFCL"
abbrev pub magic : Bytes
magic = 0x43 ∷ 0x46 ∷ 0x43 ∷ 0x4c ∷ []

abbrev pub wire_version : ℕ
wire_version = 1

abbrev pub require : Bool → ClaimErrorCode → Checked (Unit {0})
require true e = ok tt
require false e = fail e

unfoldable pub assert_bytes : Bytes → ℕ → Checked (Unit {0})
assert_bytes value size = require (length value == size) invalid_input

-- A bigint from 0 to 2 ^ 64 - 1.
unfoldable pub assert_u64 : ℤ → Checked ℕ
assert_u64 (pos n) = if ltb n (2 ^ 64) then ok n else fail invalid_input
assert_u64 (negsuc n) = fail invalid_input

unfoldable pub is_zero : Bytes → Bool
is_zero bytes = all (λ b. b == 0) bytes

pub record WireValues : Type 0 where
  pub encoding : ℕ
  pub mode : ℕ
  pub nonce : ℕ
  pub claim_id : Bytes
  pub issued_at : ℕ
  pub expires_at : ℕ

unfoldable pub encoding_of : PayloadEncoding → Checked ℕ
encoding_of PayloadEncoding.raw = ok 0
encoding_of PayloadEncoding.xdr = ok 1
encoding_of PayloadEncoding.unknown = fail invalid_input

unfoldable pub replay_values : ℕ → ℕ → ℕ → Replay → Checked WireValues
replay_values encoding issued expires (sequence nonce stray) = do
  n ← assert_u64 nonce
  ok (record {
    encoding = encoding;
    mode = 0;
    nonce = n;
    claim_id = zeros 32;
    issued_at = issued;
    expires_at = expires;
  })
replay_values encoding issued expires (unique_id claim_id stray) = do
  assert_bytes claim_id 32
  ok (record {
    encoding = encoding;
    mode = 1;
    nonce = 0;
    claim_id = claim_id;
    issued_at = issued;
    expires_at = expires;
  })
replay_values encoding issued expires Replay.unknown = fail invalid_input

-- `claimWireValues`: the shape of a claim, and what goes on the wire for it.
unfoldable pub claim_wire_values : Claim → Checked WireValues
claim_wire_values claim = do
  assert_bytes claim.issuer 32
  assert_bytes claim.claim_type 32
  assert_bytes claim.subject 32
  assert_bytes claim.payload_hash 32
  issued ← assert_u64 claim.issued_at
  expires ← assert_u64 claim.expires_at
  encoding ← encoding_of claim.payload_encoding
  replay_values encoding issued expires claim.replay

-- `assertReplayFields`: the field of the other mode is missing or zero.
unfoldable pub assert_replay_fields : Replay → Checked (Unit {0})
assert_replay_fields (sequence nonce (some id)) = require (is_zero id) invalid_replay_fields
assert_replay_fields (unique_id id (some n)) = require (n == pos 0) invalid_replay_fields
assert_replay_fields _ = ok tt

-- The XDR of `ScVal::Address(contract)`, before the contract's hash.
abbrev pub address_prefix : Bytes
address_prefix = 0 ∷ 0 ∷ 0 ∷ 0x12 ∷ 0 ∷ 0 ∷ 0 ∷ 1 ∷ []

module _ (crypto : Crypto) where
  unfoldable pub network_id : String → Bytes
  network_id passphrase = crypto.hash (crypto.utf8 passphrase)

  unfoldable pub contract_digest : String → Checked Bytes
  contract_digest id =
      if crypto.is_valid_contract id
      then ok (
          crypto.hash
            (write_all ((0, address_prefix) ∷ (8, crypto.decode_contract id) ∷ []) (zeros 40)))
      else fail invalid_input

-- What `encodeClaim` writes, and where.
abbrev pub preimage_writes : Claim → WireValues → (network contract : Bytes) → List (ℕ × Bytes)
preimage_writes claim wire network contract =
    (0, magic)
    ∷ (4, big_endian 2 wire_version)
    ∷ (6, network)
    ∷ (38, contract)
    ∷ (70, claim.issuer)
    ∷ (102, claim.claim_type)
    ∷ (134, claim.subject)
    ∷ (166, claim.payload_hash)
    ∷ (198, wire.encoding ∷ [])
    ∷ (199, wire.mode ∷ [])
    ∷ (200, big_endian 8 wire.nonce)
    ∷ (208, wire.claim_id)
    ∷ (240, big_endian 8 wire.issued_at)
    ∷ (248, big_endian 8 wire.expires_at)
    ∷ []

module _ (crypto : Crypto) where
  unfoldable pub encode_claim : Claim → ClaimContext → Checked Bytes
  encode_claim claim ctx = do
    wire ← claim_wire_values claim
    contract ← contract_digest crypto ctx.contract_id
    ok (
        write_all (preimage_writes claim wire (network_id crypto ctx.network_passphrase) contract)
          (zeros preimage_length))
