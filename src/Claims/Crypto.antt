-- ===== src/Claims/Crypto.antt =====
-- What the SDK takes from @stellar/stellar-base and from the platform: SHA-256, the encoding of
-- texts, strkeys and Ed25519. The functions are parameters; the laws are what their documentation
-- says of them.
use core_flow.Prelude.{Bool, true, String, ◌≡◌, length}
use core_flow.Prelude.Bytes.{Bytes}

pub record Crypto : Type 0 where
  pub hash : Bytes → Bytes
  pub utf8 : String → Bytes
  pub is_valid_contract : String → Bool
  pub decode_contract : String → Bytes
  pub is_valid_secret_seed : String → Bool
  pub decode_secret_seed : String → Bytes
  -- The public key of a 32-byte seed, and the two operations of Ed25519.
  pub public_key : Bytes → Bytes
  pub sign : (seed message : Bytes) → Bytes
  pub verify : (key message signature : Bytes) → Bool

-- A digest has 32 bytes, a key 32 and a signature 64, and what a seed signs its key verifies.
pub record CryptoLaws (c : Crypto) : Type 0 where
  pub length-hash : (data' : Bytes) → length (c.hash data') ≡ 32
  pub length-decode_secret_seed :
      (s : String) → c.is_valid_secret_seed s ≡ true → length (c.decode_secret_seed s) ≡ 32
  pub length-public_key : (seed : Bytes) → length seed ≡ 32 → length (c.public_key seed) ≡ 32
  pub length-sign : (seed message : Bytes) → length seed ≡ 32 → length (c.sign seed message) ≡ 64
  pub verify-sign :
      (seed message : Bytes)
      → length seed ≡ 32
      → c.verify (c.public_key seed) message (c.sign seed message) ≡ true
