-- ===== src/Claims/Verify.antt =====
-- `verifyClaim` and `signClaim`, packages/sdk/src/verify.ts and sign.ts.
use core_flow.Prelude.{ℕ, ◌^◌, ◌/◌, String, Option, none, some, nat_eq, ltb, not, if◌then◌else◌}
use core_flow.Prelude.Int.{ℤ, pos, negsuc, leb_ℤ}
use core_flow.Prelude.Bytes.{Bytes, every_same}
use core_flow.Claims.Types.{
  invalid_input, invalid_window, claim_expired, invalid_signature, issuer_mismatch, Checked, ok,
  fail, ◌>>=◌, ◌>>◌, Claim, ClaimContext,
}
use core_flow.Claims.Crypto.{Crypto}
use core_flow.Claims.Encode.{require, assert_bytes, assert_u64, assert_replay_fields, encode_claim}

-- The current time that a caller may give: a number, which is an integer, or a bigint.
pub data Instant : Type 0 where
  number : ℤ → Instant
  bigint : ℤ → Instant

-- `Number.isSafeInteger(n) && n >= 0`
abbrev pub safe_seconds : ℤ → Checked ℕ
safe_seconds (pos n) = if ltb n (2 ^ 53) then ok n else fail invalid_input
safe_seconds (negsuc n) = fail invalid_input

-- `clock` is the system's, in milliseconds.
unfoldable pub to_unix_seconds : ℕ → Option Instant → Checked ℕ
to_unix_seconds clock none = ok (clock / 1000)
to_unix_seconds clock (some (number n)) = safe_seconds n
to_unix_seconds clock (some (bigint n)) = assert_u64 n

pub data IssuerSecret : Type 0 where
  strkey : String → IssuerSecret
  seed : Bytes → IssuerSecret
  -- A `Keypair` of this or another copy of the library: its seed, if it can sign.
  keypair : Option Bytes → IssuerSecret

pub record Signed : Type 0 where
  pub preimage : Bytes
  pub signature : Bytes

module _ (crypto : Crypto) where
  unfoldable pub verify_claim :
      (clock : ℕ) → Claim → ClaimContext → Bytes → Option Instant → Checked (Unit {0})
  verify_claim clock claim ctx signature at = do
    assert_bytes signature 64
    now ← to_unix_seconds clock at
    preimage ← encode_claim crypto claim ctx
    require (not (leb_ℤ claim.expires_at claim.issued_at)) invalid_window
    require (leb_ℤ (pos now) claim.expires_at) claim_expired
    assert_replay_fields claim.replay
    require (crypto.verify claim.issuer preimage signature) invalid_signature

  -- `toKeypair`: the seed of a secret.
  unfoldable pub to_keypair : IssuerSecret → Checked Bytes
  to_keypair (strkey s) =
      if crypto.is_valid_secret_seed s then ok (crypto.decode_secret_seed s) else fail invalid_input
  to_keypair (seed bytes) = do assert_bytes bytes 32; ok bytes
  to_keypair (keypair none) = fail invalid_input
  to_keypair (keypair (some bytes)) = do assert_bytes bytes 32; ok bytes

  unfoldable pub issuer_public_key : IssuerSecret → Checked Bytes
  issuer_public_key secret = do key ← to_keypair secret; ok (crypto.public_key key)

  unfoldable pub sign_claim : Claim → ClaimContext → IssuerSecret → Checked Signed
  sign_claim claim ctx secret = do
    preimage ← encode_claim crypto claim ctx
    assert_replay_fields claim.replay
    key ← to_keypair secret
    require (every_same (crypto.public_key key) claim.issuer) issuer_mismatch
    ok (record { preimage = preimage; signature = crypto.sign key preimage })
