-- ===== src/Claims/Tests.antt =====
-- The Claims theorems at a concrete claim, with concrete functions for the third-party ones.
use core_flow.Prelude.{arith, ◌≡◌, refl, ap, ◌↔◌, true, [], ◌∷◌, Option, some, length, ℕ_discrete}
use core_flow.Prelude.Int.{pos}
use core_flow.Prelude.Bytes.{
  Bytes, zeros, set_bytes, big_endian, from_big_endian, every_same, every_same_self, length-zeros,
  length-big_endian,
}
use core_flow.Prelude.Slices.{write_all}
use core_flow.Claims.Types.{invalid_signature, ok, PayloadEncoding, sequence, Claim, ClaimContext}
use core_flow.Claims.Crypto.{Crypto, CryptoLaws}
use core_flow.Claims.Encode.{
  require, assert_bytes, assert_u64, is_zero, encoding_of, replay_values, claim_wire_values,
  assert_replay_fields, network_id, contract_digest, preimage_writes, encode_claim,
}
use core_flow.Claims.Decode.{DecodedPreimage, decode_preimage, compare_preimages}
use core_flow.Claims.Verify.{
  Instant, number, to_unix_seconds, IssuerSecret, Signed, verify_claim, to_keypair, sign_claim,
}
use core_flow.Claims.Shape.{Carries}
use core_flow.Claims.RoundTrip.{decode_preimage-encode_claim}
use core_flow.Claims.Compare.{compare_preimages-nil}
use core_flow.Claims.Acceptance.{Accepted, verify_claim-Accepted, verify_claim-sign_claim}
use core_flow.Money.{to_decimal}
use core_flow.Claims.Json.Hex.{to_hex}
use core_flow.Claims.Json.Form.{ClaimJson, claim_to_json, object_of, claim_from_json}
use core_flow.Claims.Json.Back.{unstrayed, ClaimBytes, claim_from_json-claim_to_json}

-- A digest is the message's last bytes, a key is its seed, and a signature is the seed and the
-- message's last bytes.
abbrev toy : Crypto
toy = record {
  hash = λ m. big_endian 32 (from_big_endian m);
  utf8 = λ s. 7 ∷ [];
  is_valid_contract = λ s. true;
  decode_contract = λ s. zeros 32;
  is_valid_secret_seed = λ s. true;
  decode_secret_seed = λ s. zeros 32;
  public_key = λ seed. seed;
  sign = λ seed m. big_endian 64 (from_big_endian m);
  verify = λ key m signature. every_same (big_endian 64 (from_big_endian m)) signature;
}

toy_laws : CryptoLaws toy
toy_laws = record {
  length-hash = λ m. length-big_endian 32 (from_big_endian m);
  length-decode_secret_seed = λ s v. length-zeros 32;
  length-public_key = λ seed l. l;
  length-sign = λ seed m l. length-big_endian 64 (from_big_endian m);
  verify-sign = λ seed m l. every_same_self (big_endian 64 (from_big_endian m));
}

abbrev key : Bytes
key = big_endian 32 0x1234

abbrev claim : Claim
claim = record {
  issuer = key;
  claim_type = big_endian 32 2;
  subject = big_endian 32 3;
  payload_hash = big_endian 32 4;
  payload_encoding = PayloadEncoding.xdr;
  replay = sequence (pos 9) (some (zeros 32));
  issued_at = pos 100;
  expires_at = pos 200;
}

abbrev context : ClaimContext
context = record { network_passphrase = "Test SDF Network ; September 2015"; contract_id = "C" }

abbrev preimage : Bytes
preimage =
    write_all
      (preimage_writes claim
        (record {
          encoding = 1;
          mode = 0;
          nonce = 9;
          claim_id = zeros 32;
          issued_at = 100;
          expires_at = 200;
        })
        (big_endian 32 7) (big_endian 32 0))
      (zeros 256)

abbrev signature : Bytes
signature = big_endian 64 (from_big_endian preimage)

encoded : encode_claim toy claim context ≡ ok preimage
unfolding encode_claim claim_wire_values assert_bytes assert_u64 encoding_of replay_values
    network_id contract_digest ℕ_discrete big_endian from_big_endian zeros write_all set_bytes
encoded = refl

abbrev at_150 : Option Instant
at_150 = some (number (pos 150))

time : to_unix_seconds 0 at_150 ≡ ok 150
unfolding to_unix_seconds
time = refl

abbrev signed : Signed
signed = record { preimage = preimage; signature = signature }

signing : sign_claim toy claim context (IssuerSecret.seed key) ≡ ok signed
unfolding sign_claim to_keypair assert_replay_fields is_zero every_same assert_bytes ℕ_discrete
    big_endian zeros
signing = rw encoded refl

accepted : verify_claim toy 0 claim context signature at_150 ≡ ok tt
unfolding verify_claim to_unix_seconds assert_bytes assert_replay_fields is_zero ℕ_discrete zeros
    big_endian every_same
accepted = rw encoded (ap (λ b. require b invalid_signature) (every_same_self signature))

decode_preimage-encode_claim_example :
    (d : DecodedPreimage) × (decode_preimage preimage ≡ ok d) × Carries toy claim context d
decode_preimage-encode_claim_example =
    decode_preimage-encode_claim toy toy_laws claim context preimage encoded

verify_claim-sign_claim_example : verify_claim toy 0 claim context signature at_150 ≡ ok tt
verify_claim-sign_claim_example =
    verify_claim-sign_claim toy toy_laws 0 claim context (IssuerSecret.seed key) at_150 150 signed
      time refl refl signing

verify_claim-Accepted_example : Accepted toy claim context signature 150
verify_claim-Accepted_example =
    verify_claim-Accepted toy toy_laws 0 claim context signature at_150 150 time accepted

sized : length preimage ≡ 256
unfolding write_all set_bytes zeros big_endian
sized = refl

compare_preimages-nil_example :
    (compare_preimages preimage preimage ≡ ok []) ↔ (preimage ≡ preimage)
compare_preimages-nil_example = compare_preimages-nil preimage preimage sized sized

abbrev portable : ClaimJson
portable = record {
  issuer = to_hex key;
  claim_type = to_hex (big_endian 32 2);
  subject = to_hex (big_endian 32 3);
  payload_hash = to_hex (big_endian 32 4);
  payload_encoding = 1;
  replay_mode = 0;
  nonce = to_decimal 9;
  claim_id = to_hex (zeros 32);
  issued_at = to_decimal 100;
  expires_at = to_decimal 200;
}

written : claim_to_json claim ≡ ok portable
unfolding claim_to_json claim_wire_values assert_bytes assert_u64 encoding_of replay_values
    assert_replay_fields is_zero ℕ_discrete big_endian zeros
written = refl

claim_bytes : ClaimBytes claim
unfolding big_endian
claim_bytes = record {
  issuer = omega arith;
  claim_type = omega arith;
  subject = omega arith;
  payload_hash = omega arith;
  replay = tt;
}

claim_from_json-claim_to_json_example :
    claim_from_json (object_of portable) ≡ ok (record claim { replay = unstrayed claim.replay })
claim_from_json-claim_to_json_example =
    claim_from_json-claim_to_json claim portable claim_bytes written
