-- ===== src/Claims/RoundTrip.antt =====
-- A preimage carries its claim: what the encoder writes the decoder reads back.
use core_flow.Prelude.{
  ℕ, ◌-◌, ◌^◌, ◌<◌, String, ◌≡◌, refl, sym, ap, ◌∙◌, inl, inr, true, List, [], ◌∷◌, some, nat_eq,
  eq_self, length, Bool-cases, arith, ℕ_discrete,
}
use core_flow.Prelude.Bytes.{
  Bytes, slice, big_endian, from_big_endian, byte_at, every_same, length-big_endian,
  from_big_endian-big_endian,
}
use core_flow.Prelude.Slices.{
  joined, Contiguous, write_all-zeros, region, slice-region, byte_at-slice,
}
use core_flow.Claims.Types.{invalid_input, ok, Claim, ClaimContext}
use core_flow.Claims.Crypto.{Crypto, CryptoLaws}
use core_flow.Claims.Layout.{PreimageFieldName, PreimageFieldName-discrete}
use core_flow.Claims.Encode.{
  magic, require, assert_bytes, WireValues, claim_wire_values, network_id, contract_digest,
  preimage_writes, encode_claim,
}
use core_flow.Claims.Decode.{DecodedPreimage, field_slice, decode_preimage}
use core_flow.Claims.Shape.{>>=-ok, ok_inj, IsShaped, claim_wire_values-IsShaped, Carries}

-- What the decoder returns for an array that passes its checks.
abbrev fields_of : Bytes → DecodedPreimage
fields_of p = record {
  version = 1;
  network_id = field_slice p PreimageFieldName.network_id;
  contract_digest = field_slice p PreimageFieldName.contract;
  issuer = field_slice p PreimageFieldName.issuer;
  claim_type = field_slice p PreimageFieldName.claim_type;
  subject = field_slice p PreimageFieldName.subject;
  payload_hash = field_slice p PreimageFieldName.payload_hash;
  payload_encoding = byte_at 198 p;
  replay_mode = byte_at 199 p;
  nonce = from_big_endian (slice 200 8 p);
  claim_id = field_slice p PreimageFieldName.claim_id;
  issued_at = from_big_endian (slice 240 8 p);
  expires_at = from_big_endian (slice 248 8 p);
}

decode_preimage-passes :
    (p : Bytes)
    → assert_bytes p 256 ≡ ok tt
    → every_same magic p ≡ true
    → from_big_endian (slice 4 2 p) ≡ 1
    → decode_preimage p ≡ ok (fields_of p)
unfolding decode_preimage
decode_preimage-passes p sized starts version = rw (sized, starts, version) (rw (eq_self {A = ℕ} 1))

module _ (claim : Claim) (w : WireValues) (network contract : Bytes) (s : IsShaped claim w)
    (net : length network ≡ 32) (con : length contract ≡ 32) where
  abbrev ws : List (ℕ × Bytes)
  ws = preimage_writes claim w network contract

  laid_out : Contiguous 0 ws 256
  laid_out =
      let n = length-big_endian 8 w.nonce in
      let i = length-big_endian 8 w.issued_at in
      let x = length-big_endian 8 w.expires_at in
      let v = length-big_endian 2 1 in
      let a = s.issuer in
      let b = s.claim_type in
      let c = s.subject in let d = s.payload_hash in let e = s.claim_id in omega arith

  at :
      (offset size : ℕ) (bs : Bytes)
      → region offset ws ≡ some bs
      → length bs ≡ size
      → slice offset size (joined ws) ≡ bs
  at offset size bs h l =
      let start : offset ≡ offset - 0 = omega arith in
      ap (λ o. slice o size (joined ws)) start ∙ slice-region offset 0 256 size ws bs laid_out h l

  words : (v : ℕ) → v < 2 ^ 64 → from_big_endian (big_endian 8 v) ≡ v
  words v h = from_big_endian-big_endian 8 v h

  abbrev decoded : DecodedPreimage
  decoded = record {
    version = 1;
    network_id = network;
    contract_digest = contract;
    issuer = claim.issuer;
    claim_type = claim.claim_type;
    subject = claim.subject;
    payload_hash = claim.payload_hash;
    payload_encoding = w.encoding;
    replay_mode = w.mode;
    nonce = w.nonce;
    claim_id = w.claim_id;
    issued_at = w.issued_at;
    expires_at = w.expires_at;
  }

  starts : every_same magic (joined ws) ≡ true
  unfolding every_same joined ℕ_discrete
  starts = refl

  version_read : from_big_endian (slice 4 2 (joined ws)) ≡ 1
  unfolding ℕ_discrete
  version_read =
      ap from_big_endian (at 4 2 (big_endian 2 1) refl (length-big_endian 2 1))
      ∙ from_big_endian-big_endian 2 1 (omega arith)

  sized : assert_bytes (joined ws) 256 ≡ ok tt
  unfolding assert_bytes
  sized =
      rw ((write_all-zeros ws 256 laid_out).1)
        (ap (λ b. require b invalid_input) (eq_self {A = ℕ} 256))

  fields :
      (field_slice (joined ws) PreimageFieldName.network_id ≡ network)
      × (field_slice (joined ws) PreimageFieldName.contract ≡ contract)
      × (field_slice (joined ws) PreimageFieldName.issuer ≡ claim.issuer)
      × (field_slice (joined ws) PreimageFieldName.claim_type ≡ claim.claim_type)
      × (field_slice (joined ws) PreimageFieldName.subject ≡ claim.subject)
      × (field_slice (joined ws) PreimageFieldName.payload_hash ≡ claim.payload_hash)
      × (field_slice (joined ws) PreimageFieldName.claim_id ≡ w.claim_id)
  unfolding field_slice PreimageFieldName-discrete ℕ_discrete
  fields = (
    at 6 32 network refl net,
    at 38 32 contract refl con,
    at 70 32 claim.issuer refl s.issuer,
    at 102 32 claim.claim_type refl s.claim_type,
    at 134 32 claim.subject refl s.subject,
    at 166 32 claim.payload_hash refl s.payload_hash,
    at 208 32 w.claim_id refl s.claim_id,
  )

  numbers :
      (byte_at 198 (joined ws) ≡ w.encoding)
      × (byte_at 199 (joined ws) ≡ w.mode)
      × (from_big_endian (slice 200 8 (joined ws)) ≡ w.nonce)
      × (from_big_endian (slice 240 8 (joined ws)) ≡ w.issued_at)
      × (from_big_endian (slice 248 8 (joined ws)) ≡ w.expires_at)
  unfolding ℕ_discrete
  numbers = (
    byte_at-slice 198 (joined ws) w.encoding (at 198 1 (w.encoding ∷ []) refl refl),
    byte_at-slice 199 (joined ws) w.mode (at 199 1 (w.mode ∷ []) refl refl),
    ap from_big_endian (at 200 8 (big_endian 8 w.nonce) refl (length-big_endian 8 w.nonce))
        ∙ words w.nonce s.nonce,
    ap from_big_endian (at 240 8 (big_endian 8 w.issued_at) refl (length-big_endian 8 w.issued_at))
        ∙ words w.issued_at s.issued_at.1,
    ap from_big_endian
          (at 248 8 (big_endian 8 w.expires_at) refl (length-big_endian 8 w.expires_at))
        ∙ words w.expires_at s.expires_at.1,
  )

  decode_preimage-joined : decode_preimage (joined ws) ≡ ok decoded
  decode_preimage-joined =
      let f = fields in
      let n = numbers in
      decode_preimage-passes (joined ws) sized starts version_read ∙ λ i. ok (record {
        version = 1;
        network_id = f.0 i;
        contract_digest = f.1 i;
        issuer = f.2 i;
        claim_type = f.3 i;
        subject = f.4 i;
        payload_hash = f.5 i;
        payload_encoding = n.0 i;
        replay_mode = n.1 i;
        nonce = n.2 i;
        claim_id = f.6 i;
        issued_at = n.3 i;
        expires_at = n.4 i;
      })

-- The digest of a contract has 32 bytes.
length-contract_digest :
    (crypto : Crypto) (laws : CryptoLaws crypto) (id : String) (d : Bytes)
    → contract_digest crypto id ≡ ok d
    → length d ≡ 32
unfolding contract_digest
length-contract_digest crypto laws id d h = elim (Bool-cases (crypto.is_valid_contract id)) [
  | inr invalid ↦ absurd (ground arith)
  | inl valid ↦ ap length (sym (ok_inj (rw valid at h))) ∙ laws.length-hash _
]

-- Where the third-party functions keep their laws: a claim that is encoded is read back. The decoder accepts the preimage and
-- returns version 1, the digests of the context, and the claim's fields, with the replay field of
-- the other mode as zero.
pub decode_preimage-encode_claim :
    (crypto : Crypto) (laws : CryptoLaws crypto) (claim : Claim) (ctx : ClaimContext) (p : Bytes)
    → encode_claim crypto claim ctx ≡ ok p
    → (d : DecodedPreimage) × (decode_preimage p ≡ ok d) × Carries crypto claim ctx d
unfolding encode_claim network_id
decode_preimage-encode_claim crypto laws claim ctx p h =
    let (w, shaped, h1) = >>=-ok (claim_wire_values claim) _ h in
    let (contract, digest, h2) = >>=-ok (contract_digest crypto ctx.contract_id) _ h1 in
    let network = network_id crypto ctx.network_passphrase in
    let s = claim_wire_values-IsShaped claim w shaped in
    let net = laws.length-hash (crypto.utf8 ctx.network_passphrase) in
    let con = length-contract_digest crypto laws ctx.contract_id contract digest in
    let written =
      (write_all-zeros (ws claim w network contract s net con) 256
        (laid_out claim w network contract s net con)).0 in
    (
      decoded claim w network contract s net con,
      ap decode_preimage (sym (sym written ∙ ok_inj h2))
          ∙ decode_preimage-joined claim w network contract s net con,
      record {
        version = refl;
        network = refl;
        contract = digest;
        issuer = refl;
        claim_type = refl;
        subject = refl;
        payload_hash = refl;
        encoding = s.encoding;
        replay = s.replay;
        issued_at = s.issued_at.0;
        expires_at = s.expires_at.0;
      },
    )
