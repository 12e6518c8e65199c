-- ===== src/Claims/Shape.antt =====
-- What the checks of the encoder establish of a claim, and what a preimage says of one.
use core_flow.Prelude.{ℕ, ◌^◌, ◌<◌, ◌≡◌, refl, sym, ap, ◌∙◌, ◌⊎◌, inl, inr, nat_eq, length, arith}
use mathlib.Core.Path.{subst}
use core_flow.Prelude.Int.{ℤ, pos, negsuc}
use core_flow.Prelude.Bytes.{Bytes, zeros, length-zeros}
use core_flow.Claims.Types.{
  ClaimErrorCode, Checked, ok, fail, ◌>>=◌, Replay, sequence, unique_id, Claim, ClaimContext,
}
use core_flow.Claims.Crypto.{Crypto}
use core_flow.Claims.Encode.{
  assert_bytes, assert_u64, WireValues, encoding_of, replay_values, claim_wire_values, network_id,
  contract_digest,
}
use core_flow.Claims.Decode.{DecodedPreimage}

pub Checked-cases {ℓ} :
    {A : Type ℓ} (m : Checked A) → ((a : A) × (m ≡ ok a)) ⊎ ((e : ClaimErrorCode) × (m ≡ fail e))
Checked-cases (ok a) = inl (a, refl)
Checked-cases (fail e) = inr (e, refl)

pub >>=-ok {ℓ κ} :
    {A : Type ℓ} {B : Type κ} (m : Checked A) (f : A → Checked B) {b : B}
    → (m >>= f) ≡ ok b
    → (a : A) × (m ≡ ok a) × (f a ≡ ok b)
>>=-ok (ok a) f h = (a, refl, h)
>>=-ok (fail e) f h = absurd (ground arith)

pub assert_bytes-ok : (v : Bytes) (n : ℕ) {u : Unit {0}} → assert_bytes v n ≡ ok u → length v ≡ n
unfolding assert_bytes
assert_bytes-ok v n h = ground arith

pub assert_u64-ok : (v : ℤ) (n : ℕ) → assert_u64 v ≡ ok n → (v ≡ pos n) × (n < 2 ^ 64)
unfolding assert_u64
assert_u64-ok (pos m) n h = ground arith
assert_u64-ok (negsuc m) n h = absurd (ground arith)

pub ok_inj {ℓ} : {A : Type ℓ} {a b : A} → ok a ≡ ok b → a ≡ b
ok_inj h = cc

-- How the wire values stand for the replay field.
abbrev pub ReplayOf : Replay → (mode nonce : ℕ) → (claim_id : Bytes) → Type 0
ReplayOf (sequence n stray) mode nonce id = (mode ≡ 0) × (n ≡ pos nonce) × (id ≡ zeros 32)
ReplayOf (unique_id i stray) mode nonce id = (mode ≡ 1) × (nonce ≡ 0) × (id ≡ i)
ReplayOf Replay.unknown mode nonce id = ⊥

-- The shape of a claim, with its wire values.
pub record IsShaped (claim : Claim) (w : WireValues) : Type 0 where
  pub issuer : length claim.issuer ≡ 32
  pub claim_type : length claim.claim_type ≡ 32
  pub subject : length claim.subject ≡ 32
  pub payload_hash : length claim.payload_hash ≡ 32
  pub encoding : encoding_of claim.payload_encoding ≡ ok w.encoding
  pub issued_at : (claim.issued_at ≡ pos w.issued_at) × (w.issued_at < 2 ^ 64)
  pub expires_at : (claim.expires_at ≡ pos w.expires_at) × (w.expires_at < 2 ^ 64)
  pub replay : ReplayOf claim.replay w.mode w.nonce w.claim_id
  pub nonce : w.nonce < 2 ^ 64
  pub claim_id : length w.claim_id ≡ 32

record Replayed (encoding issued expires : ℕ) (r : Replay) (w : WireValues) : Type 0 where
  kept : (w.encoding ≡ encoding) × (w.issued_at ≡ issued) × (w.expires_at ≡ expires)
  replay : ReplayOf r w.mode w.nonce w.claim_id
  nonce : w.nonce < 2 ^ 64
  claim_id : length w.claim_id ≡ 32

replay_values-ok :
    (encoding issued expires : ℕ) (r : Replay) (w : WireValues)
    → replay_values encoding issued expires r ≡ ok w
    → Replayed encoding issued expires r w
unfolding replay_values
replay_values-ok e i x (sequence n stray) w h =
    let (v, checked, rest) = >>=-ok (assert_u64 n) _ h in
    let u = assert_u64-ok n v checked in
    subst (λ w. Replayed e i x (sequence n stray) w) (ok_inj rest)
      (record {
        kept = (refl, refl, refl);
        replay = (refl, u.0, refl);
        nonce = u.1;
        claim_id = length-zeros 32;
      })
replay_values-ok e i x (unique_id id stray) w h =
    let (v, checked, rest) = >>=-ok (assert_bytes id 32) _ h in
    subst (λ w. Replayed e i x (unique_id id stray) w) (ok_inj rest)
      (record {
        kept = (refl, refl, refl);
        replay = (refl, refl, refl);
        nonce = omega arith;
        claim_id = assert_bytes-ok id 32 checked;
      })
replay_values-ok e i x Replay.unknown w h = absurd (ground arith)

pub claim_wire_values-IsShaped :
    (claim : Claim) (w : WireValues) → claim_wire_values claim ≡ ok w → IsShaped claim w
unfolding claim_wire_values
claim_wire_values-IsShaped claim w h =
    let (_, issuer, h1) = >>=-ok (assert_bytes claim.issuer 32) _ h in
    let (_, type, h2) = >>=-ok (assert_bytes claim.claim_type 32) _ h1 in
    let (_, subject, h3) = >>=-ok (assert_bytes claim.subject 32) _ h2 in
    let (_, payload, h4) = >>=-ok (assert_bytes claim.payload_hash 32) _ h3 in
    let (i, issued, h5) = >>=-ok (assert_u64 claim.issued_at) _ h4 in
    let (x, expires, h6) = >>=-ok (assert_u64 claim.expires_at) _ h5 in
    let (e, encoding, h7) = >>=-ok (encoding_of claim.payload_encoding) _ h6 in
    let r = replay_values-ok e i x claim.replay w h7 in
    let issued' = assert_u64-ok claim.issued_at i issued in
    let expires' = assert_u64-ok claim.expires_at x expires in
    record {
      issuer = assert_bytes-ok claim.issuer 32 issuer;
      claim_type = assert_bytes-ok claim.claim_type 32 type;
      subject = assert_bytes-ok claim.subject 32 subject;
      payload_hash = assert_bytes-ok claim.payload_hash 32 payload;
      encoding = encoding ∙ ap ok (sym r.kept.0);
      issued_at = (issued'.0 ∙ ap pos (sym r.kept.1), rw (r.kept.1) (issued'.1));
      expires_at = (expires'.0 ∙ ap pos (sym r.kept.2), rw (r.kept.2) (expires'.1));
      replay = r.replay;
      nonce = r.nonce;
      claim_id = r.claim_id;
    }

-- What a preimage says, field by field.
pub record Carries (crypto : Crypto) (claim : Claim) (ctx : ClaimContext) (d : DecodedPreimage)
    : Type 0 where
  pub version : d.version ≡ 1
  pub network : d.network_id ≡ network_id crypto ctx.network_passphrase
  pub contract : contract_digest crypto ctx.contract_id ≡ ok d.contract_digest
  pub issuer : d.issuer ≡ claim.issuer
  pub claim_type : d.claim_type ≡ claim.claim_type
  pub subject : d.subject ≡ claim.subject
  pub payload_hash : d.payload_hash ≡ claim.payload_hash
  pub encoding : encoding_of claim.payload_encoding ≡ ok d.payload_encoding
  pub replay : ReplayOf claim.replay d.replay_mode d.nonce d.claim_id
  pub issued_at : claim.issued_at ≡ pos d.issued_at
  pub expires_at : claim.expires_at ≡ pos d.expires_at
