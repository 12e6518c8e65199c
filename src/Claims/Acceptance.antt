-- ===== src/Claims/Acceptance.antt =====
-- What an accepted claim guarantees, and that a signed claim is accepted.
use core_flow.Prelude.{
  leb, ◌+◌, ℕ, ◌<◌, ◌≤◌, ◌≡◌, refl, sym, ap, ◌∙◌, inl, inr, Bool, true, false, Option, none, some,
  ◌==◌, nat_eq, not, eq-eq_true, length, Bool-cases, arith, eq_self,
}
use mathlib.Core.Path.{subst}
use mathlib.Core.Option.{some-injective}
use core_flow.Prelude.Int.{ℤ, pos, leb_ℤ, int_eq}
use core_flow.Prelude.Bytes.{Bytes, every_same, every_same-eq}
use core_flow.Claims.Types.{
  invalid_window, claim_expired, issuer_mismatch, ClaimErrorCode, ok, Replay, sequence, unique_id,
  Claim, ClaimContext,
}
use core_flow.Claims.Crypto.{Crypto, CryptoLaws}
use core_flow.Claims.Encode.{
  require, assert_bytes, is_zero, assert_replay_fields, claim_wire_values, encode_claim,
}
use core_flow.Claims.Decode.{DecodedPreimage, decode_preimage}
use core_flow.Claims.Verify.{
  strkey, seed, keypair, Instant, to_unix_seconds, IssuerSecret, Signed, verify_claim, to_keypair,
  sign_claim,
}
use core_flow.Claims.Shape.{>>=-ok, ok_inj, assert_bytes-ok, claim_wire_values-IsShaped, Carries}
use core_flow.Claims.RoundTrip.{decode_preimage-encode_claim}

-- The replay field of the other mode is missing or zero.
abbrev pub Unstrayed : Replay → Type 0
Unstrayed (sequence n stray) = (id : Bytes) → stray ≡ some id → is_zero id ≡ true
Unstrayed (unique_id i stray) = (n : ℤ) → stray ≡ some n → n ≡ pos 0
Unstrayed Replay.unknown = Unit

require-ok : (b : Bool) (e : ClaimErrorCode) {u : Unit {0}} → require b e ≡ ok u → b ≡ true
require-ok true e h = refl
require-ok false e h = absurd (ground arith)

assert_replay_fields-ok : (r : Replay) {u : Unit {0}} → assert_replay_fields r ≡ ok u → Unstrayed r
unfolding assert_replay_fields
assert_replay_fields-ok (sequence n none) h = λ id e. absurd (ground arith)
assert_replay_fields-ok (sequence n (some x)) h =
    λ id e. ap is_zero (sym (some-injective _ _ e)) ∙ require-ok (is_zero x) _ h
assert_replay_fields-ok (unique_id i none) h = λ n e. absurd (ground arith)
assert_replay_fields-ok (unique_id i (some x)) h =
    λ n e. sym (some-injective _ _ e) ∙ eq-eq_true x (pos 0) (require-ok (x == pos 0) _ h)
assert_replay_fields-ok Replay.unknown h = tt

-- The checks on the window, over the words that the instants stand for.
window_lem :
    (i x : ℤ) (a b : ℕ)
    → i ≡ pos a
    → x ≡ pos b
    → require (not (leb_ℤ x i)) invalid_window ≡ ok tt
    → a < b
window_lem i x a b hi hx h =
    let t = require-ok (not (leb_ℤ x i)) _ h in
    let e : not (leb (b + 0) (a + 0)) ≡ true =
      subst (λ i. not (leb_ℤ (pos b) i) ≡ true) hi (subst (λ x. not (leb_ℤ x i) ≡ true) hx t) in
    ground arith

unexpired_lem :
    (x : ℤ) (now b : ℕ) → x ≡ pos b → require (leb_ℤ (pos now) x) claim_expired ≡ ok tt → now ≤ b
unexpired_lem x now b hx h =
    let t = require-ok (leb_ℤ (pos now) x) _ h in
    let e : leb (now + 0) (b + 0) ≡ true = subst (λ x. leb_ℤ (pos now) x ≡ true) hx t in
    ground arith

-- The bytes that an accepted signature was checked against, and the facts that were checked.
pub record Accepted (crypto : Crypto) (claim : Claim) (ctx : ClaimContext) (signature : Bytes)
    (now : ℕ) : Type 0 where
  pub preimage : Bytes
  pub decoded : DecodedPreimage
  pub reads : decode_preimage preimage ≡ ok decoded
  pub carries : Carries crypto claim ctx decoded
  pub signed : crypto.verify decoded.issuer preimage signature ≡ true
  pub window : decoded.issued_at < decoded.expires_at
  pub unexpired : now ≤ decoded.expires_at
  pub unstrayed : Unstrayed claim.replay

-- Where the third-party functions keep their laws: a claim that is accepted, at the time that is
-- given or read from the clock, is signed by the issuer that its preimage names, over bytes that
-- read back as exactly this claim for this network and contract; its window is not empty, the time
-- is not past its end, and it carries no replay field of the other mode.
pub verify_claim-Accepted :
    (crypto : Crypto) (laws : CryptoLaws crypto) (clock : ℕ) (claim : Claim) (ctx : ClaimContext)
    (signature : Bytes) (at : Option Instant) (now : ℕ)
    → to_unix_seconds clock at ≡ ok now
    → verify_claim crypto clock claim ctx signature at ≡ ok tt
    → Accepted crypto claim ctx signature now
unfolding verify_claim
verify_claim-Accepted crypto laws clock claim ctx signature at now time h =
    let (_, sized, h1) = >>=-ok (assert_bytes signature 64) _ h in
    let (t, timed, h2) = >>=-ok (to_unix_seconds clock at) _ h1 in
    let (p, encoded, h3) = >>=-ok (encode_claim crypto claim ctx) _ h2 in
    let (_, window, h4) = >>=-ok (require (not (leb_ℤ claim.expires_at claim.issued_at)) _) _ h3 in
    let (_, fresh, h5) = >>=-ok (require (leb_ℤ (pos t) claim.expires_at) _) _ h4 in
    let (_, replay, h6) = >>=-ok (assert_replay_fields claim.replay) _ h5 in
    let (d, reads, carries) = decode_preimage-encode_claim crypto laws claim ctx p encoded in
    let same : t ≡ now = ok_inj (sym timed ∙ time) in
    record {
      preimage = p;
      decoded = d;
      reads = reads;
      carries = carries;
      signed = rw (carries.issuer) (require-ok _ _ h6);
      window = window_lem _ _ _ _ carries.issued_at carries.expires_at window;
      unexpired = subst (λ t. t ≤ d.expires_at) same (unexpired_lem _ _ _ carries.expires_at fresh);
      unstrayed = assert_replay_fields-ok claim.replay replay;
    }

every_same-ok :
    (key issuer : Bytes) {u : Unit {0}}
    → length key ≡ 32
    → length issuer ≡ 32
    → require (every_same key issuer) issuer_mismatch ≡ ok u
    → key ≡ issuer
every_same-ok key issuer k i h =
    every_same-eq key issuer (k ∙ sym i) (require-ok (every_same key issuer) issuer_mismatch h)

length-to_keypair :
    (crypto : Crypto) (laws : CryptoLaws crypto) (secret : IssuerSecret) (key : Bytes)
    → to_keypair crypto secret ≡ ok key
    → length key ≡ 32
unfolding to_keypair
length-to_keypair crypto laws (strkey s) key h = elim (Bool-cases (crypto.is_valid_secret_seed s)) [
  | inr invalid ↦ absurd (ground arith)
  | inl valid ↦ ap length (sym (ok_inj (rw valid at h))) ∙ laws.length-decode_secret_seed s valid
]
length-to_keypair crypto laws (seed bytes) key h =
    let (_, sized, rest) = >>=-ok (assert_bytes bytes 32) _ h in
    ap length (sym (ok_inj rest)) ∙ assert_bytes-ok bytes 32 sized
length-to_keypair crypto laws (keypair none) key h = absurd (ground arith)
length-to_keypair crypto laws (keypair (some bytes)) key h =
    let (_, sized, rest) = >>=-ok (assert_bytes bytes 32) _ h in
    ap length (sym (ok_inj rest)) ∙ assert_bytes-ok bytes 32 sized

-- What `signClaim` establishes.
record Produced (crypto : Crypto) (claim : Claim) (ctx : ClaimContext) (s : Signed) : Type 0 where
  key : Bytes
  sized : length key ≡ 32
  encoded : encode_claim crypto claim ctx ≡ ok s.preimage
  unstrayed : assert_replay_fields claim.replay ≡ ok tt
  owned : crypto.public_key key ≡ claim.issuer
  signed : s.signature ≡ crypto.sign key s.preimage

length-issuer :
    (crypto : Crypto) (claim : Claim) (ctx : ClaimContext) (p : Bytes)
    → encode_claim crypto claim ctx ≡ ok p
    → length claim.issuer ≡ 32
unfolding encode_claim
length-issuer crypto claim ctx p h =
    let (w, shaped, _) = >>=-ok (claim_wire_values claim) _ h in
    (claim_wire_values-IsShaped claim w shaped).issuer

sign_claim-Produced :
    (crypto : Crypto) (laws : CryptoLaws crypto) (claim : Claim) (ctx : ClaimContext)
    (secret : IssuerSecret) (s : Signed)
    → sign_claim crypto claim ctx secret ≡ ok s
    → Produced crypto claim ctx s
unfolding sign_claim
sign_claim-Produced crypto laws claim ctx secret s h =
    let (p, encoded, h1) = >>=-ok (encode_claim crypto claim ctx) _ h in
    let (u, replay, h2) = >>=-ok (assert_replay_fields claim.replay) _ h1 in
    let (key, made, h3) = >>=-ok (to_keypair crypto secret) _ h2 in
    let (_, owner, h4) =
      >>=-ok (require (every_same (crypto.public_key key) claim.issuer) issuer_mismatch) _ h3 in
    let sized = length-to_keypair crypto laws secret key made in
    let same = ok_inj h4 in
    record {
      key = key;
      sized = sized;
      encoded = encoded ∙ ap (λ s. ok s.preimage) same;
      unstrayed = replay;
      owned =
          every_same-ok (crypto.public_key key) claim.issuer (laws.length-public_key key sized)
            (length-issuer crypto claim ctx p encoded) owner;
      signed = subst (λ s. s.signature ≡ crypto.sign key s.preimage) same refl;
    }

-- Where the third-party functions keep their laws: what `signClaim` returns `verifyClaim` accepts,
-- from any secret and for any claim with a window that is not empty, as long as the time, given or
-- read from the clock, is valid and not past the window's end.
pub verify_claim-sign_claim :
    (crypto : Crypto) (laws : CryptoLaws crypto) (clock : ℕ) (claim : Claim) (ctx : ClaimContext)
    (secret : IssuerSecret) (at : Option Instant) (now : ℕ) (s : Signed)
    → to_unix_seconds clock at ≡ ok now
    → leb_ℤ claim.expires_at claim.issued_at ≡ false
    → leb_ℤ (pos now) claim.expires_at ≡ true
    → sign_claim crypto claim ctx secret ≡ ok s
    → verify_claim crypto clock claim ctx s.signature at ≡ ok tt
unfolding verify_claim assert_bytes
verify_claim-sign_claim crypto laws clock claim ctx secret at now s time window fresh h =
    let r = sign_claim-Produced crypto laws claim ctx secret s h in
    let sized : length s.signature ≡ 64 =
      ap length r.signed ∙ laws.length-sign r.key s.preimage r.sized in
    let valid : crypto.verify claim.issuer s.preimage s.signature ≡ true =
      rw (sym r.owned, r.signed) (laws.verify-sign r.key s.preimage r.sized) in
    rw (sized, time, r.encoded, window, fresh, r.unstrayed, valid) (rw (eq_self {A = ℕ} 64) refl)
