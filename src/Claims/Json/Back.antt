-- ===== src/Claims/Json/Back.antt =====
-- The portable form of a claim is read back.
use core_flow.Prelude.{
  ℕ, zero, suc, ◌^◌, ◌<◌, ◌≡◌, refl, sym, ap, ◌∙◌, Bool, true, false, [], ◌∷◌, none, some, nat_eq,
  ltb, length, if◌then◌else◌, arith, string_discrete, ℕ_discrete,
}
use mathlib.Core.Path.{subst}
use core_flow.Prelude.Int.{pos, ℤ-discrete}
use core_flow.Prelude.Bytes.{Bytes, zeros}
use core_flow.Money.{
  is_digits, from_decimal, to_decimal, Prints, to_decimal-Prints, leads, to_decimal-leads,
}
use core_flow.Claims.Types.{ok, PayloadEncoding, Replay, sequence, unique_id, Claim}
use core_flow.Claims.Encode.{is_zero, encoding_of, claim_wire_values, assert_replay_fields}
use core_flow.Claims.Shape.{>>=-ok, ok_inj, ReplayOf, claim_wire_values-IsShaped}
use core_flow.Claims.Json.Hex.{Text, to_hex, from_hex, AreBytes, length-to_hex, pairs-to_hex}
use core_flow.Claims.Json.Form.{
  ClaimJson, claim_to_json, text, number, object_of, hex32, is_canonical, u64, flag, get, has_keys,
  replay_of, claim_from_json,
}

hex32-to_hex :
    (bytes : Bytes) → AreBytes bytes → length bytes ≡ 32 → hex32 (text (to_hex bytes)) ≡ ok bytes
unfolding hex32 from_hex ℕ_discrete
hex32-to_hex bytes h l =
    let (back, digits) = pairs-to_hex bytes h in
    let size : length (to_hex bytes) ≡ 64 = omega (arith, length-to_hex bytes) in
    rw (size, digits, back) refl

canonical_lem : (n : ℕ) (s : Text) → Prints n s → (0 < n → leads s ≡ true) → is_canonical s ≡ true
unfolding is_digits
canonical_lem n [] p lead = absurd (let d = p.digital in ground arith)
canonical_lem n (c ∷ []) p lead = p.digital
canonical_lem zero (c ∷ d ∷ s) p lead =
    absurd (let short = p.short 1 (omega arith) (omega arith) in omega arith)
canonical_lem (suc n) (c ∷ d ∷ s) p lead = rw (lead (omega arith)) p.digital

u64-to_decimal : (n : ℕ) → n < 2 ^ 64 → u64 (text (to_decimal n)) ≡ ok n
unfolding u64 from_decimal
u64-to_decimal n h =
    let p = to_decimal-Prints n in
    let canonical = canonical_lem n (to_decimal n) p (to_decimal-leads n) in
    let fits : ltb n (2 ^ 64) ≡ true = ground arith in rw (canonical, p.value, fits) refl

-- The claim without the field of the other mode, which a portable form has as zero.
abbrev pub unstrayed : Replay → Replay
unstrayed (sequence nonce stray) = sequence nonce none
unstrayed (unique_id claim_id stray) = unique_id claim_id none
unstrayed Replay.unknown = Replay.unknown

is_zero-zeros : (n : ℕ) → is_zero (zeros n) ≡ true
unfolding is_zero zeros ℕ_discrete
is_zero-zeros zero = refl
is_zero-zeros (suc n) = is_zero-zeros n

flag-zero : flag (number (pos 0)) ≡ ok false
unfolding flag ℤ-discrete ℕ_discrete
flag-zero = refl

flag-one : flag (number (pos 1)) ≡ ok true
unfolding flag ℤ-discrete ℕ_discrete
flag-one = refl

flag_at : (n m : ℕ) (b : Bool) → n ≡ m → flag (number (pos m)) ≡ ok b → flag (number (pos n)) ≡ ok b
flag_at n m b e h = ap (λ k. flag (number (pos k))) e ∙ h

encoding_lem :
    (e : PayloadEncoding) (n : ℕ)
    → encoding_of e ≡ ok n
    → (b : Bool) × (flag (number (pos n)) ≡ ok b)
      × ((if b then PayloadEncoding.xdr else PayloadEncoding.raw) ≡ e)
unfolding encoding_of
encoding_lem PayloadEncoding.raw n h = (false, flag_at n 0 false (sym (ok_inj h)) flag-zero, refl)
encoding_lem PayloadEncoding.xdr n h = (true, flag_at n 1 true (sym (ok_inj h)) flag-one, refl)
encoding_lem PayloadEncoding.unknown n h = absurd (ground arith)

replay_lem :
    (r : Replay) (mode nonce : ℕ) (id : Bytes)
    → ReplayOf r mode nonce id
    → (b : Bool) × (flag (number (pos mode)) ≡ ok b) × (replay_of b nonce id ≡ unstrayed r)
unfolding ℕ_discrete
replay_lem (sequence n stray) mode nonce id h = (
  false,
  flag_at mode 0 false h.0 flag-zero,
  (ap (λ i. replay_of false nonce i) h.2
      ∙ ap (λ b. sequence (pos nonce) (if b then none else some (zeros 32))) (is_zero-zeros 32)
      ∙ ap (λ n. sequence n none) (sym h.1)),
)
replay_lem (unique_id i stray) mode nonce id h = (
  true,
  flag_at mode 1 true h.0 flag-one,
  (ap (λ n. replay_of true n id) h.1 ∙ ap (λ i. unique_id i none) h.2),
)
replay_lem Replay.unknown mode nonce id h = absurd h

-- The byte fields of a claim hold bytes.
abbrev pub ReplayBytes : Replay → Type 0
ReplayBytes (sequence n stray) = Unit
ReplayBytes (unique_id i stray) = AreBytes i
ReplayBytes Replay.unknown = Unit

pub record ClaimBytes (claim : Claim) : Type 0 where
  pub issuer : AreBytes claim.issuer
  pub claim_type : AreBytes claim.claim_type
  pub subject : AreBytes claim.subject
  pub payload_hash : AreBytes claim.payload_hash
  pub replay : ReplayBytes claim.replay

zeros_bytes : (n : ℕ) → AreBytes (zeros n)
unfolding zeros
zeros_bytes zero = tt
zeros_bytes (suc n) = (omega arith, zeros_bytes n)

id_bytes :
    (r : Replay) (mode nonce : ℕ) (id : Bytes)
    → ReplayOf r mode nonce id
    → ReplayBytes r
    → AreBytes id
id_bytes (sequence n stray) mode nonce id h b = subst AreBytes (sym h.2) (zeros_bytes 32)
id_bytes (unique_id i stray) mode nonce id h b = subst AreBytes (sym h.2) b
id_bytes Replay.unknown mode nonce id h b = absurd h

-- The reader on the ten fields in order, once each of them reads.
claim_from_json-fields :
    (j : ClaimJson) (issuer claim_type subject payload_hash claim_id : Bytes)
    (encoding unique : Bool) (nonce issued_at expires_at : ℕ)
    → hex32 (text j.issuer) ≡ ok issuer
    → hex32 (text j.claim_type) ≡ ok claim_type
    → hex32 (text j.subject) ≡ ok subject
    → hex32 (text j.payload_hash) ≡ ok payload_hash
    → flag (number (pos j.payload_encoding)) ≡ ok encoding
    → flag (number (pos j.replay_mode)) ≡ ok unique
    → u64 (text j.nonce) ≡ ok nonce
    → hex32 (text j.claim_id) ≡ ok claim_id
    → u64 (text j.issued_at) ≡ ok issued_at
    → u64 (text j.expires_at) ≡ ok expires_at
    → claim_from_json (object_of j)
      ≡ ok (record {
        issuer = issuer;
        claim_type = claim_type;
        subject = subject;
        payload_hash = payload_hash;
        payload_encoding = if encoding then PayloadEncoding.xdr else PayloadEncoding.raw;
        replay = replay_of unique nonce claim_id;
        issued_at = pos issued_at;
        expires_at = pos expires_at;
      })
unfolding claim_from_json has_keys get string_discrete
claim_from_json-fields j issuer claim_type subject payload_hash claim_id encoding unique nonce
      issued_at expires_at a b c d e f g h i k =
    rw (a, b, c, d, e, f, g, h, i, k) refl

-- The portable form of a claim whose byte fields hold bytes: what `claimToJSON` writes
-- `claimFromJSON` accepts, and it returns the claim, without a zero field of the other mode.
pub claim_from_json-claim_to_json :
    (claim : Claim) (j : ClaimJson)
    → ClaimBytes claim
    → claim_to_json claim ≡ ok j
    → claim_from_json (object_of j) ≡ ok (record claim { replay = unstrayed claim.replay })
unfolding claim_to_json
claim_from_json-claim_to_json claim j bytes h =
    let (w, shaped, h1) = >>=-ok (claim_wire_values claim) _ h in
    let (_, _, h2) = >>=-ok (assert_replay_fields claim.replay) _ h1 in
    let s = claim_wire_values-IsShaped claim w shaped in
    let (encoding, e1, e2) = encoding_lem claim.payload_encoding w.encoding s.encoding in
    let (unique, r1, r2) = replay_lem claim.replay w.mode w.nonce w.claim_id s.replay in
    let issued = sym s.issued_at.0 in
    let expires = sym s.expires_at.0 in
    let id = id_bytes claim.replay w.mode w.nonce w.claim_id s.replay bytes.replay in
    ap (λ j. claim_from_json (object_of j)) (sym (ok_inj h2))
    ∙ claim_from_json-fields _ claim.issuer claim.claim_type claim.subject claim.payload_hash
        w.claim_id encoding unique w.nonce w.issued_at w.expires_at
        (hex32-to_hex claim.issuer bytes.issuer s.issuer)
        (hex32-to_hex claim.claim_type bytes.claim_type s.claim_type)
        (hex32-to_hex claim.subject bytes.subject s.subject)
        (hex32-to_hex claim.payload_hash bytes.payload_hash s.payload_hash) e1 r1
        (u64-to_decimal w.nonce s.nonce) (hex32-to_hex w.claim_id id s.claim_id)
        (u64-to_decimal w.issued_at s.issued_at.1) (u64-to_decimal w.expires_at s.expires_at.1)
    ∙ λ i. ok (record {
      issuer = claim.issuer;
      claim_type = claim.claim_type;
      subject = claim.subject;
      payload_hash = claim.payload_hash;
      payload_encoding = e2 i;
      replay = r2 i;
      issued_at = issued i;
      expires_at = expires i;
    })
