-- ===== src/Claims/Types.antt =====
-- The types of packages/sdk/src/types.ts and errors.ts. A caller without types can leave a replay
-- field of the other mode on a claim, or a word that is neither of the two: the types here have
-- room for both. Messages are left out.
use core_flow.Prelude.{ℕ, Option, none, some, String, ◌==◌, nat_eq, if◌then◌else◌}
use core_flow.Prelude.Int.{ℤ}
use core_flow.Prelude.Bytes.{Bytes}

pub data ClaimErrorCode : Type 0 where
  invalid_input issuer_mismatch invalid_signature issuer_not_registered invalid_window claim_expired
        invalid_replay_fields nonce_mismatch claim_already_used nonce_overflow
        issuer_already_registered issuer_not_found :
      ClaimErrorCode

-- What a function returns, or the code of the error that it throws.
pub data Checked {ℓ} (A : Type ℓ) : Type ℓ where
  ok : A → Checked A
  fail : ClaimErrorCode → Checked A

infixl 5 ◌>>=◌ ◌>>◌
abbrev pub ◌>>=◌ {ℓ κ} : {A : Type ℓ} {B : Type κ} → Checked A → (A → Checked B) → Checked B
ok a >>= f = f a
fail e >>= f = fail e

abbrev pub ◌>>◌ {ℓ} : {B : Type ℓ} → Checked (Unit {0}) → Checked B → Checked B
m >> k = m >>= λ _. k

-- `fromContractErrorCode`
unfoldable pub from_contract_error_code : ℕ → Option ClaimErrorCode
from_contract_error_code n =
    if n == 1101
    then some issuer_not_registered
    else if n == 1102
    then some invalid_window
    else if n == 1103
    then some claim_expired
    else if n == 1104
    then some invalid_replay_fields
    else if n == 1105
    then some nonce_mismatch
    else if n == 1106
    then some claim_already_used
    else if n == 1107
    then some nonce_overflow
    else if n == 1108
    then some issuer_already_registered
    else if n == 1109
    then some issuer_not_found
    else none

pub data PayloadEncoding : Type 0 where
  raw xdr unknown : PayloadEncoding

pub data Replay : Type 0 where
  sequence : (nonce : ℤ) (stray : Option Bytes) → Replay
  unique_id : (claim_id : Bytes) (stray : Option ℤ) → Replay
  unknown : Replay

pub record Claim : Type 0 where
  pub issuer : Bytes
  pub claim_type : Bytes
  pub subject : Bytes
  pub payload_hash : Bytes
  pub payload_encoding : PayloadEncoding
  pub replay : Replay
  pub issued_at : ℤ
  pub expires_at : ℤ

pub record ClaimContext : Type 0 where
  pub network_passphrase : String
  pub contract_id : String
