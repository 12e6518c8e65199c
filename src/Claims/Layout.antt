-- ===== src/Claims/Layout.antt =====
-- The byte layout of the preimage, packages/sdk/src/layout.ts.
use core_flow.Prelude.{
  ℕ, List, [], ◌∷◌, String, Option, none, Eq, ◌==◌, find?, length, nat_eq, if◌then◌else◌,
}
use core_flow.Prelude.Bytes.{Bytes, every_same}
use core_flow.Claims.Crypto.{Crypto}

pub data PreimageFieldName : Type 0 where
  magic version network_id contract issuer claim_type subject payload_hash payload_encoding
        replay_mode nonce claim_id issued_at expires_at :
      PreimageFieldName

unfoldable pub PreimageFieldName-discrete : Discrete PreimageFieldName
PreimageFieldName-discrete = hlevel

instance abbrev pub field_name_eq : Eq PreimageFieldName
field_name_eq = record { dec = PreimageFieldName-discrete }

pub record PreimageField : Type 0 where
  pub name : PreimageFieldName
  pub offset : ℕ
  pub size : ℕ

abbrev field : PreimageFieldName → ℕ → ℕ → PreimageField
field name offset size = record { name = name; offset = offset; size = size }

abbrev pub preimage_layout : List PreimageField
preimage_layout =
    field magic 0 4
    ∷ field version 4 2
    ∷ field network_id 6 32
    ∷ field contract 38 32
    ∷ field issuer 70 32
    ∷ field claim_type 102 32
    ∷ field subject 134 32
    ∷ field payload_hash 166 32
    ∷ field payload_encoding 198 1
    ∷ field replay_mode 199 1
    ∷ field nonce 200 8
    ∷ field claim_id 208 32
    ∷ field issued_at 240 8
    ∷ field expires_at 248 8
    ∷ []

pub data NetworkName : Type 0 where
  mainnet testnet futurenet : NetworkName

pub record KnownNetwork : Type 0 where
  pub name : NetworkName
  pub passphrase : String

abbrev pub known_networks : List KnownNetwork
known_networks =
    record { name = mainnet; passphrase = "Public Global Stellar Network ; September 2015" }
    ∷ record { name = testnet; passphrase = "Test SDF Network ; September 2015" }
    ∷ record { name = futurenet; passphrase = "Test SDF Future Network ; October 2022" }
    ∷ []

module _ (crypto : Crypto) where
  unfoldable pub identify_network : Bytes → Option KnownNetwork
  identify_network id =
      if length id == 32
      then find? (λ (n : KnownNetwork). every_same (crypto.hash (crypto.utf8 n.passphrase)) id)
          known_networks
      else none
