-- ===== src/Sui/Wallet.antt =====
-- internal/sui/wallet.go: keys and addresses. The hashes, BIP39 and the derivation of keys are parameters;
-- a private key is held as its seed.
use Prim.Native.String.{◌++◌}
use theme_park_nftengine.Prelude.{String, List, ◌∷◌, ℕ, str_eq, if◌then◌else◌}
use theme_park_nftengine.Errors.{message, wrap}
use theme_park_nftengine.World.{Result, ok, err}
use theme_park_nftengine.Sui.Encode.{hex_of}

pub record Crypto : Type 0 where
  -- blake2b-256, and the ed25519 public key of a seed.
  pub blake : List ℕ → List ℕ
  pub public_of : List ℕ → List ℕ
  -- HMAC-SHA256 of a text under a secret.
  pub hmac : String → String → List ℕ
  -- The seed of a mnemonic, and the key of the derivation path.
  pub seed_of : String → Result (List ℕ)
  pub derive : String → List ℕ → Result (List ℕ)

-- A private key and its address.
pub record Signer : Type 0 where
  pub key : List ℕ
  pub address : String

abbrev pub derivation_path : String
derivation_path = "m/44'/784'/0'/0'/0'"

module _ (c : Crypto) where
  -- The hash of the scheme's flag and the key, in hexadecimal.
  unfoldable pub pub_key_to_sui_address : List ℕ → String
  pub_key_to_sui_address pub_key = "0x" ++ hex_of (c.blake (0 ∷ pub_key))

  abbrev pub signer_of : List ℕ → Signer
  signer_of key = record { key = key; address = pub_key_to_sui_address (c.public_of key) }

  abbrev pub derived : Result (List ℕ) → Result Signer
  derived (ok key) = ok (signer_of key)
  derived (err e) = err (wrap "derive gas-pool key" e)

  abbrev pub seeded : Result (List ℕ) → Result Signer
  seeded (ok seed) = derived (c.derive derivation_path seed)
  seeded (err e) = err (wrap "invalid gas-pool mnemonic" e)

  unfoldable pub signer_from_mnemonic : String → Result Signer
  signer_from_mnemonic mnemonic =
      if str_eq mnemonic ""
      then err (message "SUI_GAS_POOL_MNEMONIC not set — cannot derive gas-pool signer")
      else seeded (c.seed_of mnemonic)

  unfoldable pub deterministic_wallet : String → String → Result Signer
  deterministic_wallet email issuer_secret =
      if str_eq email ""
      then err (message "email required for deterministic wallet")
      else ok (signer_of (c.hmac issuer_secret email))
