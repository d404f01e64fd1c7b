-- ===== src/Sui/Client.antt =====
-- internal/sui/client.go: the client of the chain. The SDK is a parameter: it answers a request as it does
-- at an attempt of the call.
use theme_park_nftengine.Prelude.{ℕ, zero, String, List, [], ◌∷◌, if◌then◌else◌, str_eq, ◌||◌}
use theme_park_nftengine.Errors.{message, wrap}
use theme_park_nftengine.World.{Result, ok, err}
use theme_park_nftengine.Sui.Encode.{encode_bytes_vec, to_date_hex}
use theme_park_nftengine.Sui.Wallet.{Crypto, Signer, signer_from_mnemonic}
use theme_park_nftengine.Sui.Retry.{Logged, Context, Executed, Labels, attempts}

pub record SuiConfig : Type 0 where
  pub rpc_url : String
  pub package_id : String
  pub mint_cap_id : String
  pub gas_pool_mnemonic : String
  pub gas_budget : String
  pub rpc_max_concurrency : ℕ

pub record Client : Type 0 where
  pub rpc_url : String
  pub package_id : String
  pub mint_cap_id : String
  pub signer : Signer
  pub gas_budget : String
  -- The slots of the semaphore.
  pub concurrency : ℕ

-- A semaphore has one slot at least.
abbrev pub slots : ℕ → ℕ
slots zero = 1
slots n = n

abbrev pub client_of : SuiConfig → Result Signer → Result Client
client_of cfg (err e) = err e
client_of cfg (ok signer) = ok (record {
  rpc_url = cfg.rpc_url;
  package_id = cfg.package_id;
  mint_cap_id = cfg.mint_cap_id;
  signer = signer;
  gas_budget = cfg.gas_budget;
  concurrency = slots cfg.rpc_max_concurrency;
})

unfoldable pub new_client : Crypto → SuiConfig → Result Client
new_client c cfg = client_of cfg (signer_from_mnemonic c cfg.gas_pool_mnemonic)

-- An argument of a Move call: a text, or a vector of texts.
pub data Argument : Type 0 where
  plain : String → Argument
  vector : List String → Argument

pub record MoveCallRequest : Type 0 where
  pub signer : String
  pub package_object_id : String
  pub module_name : String
  pub function : String
  pub arguments : List Argument
  pub gas_budget : String

pub record TransferObjectRequest : Type 0 where
  pub signer : String
  pub object_id : String
  pub recipient : String
  pub gas_budget : String

pub record TransferSuiRequest : Type 0 where
  pub signer : String
  pub sui_object_id : String
  pub gas_budget : String
  pub recipient : String
  pub amount : String

-- What the SDK answers to a request at an attempt: the bytes of a transaction, or the reply to one that
-- was signed with the client's key and executed.
pub record Sdk : Type 0 where
  pub chain_identifier : Result String
  pub move_call : MoveCallRequest → ℕ → Result String
  pub transfer_object : TransferObjectRequest → ℕ → Result String
  pub transfer_sui : TransferSuiRequest → ℕ → Result String
  pub sign_and_execute : List ℕ → String → ℕ → Result Executed

abbrev pub pinged : Result String → Result (Unit {0})
pinged (ok _) = ok tt
pinged (err e) = err (wrap "sui ping" e)

unfoldable pub ping : Sdk → Result (Unit {0})
ping sdk = pinged sdk.chain_identifier

abbrev pub mint_labels : Labels
mint_labels = record {
  prepare_failed = "moveCall";
  execute_failed = "signAndExecute";
  gave_up = "mint batch failed after 5 attempts";
}

abbrev pub transfer_labels : Labels
transfer_labels = record {
  prepare_failed = "transferObject";
  execute_failed = "signAndExecute transfer";
  gave_up = "custody transfer failed after 5 attempts";
}

abbrev pub refused : String → Logged String
refused text t = (err (message text), t)

module _ (sdk : Sdk) (ctx : Context) (c : Client) where
  abbrev pub mint_request :
      String → List String → String → List String → List String → MoveCallRequest
  mint_request sui_address ride_ids date names metadata_urls = record {
    signer = c.signer.address;
    package_object_id = c.package_id;
    module_name = "attendance";
    function = "mint_batch";
    arguments =
        plain c.mint_cap_id
        ∷ plain sui_address
        ∷ vector (encode_bytes_vec ride_ids)
        ∷ plain (to_date_hex date)
        ∷ vector (encode_bytes_vec names)
        ∷ vector (encode_bytes_vec metadata_urls)
        ∷ [];
    gas_budget = c.gas_budget;
  }

  abbrev pub submit_mint : String → List String → String → List String → List String → Logged String
  submit_mint sui_address [] date names metadata_urls = refused "no ride_ids to mint"
  submit_mint sui_address (r ∷ rs) date names metadata_urls =
      attempts ctx mint_labels
        (sdk.move_call (mint_request sui_address (r ∷ rs) date names metadata_urls))
        (sdk.sign_and_execute c.signer.key) 5 0

  unfoldable pub mint_batch_attendance :
      String → List String → String → List String → List String → Logged String
  mint_batch_attendance sui_address ride_ids date names metadata_urls =
      if str_eq c.package_id ""
      then refused "SUI_PACKAGE_ID not configured"
      else if str_eq c.mint_cap_id ""
      then refused "SUI_MINTCAP_ID not configured"
      else submit_mint sui_address ride_ids date names metadata_urls

  abbrev pub transfer_request : String → String → TransferObjectRequest
  transfer_request nft_object_id to_address = record {
    signer = c.signer.address;
    object_id = nft_object_id;
    recipient = to_address;
    gas_budget = c.gas_budget;
  }

  unfoldable pub transfer_nft : String → String → Logged String
  transfer_nft nft_object_id to_address =
      if str_eq nft_object_id "" || str_eq to_address ""
      then refused "nft_object_id and to_address required for custody transfer"
      else attempts ctx transfer_labels
          (sdk.transfer_object (transfer_request nft_object_id to_address))
          (sdk.sign_and_execute c.signer.key) 5 0
