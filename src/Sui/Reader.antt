-- ===== src/Sui/Reader.antt =====
-- internal/sui/reader.go: the probe and the queries of the chain. The JSON of an owner is kept decoded.
use Prim.Native.String.{◌++◌ as str_append}
use theme_park_nftengine.Prelude.{
  ℕ, zero, suc, ◌+◌, String, Bool, Option, none, some, List, [], ◌∷◌, ◌++◌, if◌then◌else◌, str_eq,
  ◌&&◌, ◌||◌,
}
use theme_park_nftengine.Errors.{wrap}
use theme_park_nftengine.World.{Result, ok, err}
use theme_park_nftengine.Redis.Commands.{contains}
use theme_park_nftengine.Sui.Retry.{Logged, Context, Labels, attempts}
use theme_park_nftengine.Sui.Client.{Client, Sdk, TransferSuiRequest, refused}

pub record NftInfo : Type 0 where
  pub object_id : String
  pub type : String
  pub owner : String
  pub version : String

pub record TxStatus : Type 0 where
  pub digest : String
  pub status : String
  pub error : String
  pub count_nfts_created : ℕ
  pub recipients : List String

-- The type of the attendance tokens of a package.
unfoldable pub nft_struct_type : Client → String
nft_struct_type c = str_append c.package_id "::attendance::AttendanceNFT"

abbrev pub probe_labels : Labels
probe_labels = record {
  prepare_failed = "transferSui";
  execute_failed = "signAndExecute probe";
  gave_up = "probe transfer failed after 5 attempts";
}

-- A change of a transaction, with its address owner where it has one.
pub record ObjectChange : Type 0 where
  pub type : String
  pub object_type : String
  pub address_owner : String

pub record TransactionBlock : Type 0 where
  pub status : String
  pub error : String
  pub object_changes : List ObjectChange

-- An owner that decodes has an address, an object, or neither.
pub record ObjectOwner : Type 0 where
  pub address_owner : String
  pub object_owner : String

pub record ObjectData : Type 0 where
  pub object_id : String
  pub type : String
  pub version : String
  pub owner : Option ObjectOwner

pub record Page : Type 0 where
  pub objects : List (Option ObjectData)
  pub has_next_page : Bool
  pub next_cursor : String

-- What the SDK answers to the queries: the ids of coins of an owner, a transaction, a page of the objects
-- of an address, and a balance.
pub record Queries : Type 0 where
  pub get_coins : String → Result (List String)
  pub get_transaction_block : String → Result TransactionBlock
  pub get_owned_objects : String → Option String → Result Page
  pub get_balance : String → Result String

abbrev pub or_default : String → String
or_default amount_mist = if str_eq amount_mist "" then "1000000" else amount_mist

module _ (sdk : Sdk) (ctx : Context) (q : Queries) (c : Client) where
  abbrev pub probe_request : String → String → String → TransferSuiRequest
  probe_request coin recipient amount_mist = record {
    signer = c.signer.address;
    sui_object_id = coin;
    gas_budget = c.gas_budget;
    recipient = recipient;
    amount = amount_mist;
  }

  abbrev pub probe_with : String → String → Result (List String) → Logged String
  probe_with recipient amount_mist (err e) t = (err (wrap "get gas-pool coin" e), t)
  probe_with recipient amount_mist (ok []) t = refused "gas pool has no SUI coin to transfer" t
  probe_with recipient amount_mist (ok (coin ∷ _)) t =
      attempts ctx probe_labels (sdk.transfer_sui (probe_request coin recipient amount_mist))
        (sdk.sign_and_execute c.signer.key) 5 0 t

  unfoldable pub transfer_sui_probe : String → String → Logged String
  transfer_sui_probe recipient amount_mist =
      if str_eq recipient ""
      then refused "recipient address required for probe transfer"
      else probe_with recipient (or_default amount_mist) (q.get_coins c.signer.address)

abbrev pub is_created : String → ObjectChange → Bool
is_created nft_type change = str_eq change.type "created" && str_eq change.object_type nft_type

-- The owners behind those that were seen.
unfoldable pub new_recipient : String → List String → List String
new_recipient owner recipients =
    if str_eq owner "" || contains owner recipients then recipients else recipients ++ owner ∷ []

-- The count and the recipients after the changes, from those before.
unfoldable pub resolve_changes : String → List ObjectChange → ℕ × List String → ℕ × List String
resolve_changes nft_type [] seen = seen
resolve_changes nft_type (change ∷ changes) seen =
    if is_created nft_type change
    then resolve_changes nft_type changes (seen.0 + 1, new_recipient change.address_owner seen.1)
    else resolve_changes nft_type changes seen

abbrev pub status_of : String → String → Result TransactionBlock → Result TxStatus
status_of nft_type digest (err e) = err (wrap (str_append "get transaction block " digest) e)
status_of nft_type digest (ok block) =
    let seen = resolve_changes nft_type block.object_changes (0, []) in
    ok (record {
      digest = digest;
      status = block.status;
      error = block.error;
      count_nfts_created = seen.0;
      recipients = seen.1;
    })

abbrev pub owner_text : Option ObjectOwner → String
owner_text none = ""
owner_text (some o) = if str_eq o.address_owner "" then o.object_owner else o.address_owner

abbrev pub info_of : ObjectData → NftInfo
info_of d = record {
  object_id = d.object_id;
  type = d.type;
  owner = owner_text d.owner;
  version = d.version;
}

abbrev pub info_or : String → Option ObjectData → List NftInfo → List NftInfo
info_or nft_type none rest = rest
info_or nft_type (some d) rest = if str_eq d.type nft_type then info_of d ∷ rest else rest

unfoldable pub parse_nfts : String → List (Option ObjectData) → List NftInfo
parse_nfts nft_type [] = []
parse_nfts nft_type (o ∷ os) = info_or nft_type o (parse_nfts nft_type os)

module _ (q : Queries) (c : Client) where
  unfoldable pub transaction_status : String → Result TxStatus
  transaction_status digest = status_of (nft_struct_type c) digest (q.get_transaction_block digest)

  abbrev pub after_page :
      String
      → (Option String → List NftInfo → Option (Result (List NftInfo)))
      → List NftInfo
      → Result Page
      → Option (Result (List NftInfo))
  after_page address next out (err e) =
      some (err (wrap (str_append "get owned objects for " address) e))
  after_page address next out (ok page) =
      let found = out ++ parse_nfts (nft_struct_type c) page.objects in
      if page.has_next_page then next (some page.next_cursor) found else some (ok found)

  -- The loop over the pages, `none` where the fuel does not reach the last.
  unfoldable pub pages_from :
      ℕ → String → Option String → List NftInfo → Option (Result (List NftInfo))
  pages_from zero address cursor out = none
  pages_from (suc fuel) address cursor out =
      after_page address (pages_from fuel address) out (q.get_owned_objects address cursor)

  abbrev pub owned_nfts : ℕ → String → Option (Result (List NftInfo))
  owned_nfts fuel address = pages_from fuel address none []

  abbrev pub balance_of : Result String → Result String
  balance_of (ok total) = ok total
  balance_of (err e) = err (wrap "get gas-pool balance" e)

  unfoldable pub balance_mist : Result String
  balance_mist = balance_of (q.get_balance c.signer.address)
