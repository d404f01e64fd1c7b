-- ===== src/Examples/SuiRuns.antt =====
-- Runs of the client of the chain: the first two attempts are throttled, the third is answered.
use theme_park_nftengine.Prelude.{
  ℕ, zero, suc, ◌≡◌, refl, String, true, false, not, none, some, [], ◌∷◌, arith, str_eq, ◌↔◌, ◌&&◌,
  count_where,
}
use theme_park_nftengine.Errors.{Error, message, driver}
use theme_park_nftengine.World.{Result, ok, err}
use theme_park_nftengine.Redis.Commands.{contains}
use theme_park_nftengine.Sui.Client.{Client, Sdk, mint_batch_attendance, mint_request, transfer_nft}
use theme_park_nftengine.Sui.Retry.{Context, Executed, is_throttled}
use theme_park_nftengine.Sui.Bounds.{Bounded, transactions-Bounded}
use theme_park_nftengine.Sui.Answers.{Answer}
use theme_park_nftengine.Sui.Mints.{IsPatient, mint_answers}
use theme_park_nftengine.Sui.Reader.{
  Queries, ObjectChange, TransactionBlock, TxStatus, Page, transfer_sui_probe, transaction_status,
  is_created, nft_struct_type, owned_nfts, parse_nfts,
}
use theme_park_nftengine.Sui.Queries.{AreDistinct, owns_created, transaction_status_lem}
use theme_park_nftengine.Sui.Pages.{last, all_objects, owned_nfts_all}

abbrev throttled : Error
throttled = driver "429 Too Many Requests"

abbrev third : ℕ → Result String
third zero = err throttled
third (suc zero) = err throttled
third _ = ok "tx"

abbrev sdk : Sdk
sdk = record {
  chain_identifier = ok "4c78adac";
  move_call = λ req n. third n;
  transfer_object = λ req n. third n;
  transfer_sui = λ req n. third n;
  sign_and_execute = λ key meta n. ok (record { digest = "0xd"; status = "success" });
}

abbrev patient : Context
patient = record { gets = λ _ _. true; sleeps = λ _. true; error = message "context canceled" }

abbrev client : Client
client = record {
  rpc_url = "";
  package_id = "0x1";
  mint_cap_id = "0x2";
  signer = record { key = []; address = "0x3" };
  gas_budget = "100000000";
  concurrency = 5;
}

abbrev created : ObjectChange
created = record {
  type = "created";
  object_type = "0x1::attendance::AttendanceNFT";
  address_owner = "0x7";
}

abbrev block : TransactionBlock
block = record { status = "success"; error = ""; object_changes = created ∷ created ∷ [] }

abbrev page : Page
page = record { objects = []; has_next_page = false; next_cursor = "" }

abbrev queries : Queries
queries = record {
  get_coins = λ _. ok ("0xc" ∷ []);
  get_transaction_block = λ _. ok block;
  get_owned_objects = λ _ _. ok page;
  get_balance = λ _. ok "1";
}

transactions-Bounded_example :
    Bounded
      (mint_batch_attendance sdk patient client "0x7"
        ("r" ∷ [])
        "2024-02-29"
        ("R" ∷ [])
        ("u" ∷ [])
        []).1
    × Bounded (transfer_nft sdk patient client "0x9" "0x7" []).1
    × Bounded (transfer_sui_probe sdk patient queries client "0x7" "" []).1
transactions-Bounded_example =
    transactions-Bounded sdk patient queries client "0x7" "2024-02-29" "0x9" "0x7" "" ("r" ∷ [])
      ("R" ∷ []) ("u" ∷ [])

-- Two sleeps before the digest.
mint_runs :
    (mint_batch_attendance sdk patient client "0x7"
      ("r" ∷ [])
      "2024-02-29"
      ("R" ∷ [])
      ("u" ∷ [])
      []).0
    ≡ ok "0xd"
unfolding mint_batch_attendance theme_park_nftengine.Sui.Retry.attempts
    theme_park_nftengine.Sui.Retry.failed is_throttled theme_park_nftengine.Errors.error_text
mint_runs = refl

patient-IsPatient : IsPatient patient
patient-IsPatient = record { gets = λ _ _. refl; sleeps = λ _. refl }

mint_answers_example :
    ((mint_batch_attendance sdk patient client "0x7"
        ("r" ∷ [])
        "2024-02-29"
        ("R" ∷ [])
        ("u" ∷ [])
        []).0
      ≡ ok "0xd")
    ↔ Answer
        (sdk.move_call
          (mint_request sdk patient client "0x7" ("r" ∷ []) "2024-02-29" ("R" ∷ []) ("u" ∷ [])))
        (sdk.sign_and_execute client.signer.key)
        5
        0
        "0xd"
mint_answers_example =
    mint_answers sdk patient client "0x7" "r" "2024-02-29" "0xd" [] ("R" ∷ []) ("u" ∷ []) []
      patient-IsPatient refl refl

transaction_status_lem_example :
    (ts : TxStatus) × (transaction_status queries client "0xd" ≡ ok ts)
    × (ts.count_nfts_created
        ≡ count_where (is_created (nft_struct_type client)) block.object_changes)
    × AreDistinct ts.recipients
    × ((x : String)
        → contains x ts.recipients
          ≡ (not (str_eq x "") && owns_created (nft_struct_type client) x block.object_changes))
transaction_status_lem_example = transaction_status_lem queries client "0xd" block refl

owned_nfts_all_example :
    owned_nfts queries client 3 "0x7"
    ≡ some (ok (parse_nfts (nft_struct_type client) (all_objects (page ∷ []))))
owned_nfts_all_example =
    owned_nfts_all queries client "0x7" (page ∷ []) 3 (last none page refl refl) (omega arith)
