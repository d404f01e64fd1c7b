-- ===== src/Minter/Routes.antt =====
-- cmd/minter/main.go: the handlers of the minter's routes. The token reader, the hashes of the wallets,
-- the metadata of a ride, and the digests of the chain are parameters. Ids below 0 are left out: no
-- participant has one.
use Prim.Native.String.{◌++◌}
use theme_park_nftengine.Prelude.{
  ℕ, String, Bool, true, false, not, Option, none, some, List, [], ◌∷◌, ◌==◌, ◌&&◌, ◌||◌, str_eq,
  if◌then◌else◌,
}
use theme_park_nftengine.Models.{Participant}
use theme_park_nftengine.Errors.{Error, error_text, message}
use theme_park_nftengine.Text.{itoa}
use theme_park_nftengine.World.{
  State, MintTx, Transfer, Result, ok, err, M, Backend, call, reads, pure, raise, catch, ◌>>=◌,
}
use theme_park_nftengine.Http.{
  HttpRequest, HttpResponse, reply, failure, not_allowed, respond, with_body, post,
}
use theme_park_nftengine.Auth.{TokenReader, GooglePayload, verify_token}
use theme_park_nftengine.Sui.Wallet.{Crypto, Signer, deterministic_wallet}
use theme_park_nftengine.Postgres.Accounts.{create_user, update_sui_account}
use theme_park_nftengine.Voucher.Routes.{failing}
use theme_park_nftengine.Voucher.Service.{claim_custody}
use theme_park_nftengine.Minter.Resolver.{Outcome, pending, mint_ready, Resolution, resolve_day}
use theme_park_nftengine.Minter.Batch.{MintLive, MintResult, run}

pub record GoogleLogin : Type 0 where
  pub user_id : String
  pub email : String
  pub sui_address : String

pub record DayResolutions : Type 0 where
  pub date : String
  pub resolutions : List Resolution

pub record DayRun : Type 0 where
  pub date : String
  pub results : List MintResult
  pub details : List Resolution

pub record CustodyRequest : Type 0 where
  pub participant_id : ℕ
  pub own_wallet : String
  pub nft_object_ids : List String

pub record CustodyTransfer : Type 0 where
  pub participant_id : ℕ
  pub own_wallet : Option String
  pub tx_digests : List String
  pub status : String

-- The secret of the deterministic wallets.
abbrev pub wallet_secret : String → String → String
wallet_secret secret encryption_key = if str_eq secret "" then encryption_key else secret

module _ (reader : TokenReader) (client_id : String) (crypto : Crypto)
    (secret encryption_key : String) where
  abbrev pub provision : String → Result Signer → M (HttpResponse GoogleLogin)
  provision email (err e) = pure (failure 500 ("wallet derivation failed: " ++ error_text e))
  provision email (ok signer) =
      catch (create_user email)
        (λ user.
          respond (update_sui_account user.id signer.address "" "")
            (λ _.
              reply 200
                (record { user_id = itoa user.id; email = email; sui_address = signer.address }))
            (failing 500))
        (λ e. pure (failing 500 e))

  abbrev pub log_in : Result GooglePayload → M (HttpResponse GoogleLogin)
  log_in (err e) = pure (failure 401 ("google token invalid: " ++ error_text e))
  log_in (ok p) =
      if str_eq p.email ""
      then pure (failure 401 "google token missing email claim")
      else provision p.email
          (deterministic_wallet crypto p.email (wallet_secret secret encryption_key))

  -- `/api/auth/google`: a token as the body.
  unfoldable pub serve_google : HttpRequest String → M (HttpResponse GoogleLogin)
  serve_google r = post r λ token. reads (λ s. verify_token reader client_id s.now token) >>= log_in

abbrev pub dated : {A : Type 0} → (String → M (HttpResponse A)) → String → M (HttpResponse A)
dated serve date =
    if str_eq date "" then pure (failure 400 "date required (YYYY-MM-DD)") else serve date

abbrev pub day_failed : {A : Type 0} → Error → HttpResponse A
day_failed e = failure 500 ("resolve-day failed: " ++ error_text e)

-- A pass that an error ended is a failure too.
abbrev pub unless_failed :
    {A : Type 0}
    → (List Resolution → M (HttpResponse A))
    → List Resolution × Option Error
    → M (HttpResponse A)
unless_failed serve (rs, none) = serve rs
unless_failed serve (rs, some e) = pure (day_failed e)

abbrev pub with_day :
    {A : Type 0} → String → (List Resolution → M (HttpResponse A)) → M (HttpResponse A)
with_day date serve = catch (resolve_day date) (unless_failed serve) (λ e. pure (day_failed e))

-- `/mint/resolve-day`: a date as the body.
unfoldable pub serve_resolve_day : HttpRequest String → M (HttpResponse DayResolutions)
serve_resolve_day r =
    post r (
      dated λ date. with_day date λ rs. pure (reply 200 (record { date = date; resolutions = rs })))

-- A handler that needs the client of the chain.
unfoldable pub post_to_sui :
    {A B : Type 0} → Bool → HttpRequest A → (A → M (HttpResponse B)) → M (HttpResponse B)
post_to_sui has_sui r serve =
    if str_eq r.method "POST"
    then if has_sui
      then with_body r.body serve
      else pure (failure 503 "sui client not initialized (check SUI_GAS_POOL_MNEMONIC)")
    else pure not_allowed

abbrev pub is_ready : Outcome → Bool
is_ready mint_ready = true
is_ready pending = false

abbrev pub live_of : String → Resolution → MintLive
live_of date r = record {
  participant_id = r.participant_id;
  wallet_address = r.wallet_address;
  ride_ids = r.ride_ids;
  date = date;
}

-- The loop that builds the live set.
unfoldable pub lives_of : String → List Resolution → List MintLive
lives_of date [] = []
lives_of date (r ∷ rs) =
    let rest = lives_of date rs in
    if is_ready r.outcome && not (str_eq r.wallet_address "") then live_of date r ∷ rest else rest

module _ (get_or_pin : String → String → M String) (digest_of : List MintTx → MintTx → String) where
  abbrev pub mint_day : String → List Resolution → M (HttpResponse DayRun)
  mint_day date rs = run get_or_pin digest_of (lives_of date rs) >>= λ results.
      pure (reply 200 (record { date = date; results = results; details = rs }))

  -- `/mint/run-day`: a date as the body.
  unfoldable pub serve_run_day : Bool → HttpRequest String → M (HttpResponse DayRun)
  serve_run_day has_sui r = post_to_sui has_sui r (dated λ date. with_day date (mint_day date))

abbrev pub is_complete : CustodyRequest → Bool
is_complete req = not (
    req.participant_id == 0
    || (str_eq req.own_wallet "" || elim req.nft_object_ids [ [] ↦ true | _ ∷ _ ↦ false ]))

abbrev pub transferred : List String → Option Participant → M (HttpResponse CustodyTransfer)
-- The handler panics, which ends the connection without an answer.
transferred digests none = raise (message "nil pointer dereference")
transferred digests (some p) = pure (
    reply 200 (record {
      participant_id = p.id;
      own_wallet = p.custodial_wallet_address;
      tx_digests = digests;
      status = "transferred";
    }))

abbrev pub update_custody : CustodyRequest → List String → M (HttpResponse CustodyTransfer)
update_custody req digests =
    catch (claim_custody req.participant_id req.own_wallet) (transferred digests)
      (λ e. pure (failure 500 ("claim-custody state update failed: " ++ error_text e)))

abbrev pub transfer_failed : String → Error → Error
transfer_failed object e =
    message ("custody transfer of " ++ (object ++ (" failed: " ++ error_text e)))

module _ (digest_of : List Transfer → Transfer → String) where
  unfoldable pub take_transfer : Transfer → State → Result String × State
  take_transfer t s = (ok (digest_of s.transfers t), record s { transfers = t ∷ s.transfers })

  -- `TransferNFT`: the client refuses an empty object or address; the chain takes the transaction.
  unfoldable pub transfer : Transfer → M String
  transfer t =
      if str_eq t.object "" || str_eq t.recipient ""
      then raise (message "nft_object_id and to_address required for custody transfer")
      else call Backend.sui (take_transfer t)

  -- The digests of the transfers, up to the first that fails.
  unfoldable pub transfer_all : String → List String → M (List String)
  transfer_all wallet [] = pure []
  transfer_all wallet (object ∷ objects) =
      catch (transfer (record { object = object; recipient = wallet }))
        (λ d. transfer_all wallet objects >>= λ ds. pure (d ∷ ds))
        (λ e. raise (transfer_failed object e))

  abbrev pub move_custody : CustodyRequest → M (HttpResponse CustodyTransfer)
  move_custody req =
      if is_complete req
      then catch (transfer_all req.own_wallet req.nft_object_ids) (update_custody req)
          (λ e. pure (failing 500 e))
      else pure (failure 400 "participant_id, own_wallet, nft_object_ids required")

  -- `/mint/claim-custody`
  unfoldable pub serve_custody :
      Bool → HttpRequest CustodyRequest → M (HttpResponse CustodyTransfer)
  serve_custody has_sui r = post_to_sui has_sui r move_custody
