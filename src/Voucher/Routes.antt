-- ===== src/Voucher/Routes.antt =====
-- cmd/voucher/main.go: the handlers of the voucher service's routes. `http.Error` ends a text with a
-- line break, which is left out here.
use Prim.Native.String.{◌++◌ as str_append}
use theme_park_nftengine.Prelude.{ℕ, String, Option, none, some, List, if◌then◌else◌, str_eq, ◌||◌}
use theme_park_nftengine.Models.{
  DelegateRequest, DelegateResponse, RecordPendingMintRequest, Participant,
}
use theme_park_nftengine.Errors.{
  Error, error_text, is_voucher, invalid_delegation, participant_not_found, voucher_allocated,
}
use theme_park_nftengine.World.{Result, ok, err, M, reads, pure, catch, ◌>>=◌}
use theme_park_nftengine.Http.{HttpRequest, HttpResponse, reply, failure, respond, with_body, post}
use theme_park_nftengine.Postgres.Accounts.{create_user}
use theme_park_nftengine.Postgres.Mints.{create_vouchers, claim_voucher}
use theme_park_nftengine.Voucher.Link.{Jwt, ahead, a_day, sign_magic_link, verify_magic_link}
use theme_park_nftengine.Voucher.Service.{delegate, record_pending_mint, claim_custody}

-- The body of `/api/vouchers/purchase`; a quantity of 0 stands for a negative one too.
pub record PurchaseRequest : Type 0 where
  pub purchaser_email : String
  pub quantity : ℕ

-- The body of `/api/mint/claim-custody`.
pub record ClaimCustodyRequest : Type 0 where
  pub participant_id : ℕ
  pub own_wallet : String

-- `http.Error(w, err.Error(), code)`.
abbrev pub failing : {A : Type 0} → ℕ → Error → HttpResponse A
failing code e = failure code (error_text e)

abbrev pub purchased : List String × Option Error → HttpResponse (List String)
purchased (ids, none) = reply 200 ids
purchased (ids, some e) = failing 500 e

abbrev pub purchase : PurchaseRequest → M (HttpResponse (List String))
purchase req =
    catch (create_user req.purchaser_email)
      (λ user. respond (create_vouchers user.id req.quantity) purchased (failing 500))
      (λ e. pure (failing 500 e))

-- `/api/vouchers/purchase`
unfoldable pub serve_purchase : HttpRequest PurchaseRequest → M (HttpResponse (List String))
serve_purchase r = post r purchase

abbrev pub magic_link : Result String → HttpResponse String
magic_link (ok token) = reply 200 (str_append "https://themepark.app/claim?token=" token)
magic_link (err _) = failure 500 "link signing failed"

abbrev pub claim_for : String → String → M (HttpResponse String)
claim_for voucher_id email =
    if str_eq email ""
    then pure (failure 400 "email required")
    else catch (create_user email)
        (λ user. respond (claim_voucher voucher_id user.id) (λ _. reply 200 email) (failing 409))
        (λ e. pure (failing 500 e))

abbrev pub claim_with : String → Result String → M (HttpResponse String)
claim_with email (ok voucher_id) = claim_for voucher_id email
claim_with email (err _) = pure (failure 401 "invalid or expired magic link")

module _ (jwt : Jwt) (secret : String) where
  -- `/api/vouchers/share`, under any method: a voucher's id as the body.
  unfoldable pub serve_share : HttpRequest String → M (HttpResponse String)
  serve_share r = with_body r.body λ voucher_id.
      reads (λ s. magic_link (sign_magic_link jwt secret voucher_id (ahead a_day) s.now))

  -- `/api/vouchers/claim?token=…&email=…`, under any method.
  unfoldable pub serve_claim : String → String → M (HttpResponse String)
  serve_claim token email = do
    voucher ← reads (λ s. verify_magic_link jwt secret token s.now)
    claim_with email voucher

unfoldable pub delegate_failed : Error → HttpResponse DelegateResponse
delegate_failed e =
    if is_voucher invalid_delegation e || is_voucher participant_not_found e
    then failing 400 e
    else if is_voucher voucher_allocated e
    then failing 409 e
    else failing 500 e

-- `/api/vouchers/delegate`
unfoldable pub serve_delegate : HttpRequest DelegateRequest → M (HttpResponse DelegateResponse)
serve_delegate r = post r λ req. respond (delegate req) (reply 200) delegate_failed

-- `/api/vouchers/pending`
unfoldable pub serve_pending : HttpRequest RecordPendingMintRequest → M (HttpResponse String)
serve_pending r =
    post r λ req. respond (record_pending_mint req) (λ _. reply 201 "recorded") (failing 500)

-- `/api/mint/claim-custody`
unfoldable pub serve_claim_custody :
    HttpRequest ClaimCustodyRequest → M (HttpResponse (Option Participant))
serve_claim_custody r =
    post r
      λ req. respond (claim_custody req.participant_id req.own_wallet) (reply 200) (failing 400)
