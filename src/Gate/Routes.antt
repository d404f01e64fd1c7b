-- ===== src/Gate/Routes.antt =====
-- cmd/gate/main.go: the handlers of the gate's routes.
use theme_park_nftengine.Prelude.{String, Bool, Option, if◌then◌else◌, str_eq}
use theme_park_nftengine.Errors.{
  Error, is_gate, qr_invalid, qr_replay, ticket_invalid, no_binding, not_bound, already_bound,
}
use theme_park_nftengine.Config.{RedisConfig, GateConfig}
use theme_park_nftengine.World.{M, reads, pure}
use theme_park_nftengine.Http.{
  HttpRequest, HttpResponse, reply, failure, not_allowed, respond, post,
}
use theme_park_nftengine.Gate.Qr.{QrToken, generate_qr_otp}
use theme_park_nftengine.Gate.Binding.{BindRequest, WristbandResponse, bind, nfc_check, reset}
use theme_park_nftengine.Gate.RideScan.{RideScanResponse, scan}

-- The body of `/api/rides/scan`.
pub record RideScanRequest : Type 0 where
  pub wristband_uid : String
  pub ride_id : String

unfoldable pub bind_failed : Error → HttpResponse WristbandResponse
bind_failed e =
    if is_gate qr_invalid e
    then failure 400 "invalid or expired QR"
    else if is_gate qr_replay e
    then failure 409 "QR already used (replay rejected)"
    else if is_gate ticket_invalid e
    then failure 404 "ticket not found or not bindable"
    else if is_gate already_bound e
    then failure 409 "wristband or ticket already bound"
    else failure 500 "internal error"

-- The answer of the routes that fail for want of a binding.
unfoldable pub wristband_failed : Error → HttpResponse WristbandResponse
wristband_failed e =
    if is_gate no_binding e then failure 404 "wristband not bound" else failure 500 "internal error"

unfoldable pub scan_failed : Error → HttpResponse RideScanResponse
scan_failed e =
    if is_gate no_binding e
    then failure 404 "wristband not bound"
    else if is_gate not_bound e
    then failure 403 "wristband not BOUND (active)"
    else failure 500 "internal error"

module _ (hmac : String → String → String) where
  -- `/api/wristband/scan-visitor-qr-token`, with the fresh uuid of the token.
  unfoldable pub serve_qr_token : GateConfig → String → String → String → M (HttpResponse QrToken)
  serve_qr_token cfg uuid method ticket_id =
      if str_eq method "GET"
      then (if str_eq ticket_id ""
          then pure (failure 400 "ticket_id query param required")
          else reads (λ s. reply 200 (generate_qr_otp hmac cfg s.now uuid ticket_id)))
      else pure not_allowed

  -- `/api/wristband/bind`
  unfoldable pub serve_bind :
      GateConfig → RedisConfig → HttpRequest BindRequest → M (HttpResponse WristbandResponse)
  serve_bind gate cfg r = post r λ req. respond (bind hmac gate cfg req) (reply 200) bind_failed

module _ (check : String → Option Error) where
  -- `/api/wristband/nfc-check`
  unfoldable pub serve_nfc_check :
      RedisConfig → HttpRequest String → M (HttpResponse WristbandResponse)
  serve_nfc_check cfg r =
      post r λ uid. respond (nfc_check check cfg uid) (reply 200) wristband_failed

-- `/api/wristband/reset`
unfoldable pub serve_reset : HttpRequest String → M (HttpResponse WristbandResponse)
serve_reset r = post r λ uid. respond (reset uid) (reply 200) wristband_failed

-- `/api/rides/scan`, with the fresh trace id of the event.
unfoldable pub serve_scan :
    Bool → String → HttpRequest RideScanRequest → M (HttpResponse RideScanResponse)
serve_scan has_db trace_id r =
    post r
      λ req. respond (scan has_db trace_id req.wristband_uid req.ride_id) (reply 200) scan_failed
