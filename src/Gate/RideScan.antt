-- ===== src/Gate/RideScan.antt =====
-- internal/gate/ride_scan.go: the wristband scans at the rides.
use theme_park_nftengine.Prelude.{String, Bool, ℕ, if◌then◌else◌, [], ◌∷◌, ◌++◌}
use theme_park_nftengine.Models.{WristbandBinding, BindingStatus, binding, bound, ScanEvent}
use theme_park_nftengine.Errors.{gate_error, not_bound}
use theme_park_nftengine.World.{
  State, Result, ok, M, Backend, call, reads, pure, raise, ◌>>=◌, ◌>>◌, wrapping, best_effort,
}
use theme_park_nftengine.Redis.Client.{get_binding}
use theme_park_nftengine.Gate.Tickets.{redeem}
use theme_park_nftengine.Gate.Binding.{or_no_binding}

pub record RideScanResponse : Type 0 where
  pub trace_id : String
  pub ride_id : String
  pub status : String

-- A message at the end of the `ride-scans` topic.
unfoldable pub append_event : ScanEvent → State → Result (Unit {0}) × State
append_event e s =
    (ok tt, record s { topics = record s.topics { ride_scans = s.topics.ride_scans ++ e ∷ [] } })

unfoldable pub publish_scan_event : ScanEvent → M (Unit {0})
publish_scan_event e = call Backend.kafka (append_event e)

abbrev pub require_bound : BindingStatus → M (Unit {0})
require_bound bound = pure tt
require_bound binding = raise (gate_error not_bound)

-- `has_db` is false for a service without a database.
unfoldable pub mark_ticket_used : Bool → String → M (Unit {0})
mark_ticket_used has_db ticket_id =
    if has_db
    then wrapping "mark ticket used" (call Backend.postgres (redeem ticket_id))
    else pure tt

abbrev pub event_of : WristbandBinding → String → String → ℕ → ScanEvent
event_of b ride_id trace_id now = record {
  user_id = b.user_email;
  ride_id = ride_id;
  timestamp = now;
  trace_id = trace_id;
  ticket_id = b.ticket_id;
}

-- A scan at a ride, under a fresh trace id.
unfoldable pub scan : Bool → String → String → String → M RideScanResponse
scan has_db trace_id uid ride_id = do
  found ← wrapping "get binding" (get_binding uid)
  b ← or_no_binding found
  require_bound b.status
  now ← reads (λ s. s.now)
  wrapping "publish ride scan" (publish_scan_event (event_of b ride_id trace_id now))
  best_effort (mark_ticket_used has_db b.ticket_id)
  pure (record { trace_id = trace_id; ride_id = ride_id; status = "recorded" })
