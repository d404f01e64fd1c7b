-- ===== src/Examples/GateRuns.antt =====
-- Runs of the gate.
use theme_park_nftengine.Prelude.{
  ℕ, ◌≡◌, ◌≢◌, ◌<◌, refl, ◌*◌, ◌+◌, String, Bool, true, false, Option, none, some, List, [], ◌∷◌,
  arith, str_eq,
}
use theme_park_nftengine.Models.{WristbandBinding, binding, bound}
use theme_park_nftengine.Keyspace.{
  Keyspace, empty, assign, peek, plain, binding_json, decision_json, NfcDecision,
}
use theme_park_nftengine.Keyspace.Keys.{key_name, bind_wristband, bind_ticket, gracewb, qr}
use theme_park_nftengine.World.{World, calm, ok, call, ◌>>=◌, catch}
use theme_park_nftengine.Redis.Commands.{
  get, set_nx, bind_script, get_key, delete_binding_script, del_key,
}
use theme_park_nftengine.Redis.Keeps.{HasLinks, wristbands}
use theme_park_nftengine.Redis.Methods.{Held}
use theme_park_nftengine.Redis.Client.{
  mark_qr_used, bind_wristband_to, get_binding, delete_binding, clear_wristband_grace,
  binding_expiry, get_wristband_grace, set_binding_status, write_status,
}
use theme_park_nftengine.Gate.Qr.{verify_qr_otp, payload, is_stale, age_of}
use theme_park_nftengine.Gate.Tickets.{
  ticket_owner_email, select_owner, owner_email, set_ticket_status, update_status,
}
use theme_park_nftengine.Gate.Binding.{
  BindRequest, WristbandResponse, bind, token_of, link, reset, nfc_check, replayed,
}
use theme_park_nftengine.Gate.RideScan.{scan}
use theme_park_nftengine.Gate.History.{advance, history, step, waits, binds}
use theme_park_nftengine.Gate.Overlap.{
  Event, serves, sends, to_bind, to_set_status, send, happen, overlapped, overlapped-HasLinks,
  overlapped_one_wristband,
}
use theme_park_nftengine.Gate.Race.{overlap_forks_ticket}
use theme_park_nftengine.Gate.Replay.{binding_of, bind_once, future_token_outlives_mark}
use theme_park_nftengine.Gate.Scans.{Outcome, scan-Outcome}
use theme_park_nftengine.Gate.Denied.{cached_decision_replays}
use theme_park_nftengine.Gate.Unlinks.{Unlinked, reset_unlinks}
use theme_park_nftengine.Gate.Links.{LinkedTo, bind_links}
use theme_park_nftengine.Examples.Fixtures.{gate, world, world_with, request_with}

abbrev bound_response : WristbandResponse
bound_response = record {
  wristband_uid = "w1";
  ticket_id = "t1";
  status = "BINDING";
  user_email = "ana@park";
  allowed = none;
  reason = "";
  source = "";
}

abbrev after_bind : World
after_bind = (binding_of gate (request_with "w1") world).1

abbrev made : WristbandBinding
made = record {
  wristband_uid = "w1";
  ticket_id = "t1";
  user_email = "ana@park";
  status = binding;
  bound_at = 100;
}

bind_runs : (binding_of gate (request_with "w1") world).0 ≡ ok bound_response
unfolding history step bind verify_qr_otp payload ticket_owner_email select_owner mark_qr_used link
    bind_wristband_to set_ticket_status update_status ◌>>=◌ catch call set_nx bind_script is_stale
    age_of peek assign theme_park_nftengine.Text.itoa_64 owner_email
    theme_park_nftengine.Prelude.find_by key_name binding_expiry
bind_runs = refl

time_stands : (history gate [] after_bind).st.now ≡ 100000
unfolding history step bind verify_qr_otp payload ticket_owner_email select_owner mark_qr_used link
    bind_wristband_to set_ticket_status update_status ◌>>=◌ catch call set_nx bind_script is_stale
    age_of peek assign theme_park_nftengine.Text.itoa_64 owner_email
    theme_park_nftengine.Prelude.find_by key_name binding_expiry
time_stands = refl

bind_once_example :
    (binding_of gate (request_with "w2") (history gate [] after_bind)).0 ≢ ok bound_response
bind_once_example =
    bind_once gate (request_with "w1") (request_with "w2") bound_response bound_response [] world
      bind_runs refl refl (omega arith) (omega arith) (omega (arith, time_stands))

abbrev future_token : BindRequest
future_token = record {
  ticket_id = "t1";
  qr_uuid = "q1";
  qr_timestamp = 130;
  qr_signature = "t1|q1|130";
  wristband_uid = "w1";
}

signed : gate.hmac gate.settings.hmac_secret (payload "t1" "q1" 130) ≡ "t1|q1|130"
unfolding payload theme_park_nftengine.Text.itoa_64
signed = refl

abbrev marked_once : World
marked_once = (mark_qr_used gate.redis "q1" (calm world.st)).1

unused : get world.st (qr "q1") ≡ none
unfolding peek
unused = refl

future_token_outlives_mark_example :
    (verify_qr_otp gate.hmac gate.settings 100000 (token_of future_token) ≡ ok true)
    × ((mark_qr_used gate.redis "q1" (calm world.st)).0 ≡ ok true)
    × (verify_qr_otp gate.hmac gate.settings 160000 (token_of future_token) ≡ ok true)
    × ((mark_qr_used gate.redis "q1" (advance 60000 marked_once)).0 ≡ ok true)
future_token_outlives_mark_example =
    future_token_outlives_mark gate future_token 100 world.st signed refl (omega arith)
      (omega arith) refl unused

abbrev events : List Event
events =
    serves (binds (request_with "w1"))
    ∷ sends (to_set_status "w9" bound)
    ∷ sends (to_bind "w2" "t1" "bo@park")
    ∷ []

w1-Held : Held "w1" made (overlapped gate events world).st
unfolding overlapped happen send set_binding_status get_binding get_key step bind verify_qr_otp
    payload ticket_owner_email select_owner mark_qr_used link bind_wristband_to set_ticket_status
    update_status ◌>>=◌ catch call set_nx bind_script is_stale age_of peek assign
    theme_park_nftengine.Text.itoa_64 owner_email theme_park_nftengine.Prelude.find_by key_name
    binding_expiry
w1-Held = (record { value = binding_json made; expires = some 172799000 }, refl, refl)

overlapped-HasLinks_example : HasLinks (overlapped gate events world).st
overlapped-HasLinks_example = overlapped-HasLinks gate events world refl

overlapped_one_wristband_example : made.wristband_uid ≡ made.wristband_uid
overlapped_one_wristband_example =
    overlapped_one_wristband gate events world "w1" "w1" made made refl w1-Held w1-Held refl

bind_links_example :
    (verify_qr_otp gate.hmac gate.settings world.st.now (token_of (request_with "w1")) ≡ ok true)
    × Unlinked "w1" "t1" world.st
    × LinkedTo "w1" "t1" "ana@park" world.st.now after_bind.st
    × (bound_response.status ≡ "BINDING")
bind_links_example = bind_links gate (request_with "w1") world bound_response bind_runs

abbrev keys : Keyspace
keys =
    assign
      (assign
        (assign empty (bind_wristband "w1")
          (some (record { value = binding_json made; expires = some 900000 })))
        (bind_ticket "t1") (some (record { value = plain "w1"; expires = some 900000 })))
      (gracewb "w1")
      (some (record {
        value = decision_json (record { allowed = false; reason = "no" });
        expires = some 105000;
      }))

abbrev reset_response : WristbandResponse
reset_response = record {
  wristband_uid = "w1";
  ticket_id = "t1";
  status = "CLAIMED";
  user_email = "";
  allowed = none;
  reason = "";
  source = "";
}

w1_in_keys : Held "w1" made (world_with keys).st
unfolding peek assign key_name
w1_in_keys = (record { value = binding_json made; expires = some 900000 }, refl, refl)

w2_idle : wristbands (world_with keys).st "w2" ≡ none
unfolding peek assign key_name
w2_idle = refl

overlap_forks_ticket_example :
    let read = get_binding "w1" (calm (world_with keys).st) in
    let unlinked = delete_binding "w1" read.1 in
    let linked = bind_wristband_to "w2" "t1" "bo@park" unlinked.1 in
    let written = write_status "w1" bound (some made) linked.1 in
    (read.0 ≡ ok (some made))
    × (unlinked.0 ≡ ok tt)
    × (linked.0 ≡ ok tt)
    × (written.0 ≡ ok tt)
    × (wristbands written.1.st "w1"
        ≡ some (record { value = binding_json (record made { status = bound }); expires = none }))
    × LinkedTo "w2" "t1" "bo@park" 100000 written.1.st
overlap_forks_ticket_example =
    overlap_forks_ticket "w1" "w2" "bo@park" made (world_with keys).st w1_in_keys w2_idle

reset_runs : (reset "w1" (world_with keys)).0 ≡ ok reset_response
unfolding reset nfc_check get_binding get_wristband_grace delete_binding delete_binding_script
    clear_wristband_grace del_key get_key set_ticket_status update_status ◌>>=◌ catch call peek
    assign key_name
reset_runs = refl

reset_unlinks_example :
    Unlinked "w1" "t1" (reset "w1" (world_with keys)).1.st
    × (reset_response.ticket_id ≡ made.ticket_id)
    × (reset_response.status ≡ "CLAIMED")
reset_unlinks_example =
    reset_unlinks "w1" made (world_with keys) reset_response w1_in_keys reset_runs

abbrev denial : NfcDecision
denial = record { allowed = false; reason = "no" }

denial_cached :
    get (world_with keys).st (gracewb "w1")
    ≡ some (record { value = decision_json denial; expires = some 105000 })
unfolding peek assign key_name
denial_cached = refl

denial_runs :
    (nfc_check gate.check gate.redis "w1" (history gate (waits 1000 ∷ []) (world_with keys))).0
    ≡ ok (replayed "w1" denial)
unfolding reset nfc_check get_binding get_wristband_grace delete_binding delete_binding_script
    clear_wristband_grace del_key get_key set_ticket_status update_status ◌>>=◌ catch call peek
    assign key_name history step
denial_runs = refl

second_later : (history gate (waits 1000 ∷ []) (world_with keys)).st.now ≡ 101000
unfolding history step
second_later = refl

cached_decision_replays_example : replayed "w1" denial ≡ replayed "w1" denial
cached_decision_replays_example =
    cached_decision_replays gate "w1" denial 105000 (waits 1000 ∷ []) (world_with keys)
      (replayed "w1" denial) denial_cached (tt, tt) (omega (arith, second_later)) denial_runs

scan-Outcome_example :
    Outcome true "e9" "w1" "ride-001"
      (world_with keys).st
      (scan true "e9" "w1" "ride-001" (world_with keys)).1.st
scan-Outcome_example = scan-Outcome true "e9" "w1" "ride-001" (world_with keys)
