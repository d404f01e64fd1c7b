-- ===== src/Redis/Client.antt =====
-- The methods of `Client`.
use theme_park_nftengine.Prelude.{
  ℕ, ◌+◌, ◌*◌, ◌/◌, ◌-◌, String, Bool, not, Option, none, some, List, if◌then◌else◌,
}
use theme_park_nftengine.Models.{WristbandBinding, BindingStatus, binding}
use theme_park_nftengine.Errors.{
  Error, decode, wrap, redis_error, wristband_already_bound, ticket_already_bound,
  binding_not_found, error_text,
}
use theme_park_nftengine.Config.{RedisConfig}
use theme_park_nftengine.Keyspace.{plain, binding_json, decision_json, Entry, NfcDecision}
use theme_park_nftengine.Keyspace.Keys.{
  dedup, grace, user_rides, bind_wristband, bind_ticket, qr, gracewb,
}
use theme_park_nftengine.Text.{text_contains}
use theme_park_nftengine.World.{M, Backend, pure, raise, reads, ◌>>=◌, ◌>>◌, catch, wrapping, call}
use theme_park_nftengine.Redis.Commands.{
  set_ex, set_nx, get_key, del_key, set_keep_ttl, s_add, expire, s_members, flush_all, bind_script,
  delete_binding_script,
}

-- The end of the day after today, in Unix seconds: the start of the day after it, less one
-- nanosecond, with the nanoseconds cut off. The location is UTC.
unfoldable pub binding_expiry : ℕ → ℕ
binding_expiry now = (now / 86400000 + 2) * 86400 - 1

-- True for a trace that has its marker; otherwise the marker is set.
unfoldable pub is_duplicate : RedisConfig → String → M Bool
is_duplicate cfg trace_id = do
  set ←
      wrapping "redis setnx dedup"
        (call Backend.redis (set_nx (dedup trace_id) (plain "1") cfg.dedup_ttl_sec))
  pure (not set)

pub set_grace_window : RedisConfig → String → String → M (Unit {0})
set_grace_window cfg ticket_id result =
    call Backend.redis (set_ex (grace ticket_id) (plain result) cfg.grace_window_sec)

abbrev text_or_empty : Option Entry → M String
text_or_empty none = pure ""
text_or_empty (some e) = elim e.value [ plain t ↦ pure t | _ ↦ raise decode ]

pub get_grace_window : String → M String
get_grace_window ticket_id = do
  found ← call Backend.redis (get_key (grace ticket_id))
  text_or_empty found

unfoldable pub add_ride_to_user_set : RedisConfig → String → String → String → M (Unit {0})
add_ride_to_user_set cfg user_id ride_id date = do
  wrapping "sadd ride set" (call Backend.redis (s_add (user_rides user_id date) ride_id))
  call Backend.redis (expire (user_rides user_id date) cfg.agg_ttl_sec)

unfoldable pub get_user_rides : String → String → M (List String)
get_user_rides user_id date = call Backend.redis (s_members (user_rides user_id date))

-- The two replies of the script, told apart by their texts.
unfoldable pub bind_failure : Error → Error
bind_failure e =
    if text_contains (error_text e) "ticket already bound"
    then redis_error ticket_already_bound
    else if text_contains (error_text e) "wristband already bound"
    then redis_error wristband_already_bound
    else wrap "bind wristband" e

unfoldable pub bind_wristband_to : String → String → String → M (Unit {0})
unfolding bind_failure
bind_wristband_to uid ticket_id user_email = do
  now ← reads (λ s. s.now)
  catch
      (call Backend.redis (
        bind_script uid ticket_id
          (record {
            wristband_uid = uid;
            ticket_id = ticket_id;
            user_email = user_email;
            status = binding;
            bound_at = now / 1000;
          })
          (binding_expiry now)))
      pure (λ e. raise (bind_failure e))

abbrev pub decode_binding : Option Entry → M (Option WristbandBinding)
decode_binding none = pure none
decode_binding (some e) = elim e.value [ binding_json b ↦ pure (some b) | _ ↦ raise decode ]

-- The binding of a wristband, or `none`.
unfoldable pub get_binding : String → M (Option WristbandBinding)
get_binding uid = do
  found ← wrapping "get binding" (call Backend.redis (get_key (bind_wristband uid)))
  decode_binding found

abbrev pub by_uid : Option Entry → M (Option WristbandBinding)
by_uid none = pure none
by_uid (some e) = elim e.value [ plain uid ↦ get_binding uid | _ ↦ raise decode ]

unfoldable pub get_binding_by_ticket : String → M (Option WristbandBinding)
get_binding_by_ticket ticket_id = do
  found ← wrapping "get binding by ticket" (call Backend.redis (get_key (bind_ticket ticket_id)))
  by_uid found

abbrev pub write_status : String → BindingStatus → Option WristbandBinding → M (Unit {0})
write_status uid status none = raise (redis_error binding_not_found)
write_status uid status (some b) = wrapping "set binding status" (
    call Backend.redis
      (set_keep_ttl (bind_wristband uid) (binding_json (record b { status = status }))))

unfoldable pub set_binding_status : String → BindingStatus → M (Unit {0})
set_binding_status uid status = do found ← get_binding uid; write_status uid status found

unfoldable pub delete_binding : String → M (Unit {0})
delete_binding uid = wrapping "delete binding" (call Backend.redis (delete_binding_script uid))

-- True where the code was unused, and is now used.
unfoldable pub mark_qr_used : RedisConfig → String → M Bool
mark_qr_used cfg uuid =
    wrapping "mark qr used"
      (call Backend.redis (set_nx (qr uuid) (plain "1") (cfg.grace_window_sec + 30)))

unfoldable pub clear_dedup : String → M (Unit {0})
clear_dedup trace_id = wrapping "clear dedup" (call Backend.redis (del_key (dedup trace_id)))

unfoldable pub set_wristband_grace : RedisConfig → String → NfcDecision → M (Unit {0})
set_wristband_grace cfg uid decision =
    call Backend.redis (set_ex (gracewb uid) (decision_json decision) cfg.grace_window_sec)

-- The cached value of a wristband; `none` stands for the empty text.
unfoldable pub get_wristband_grace : String → M (Option Entry)
get_wristband_grace uid = call Backend.redis (get_key (gracewb uid))

unfoldable pub clear_wristband_grace : String → M (Unit {0})
clear_wristband_grace uid = call Backend.redis (del_key (gracewb uid))

pub flush_db : M (Unit {0})
flush_db = wrapping "flushdb" (call Backend.redis flush_all)
