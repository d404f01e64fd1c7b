-- ===== src/Gate/Overlap.antt =====
-- internal/gate and internal/redis/client.go: the gate as its requests overlap. Between whole requests stand
-- single methods of the Redis client, in any order and with any arguments, as requests that run at the same
-- time make them. Each method sends one command or one script, which Redis serves at once. `SetBindingStatus` is
-- the exception: it reads with GET and writes with SET KEEPTTL; here it runs as one unit, and Gate.Race is
-- about what may come between the two. The methods that only read are left out.
use theme_park_nftengine.Prelude.{String, ◌≡◌, List, [], ◌∷◌}
use theme_park_nftengine.Models.{WristbandBinding, BindingStatus}
use theme_park_nftengine.Config.{RedisConfig}
use theme_park_nftengine.Keyspace.{NfcDecision, empty}
use theme_park_nftengine.World.{World}
use theme_park_nftengine.Redis.Client.{
  mark_qr_used, bind_wristband_to, set_binding_status, set_wristband_grace, delete_binding,
  clear_wristband_grace,
}
use theme_park_nftengine.Redis.Links.{Linked-unique}
use theme_park_nftengine.Redis.Keeps.{HasLinks}
use theme_park_nftengine.Redis.Methods.{
  Held, set_binding_status-HasLinks, bind_wristband_to-HasLinks, delete_binding-HasLinks,
  mark_qr_used-HasLinks, set_wristband_grace-HasLinks, clear_wristband_grace-HasLinks,
}
use theme_park_nftengine.Gate.History.{Gate, Request, step, step-HasLinks, empty-HasLinks}

-- A call of a client method that writes.
pub data Method : Type 0 where
  -- A wristband, a ticket and an e-mail.
  to_bind : String → String → String → Method
  to_set_status : String → BindingStatus → Method
  to_delete : String → Method
  to_mark : String → Method
  to_set_grace : String → NfcDecision → Method
  to_clear_grace : String → Method

pub data Event : Type 0 where
  serves : Request → Event
  sends : Method → Event

unfoldable pub send : RedisConfig → Method → World → World
send cfg (to_bind uid ticket_id email) w = (bind_wristband_to uid ticket_id email w).1
send cfg (to_set_status uid status) w = (set_binding_status uid status w).1
send cfg (to_delete uid) w = (delete_binding uid w).1
send cfg (to_mark uuid) w = (mark_qr_used cfg uuid w).1
send cfg (to_set_grace uid d) w = (set_wristband_grace cfg uid d w).1
send cfg (to_clear_grace uid) w = (clear_wristband_grace uid w).1

unfoldable pub happen : Gate → Event → World → World
happen g (serves r) w = step g r w
happen g (sends m) w = send g.redis m w

unfoldable pub overlapped : Gate → List Event → World → World
overlapped g [] w = w
overlapped g (e ∷ es) w = overlapped g es (happen g e w)

pub send-HasLinks :
    (cfg : RedisConfig) (m : Method) (w : World) → HasLinks w.st → HasLinks (send cfg m w).st
unfolding send
send-HasLinks cfg (to_bind uid ticket_id email) w h =
    (bind_wristband_to-HasLinks uid ticket_id email).at w h
send-HasLinks cfg (to_set_status uid status) w h = (set_binding_status-HasLinks uid status).at w h
send-HasLinks cfg (to_delete uid) w h = (delete_binding-HasLinks uid).at w h
send-HasLinks cfg (to_mark uuid) w h = (mark_qr_used-HasLinks cfg uuid).at w h
send-HasLinks cfg (to_set_grace uid d) w h = (set_wristband_grace-HasLinks cfg uid d).at w h
send-HasLinks cfg (to_clear_grace uid) w h = (clear_wristband_grace-HasLinks uid).at w h

overlapped_keeps :
    (g : Gate) (es : List Event) (w : World) → HasLinks w.st → HasLinks (overlapped g es w).st
unfolding overlapped happen
overlapped_keeps g [] w h = h
overlapped_keeps g (serves r ∷ es) w h = overlapped_keeps g es (step g r w) (step-HasLinks g r w h)
overlapped_keeps g (sends m ∷ es) w h =
    overlapped_keeps g es (send g.redis m w) (send-HasLinks g.redis m w h)

-- Starting from an empty key space, the index from wristbands to bindings and the index from tickets to
-- wristbands mirror each other, and the two keys of a link expire together, after any sequence of whole
-- requests, of time that passes, and of single methods of the Redis client with any arguments, as requests
-- that overlap interleave them. Any calls of Redis, Postgres and Kafka may fail before or after their effect.
-- `SetBindingStatus` is taken as one unit: nothing comes between its read and its write.
pub overlapped-HasLinks :
    (g : Gate) (es : List Event) (w : World) → w.st.redis ≡ empty → HasLinks (overlapped g es w).st
overlapped-HasLinks g es w e = overlapped_keeps g es w (empty-HasLinks w.st e)

-- Starting from an empty key space, no two live wristbands are bound to one ticket, after any sequence of
-- whole requests, of time that passes, and of single methods of the Redis client with any arguments, as
-- requests that overlap interleave them, and under any faults. `SetBindingStatus` is taken as one unit:
-- nothing comes between its read and its write.
pub overlapped_one_wristband :
    (g : Gate) (es : List Event) (w : World) (u v : String) (b c : WristbandBinding)
    → w.st.redis ≡ empty
    → Held u b (overlapped g es w).st
    → Held v c (overlapped g es w).st
    → b.ticket_id ≡ c.ticket_id
    → u ≡ v
overlapped_one_wristband g es w u v b c e (d, p, q) (d', p', q') same =
    Linked-unique (overlapped-HasLinks g es w e) u v d d' b c p p' q q' same
