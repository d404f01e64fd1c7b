-- ===== src/Gate/Abstract.antt =====
-- What the gate promises about wristbands and tickets, without keys, expiry times and status: a map from
-- wristbands to tickets, and what each event may do to it.
use theme_park_nftengine.Prelude.{
  String, ◌≡◌, Option, none, some, str_eq, if◌then◌else◌, ◌⊎◌, List, [], ◌∷◌,
}
use theme_park_nftengine.Gate.History.{Request, binds, checks, resets, scans, waits}
use theme_park_nftengine.Gate.Overlap.{Method, to_bind, to_delete, Event, serves, sends}

abbrev pub LinkMap : Type 0
LinkMap = String → Option String

abbrev pub set_link : LinkMap → String → Option String → LinkMap
set_link m uid o v = if str_eq uid v then o else m v

-- Nothing, or the one link of a wristband and a ticket that both have none.
abbrev pub MayLink : LinkMap → String → String → LinkMap → Type 0
MayLink m uid ticket_id n =
    (n ≡ m)
    ⊎ ((m uid ≡ none)
        × ((v : String) → m v ≡ some ticket_id → ⊥)
        × (n ≡ set_link m uid (some ticket_id)))

-- Nothing, or the end of the link of one wristband.
abbrev pub MayUnlink : LinkMap → String → LinkMap → Type 0
MayUnlink m uid n = (n ≡ m) ⊎ (n ≡ set_link m uid none)

-- Links may end, and no link begins or changes.
abbrev pub MayForget : LinkMap → LinkMap → Type 0
MayForget m n = (v : String) → (n v ≡ m v) ⊎ (n v ≡ none)

-- What a request may do.
abbrev pub Serves : LinkMap → Request → LinkMap → Type 0
Serves m (binds req) n = MayLink m req.wristband_uid req.ticket_id n
Serves m (checks uid) n = n ≡ m
Serves m (resets uid) n = MayUnlink m uid n
Serves m (scans trace uid ride) n = n ≡ m
Serves m (waits k) n = MayForget m n

-- What a method of the Redis client may do.
abbrev pub Sends : LinkMap → Method → LinkMap → Type 0
Sends m (to_bind uid ticket_id email) n = MayLink m uid ticket_id n
Sends m (to_delete uid) n = MayUnlink m uid n
Sends m _ n = n ≡ m

abbrev pub Does : LinkMap → Event → LinkMap → Type 0
Does m (serves r) n = Serves m r n
Does m (sends k) n = Sends m k n

-- One change of the map for each event, in their order.
pub data Follows : List Event → LinkMap → LinkMap → Type 0 where
  ends : (m : LinkMap) → Follows [] m m
  next :
      (e : Event) (es : List Event) (m n o : LinkMap)
      → Does m e n
      → Follows es n o
      → Follows (e ∷ es) m o
