-- ===== src/Gate/History.antt =====
-- cmd/gate/main.go: the gate as it runs, a history of requests with time between them. A request that
-- fails leaves behind what it had written. The requests run whole, one after another; Gate.Overlap is about
-- requests that overlap.
use theme_park_nftengine.Prelude.{ℕ, ◌+◌, String, ◌≡◌, Bool, Option, none, List, [], ◌∷◌, arith}
use theme_park_nftengine.Errors.{Error}
use theme_park_nftengine.Config.{RedisConfig, GateConfig}
use theme_park_nftengine.Keyspace.{empty, peek, peek-empty}
use theme_park_nftengine.Keyspace.Keys.{Key, bind_wristband, bind_ticket}
use theme_park_nftengine.World.{State, World}
use theme_park_nftengine.Redis.Keeps.{HasLinks}
use theme_park_nftengine.Redis.Methods.{
  later-HasLinks, get_binding-HasLinks, set_binding_status-HasLinks, bind_wristband_to-HasLinks,
  delete_binding-HasLinks, mark_qr_used-HasLinks, get_wristband_grace-HasLinks,
  set_wristband_grace-HasLinks, clear_wristband_grace-HasLinks,
}
use theme_park_nftengine.Gate.Binding.{BindRequest, bind, nfc_check, reset}
use theme_park_nftengine.Gate.RideScan.{scan}
use theme_park_nftengine.Gate.Keeps.{IsKept, bind-Keeps, nfc_check-Keeps, reset-Keeps, scan-Keeps}

pub data Request : Type 0 where
  binds : BindRequest → Request
  checks : String → Request
  resets : String → Request
  -- A trace id, a wristband and a ride.
  scans : String → String → String → Request
  -- Milliseconds pass.
  waits : ℕ → Request

-- The settings of a gate, and the transaction check that it was built with.
pub record Gate : Type 0 where
  pub hmac : String → String → String
  pub settings : GateConfig
  pub redis : RedisConfig
  pub check : String → Option Error
  pub has_db : Bool

abbrev pub advance : ℕ → World → World
advance n w = record w { st = record w.st { now = w.st.now + n } }

unfoldable pub step : Gate → Request → World → World
step g (binds req) w = (bind g.hmac g.settings g.redis req w).1
step g (checks uid) w = (nfc_check g.check g.redis uid w).1
step g (resets uid) w = (reset uid w).1
step g (scans trace uid ride) w = (scan g.has_db trace uid ride w).1
step g (waits n) w = advance n w

unfoldable pub history : Gate → List Request → World → World
history g [] w = w
history g (r ∷ rs) w = history g rs (step g r w)

-- An invariant of the steps holds after any history.
pub history_keeps :
    (g : Gate) (I : State → Type 0)
    → ((r : Request) (w : World) → I w.st → I (step g r w).st)
    → (rs : List Request) (w : World) → I w.st
    → I (history g rs w).st
unfolding history
history_keeps g I keep [] w h = h
history_keeps g I keep (r ∷ rs) w h = history_keeps g I keep rs (step g r w) (keep r w h)

links_kept : (cfg : RedisConfig) → IsKept cfg HasLinks
links_kept cfg = record {
  by_tables = λ s t h. h;
  by_topics = λ s t h. h;
  by_get_binding = get_binding-HasLinks;
  by_set_status = set_binding_status-HasLinks;
  by_mark_qr = mark_qr_used-HasLinks cfg;
  by_get_grace = get_wristband_grace-HasLinks;
}

pub step-HasLinks : (g : Gate) (r : Request) (w : World) → HasLinks w.st → HasLinks (step g r w).st
unfolding step
step-HasLinks g (binds req) w h =
    (bind-Keeps (links_kept g.redis) g.hmac g.settings req
        (λ email. bind_wristband_to-HasLinks _ _ email)).at
      w h
step-HasLinks g (checks uid) w h =
    (nfc_check-Keeps (links_kept g.redis) g.check uid
        (λ d. set_wristband_grace-HasLinks g.redis uid d)).at
      w h
step-HasLinks g (resets uid) w h =
    (reset-Keeps (links_kept g.redis) uid (delete_binding-HasLinks uid)
        (clear_wristband_grace-HasLinks uid)).at
      w h
step-HasLinks g (scans trace uid ride) w h =
    (scan-Keeps (links_kept g.redis) g.has_db trace uid ride).at w h
step-HasLinks g (waits n) w h = later-HasLinks w.st (w.st.now + n) (omega arith) h

pub empty-HasLinks : (s : State) → s.redis ≡ empty → HasLinks s
empty-HasLinks s e = record {
  forward = λ uid x p. absurd (cc (nothing (bind_wristband uid)));
  backward = λ t x p. absurd (cc (nothing (bind_ticket t)));
}
  where
    nothing : (k : Key) → peek s.now s.redis k ≡ none
    nothing k = rw e (peek-empty s.now k)
