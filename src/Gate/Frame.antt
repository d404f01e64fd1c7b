-- ===== src/Gate/Frame.antt =====
-- The requests of internal/gate and one key of Redis.
use theme_park_nftengine.Prelude.{ℕ, ◌+◌, String, ◌≡◌, false, Option}
use theme_park_nftengine.Config.{RedisConfig}
use theme_park_nftengine.Keyspace.{Entry}
use theme_park_nftengine.Keyspace.Keys.{Key, key_eq, bind_wristband, bind_ticket, gracewb}
use theme_park_nftengine.World.{State, World}
use theme_park_nftengine.World.Hoare.{Keeps}
use theme_park_nftengine.Redis.Client.{mark_qr_used}
use theme_park_nftengine.Redis.Frame.{
  At, get_binding-At, set_binding_status-At, bind_wristband_to-At, delete_binding-At,
  get_wristband_grace-At, set_wristband_grace-At, clear_wristband_grace-At,
}
use theme_park_nftengine.Gate.Keeps.{IsKept, bind-Keeps, nfc_check-Keeps, reset-Keeps, scan-Keeps}
use theme_park_nftengine.Gate.History.{Gate, Request, binds, checks, resets, scans, waits, step}

module _ (cfg : RedisConfig) (k : Key) (Φ : ℕ → Option Entry → Type 0)
    (forward : (uid : String) → key_eq (bind_wristband uid) k ≡ false)
    (reverse : (ticket_id : String) → key_eq (bind_ticket ticket_id) k ≡ false) where
  pub frame_kept :
      ((uuid : String) → Keeps (At k Φ forward reverse) (mark_qr_used cfg uuid))
      → IsKept cfg (At k Φ forward reverse)
  frame_kept mark = record {
    by_tables = λ s t h. h;
    by_topics = λ s t h. h;
    by_get_binding = get_binding-At k Φ forward reverse;
    by_set_status = set_binding_status-At k Φ forward reverse;
    by_mark_qr = mark;
    by_get_grace = get_wristband_grace-At k Φ forward reverse;
  }

  -- So does every step of a history, if no step touches the key and time keeps the predicate.
  pub step-At :
      (g : Gate)
      → g.redis ≡ cfg
      → ((uuid : String) → Keeps (At k Φ forward reverse) (mark_qr_used cfg uuid))
      → ((uid : String) → key_eq (gracewb uid) k ≡ false)
      → ((n : ℕ) (s : State)
          → At k Φ forward reverse s
          → At k Φ forward reverse (record s { now = s.now + n }))
      → (r : Request) (w : World) → At k Φ forward reverse w.st
      → At k Φ forward reverse (step g r w).st
  unfolding step
  step-At g same mark apart wait (binds req) w h = rw same (
      (bind-Keeps (frame_kept mark) g.hmac g.settings req
          (λ email. bind_wristband_to-At k Φ forward reverse _ _ email)).at
        w h)
  step-At g same mark apart wait (checks uid) w h = rw same (
      (nfc_check-Keeps (frame_kept mark) g.check uid
          (λ d. set_wristband_grace-At k Φ forward reverse cfg uid d (apart uid))).at
        w h)
  step-At g same mark apart wait (resets uid) w h =
      (reset-Keeps (frame_kept mark) uid (delete_binding-At k Φ forward reverse uid)
          (clear_wristband_grace-At k Φ forward reverse uid (apart uid))).at
        w h
  step-At g same mark apart wait (scans trace uid ride) w h =
      (scan-Keeps (frame_kept mark) g.has_db trace uid ride).at w h
  step-At g same mark apart wait (waits n) w h = wait n w.st h
