-- ===== src/Gate/Replay.antt =====
-- A QR token of internal/gate/qr.go over a history of the gate.
use theme_park_nftengine.Prelude.{
  ℕ, ◌+◌, ◌*◌, ◌/◌, ◌^◌, ◌≤◌, ◌<◌, String, ◌≡◌, ◌≢◌, ap, List, ◌∷◌, arith, Bool-cases, inl, inr,
  leb, sym, subst, true, false, none, eq_iff, eq_refl, refl,
}
use theme_park_nftengine.Keyspace.{plain, peek-later, peek-assign}
use theme_park_nftengine.Keyspace.Keys.{qr, dedup}
use theme_park_nftengine.World.{State, World, M, ok, calm, catch, call}
use theme_park_nftengine.World.Hoare.{Hoare-value}
use theme_park_nftengine.Config.{RedisConfig}
use theme_park_nftengine.Redis.Commands.{get, put, set_nx, ttl_from}
use theme_park_nftengine.Redis.Client.{mark_qr_used}
use theme_park_nftengine.Redis.Frame.{mark_qr_used-At}
use theme_park_nftengine.Gate.Qr.{verify_qr_otp, payload, is_stale, age_of}
use theme_park_nftengine.Gate.Binding.{BindRequest, WristbandResponse, bind, token_of}
use theme_park_nftengine.Gate.History.{Gate, Request, binds, advance, step, history, history_keeps}
use theme_park_nftengine.Gate.Frame.{step-At}
use theme_park_nftengine.Gate.OneTime.{
  Marked, IsMarked, mark_time, mark_qr_used-Marked, bind_marks, bind-IsMarked, bind_unverified,
  verify_stale,
}

wait-Marked :
    (u : String) (t n : ℕ) (s : State)
    → IsMarked u t s
    → IsMarked u t (record s { now = s.now + n })
wait-Marked u t n s h early =
    rw (peek-later s.now (s.now + n) s.redis (qr u) (omega arith), h (omega arith)) (ground arith)

-- A mark outlives every history up to its time.
history-Marked :
    (g : Gate) (u : String) (t : ℕ) (rs : List Request) (w : World)
    → IsMarked u t w.st
    → IsMarked u t (history g rs w).st
history-Marked g u t = history_keeps g (IsMarked u t) (
    step-At g.redis (qr u) (Marked t) (λ _. refl) (λ _. refl) g refl
      (λ v. mark_qr_used-Marked g.redis u v t) (λ _. refl) (λ n s h. wait-Marked u t n s h))

-- Time does not run back.
history-now :
    (g : Gate) (n : ℕ) (rs : List Request) (w : World) → n ≤ w.st.now → n ≤ (history g rs w).st.now
history-now g n =
    history_keeps g (λ s. n ≤ s.now)
      (step-At g.redis (dedup "") (λ now _. n ≤ now) (λ _. refl) (λ _. refl) g refl
        (λ v. mark_qr_used-At (dedup "") (λ now _. n ≤ now) (λ _. refl) (λ _. refl) g.redis v refl)
        (λ _. refl) (λ k s h. omega arith))

abbrev pub binding_of : Gate → BindRequest → M WristbandResponse
binding_of g req = bind g.hmac g.settings g.redis req

after_bind :
    (g : Gate) (req : BindRequest) (rs : List Request) (w : World)
    → w.st.now ≤ (history g rs (binding_of g req w).1).st.now
unfolding history step
after_bind g req rs w = history-now g w.st.now (binds req ∷ rs) w (omega arith)

-- A token is fresh from the rotation window before its time to the rotation window after it.
fresh_ahead :
    (seconds rotation : ℕ)
    → seconds + 2 * rotation < 2 ^ 63
    → is_stale (age_of (seconds * 1000 / 1000) (seconds + rotation)) rotation ≡ false
unfolding is_stale age_of
fresh_ahead seconds rotation small = ground arith

fresh_behind :
    (seconds rotation : ℕ)
    → seconds + 2 * rotation < 2 ^ 63
    → is_stale (age_of ((seconds + 2 * rotation) * 1000 / 1000) (seconds + rotation)) rotation
      ≡ false
unfolding is_stale age_of
fresh_behind seconds rotation small = ground arith

-- A QR token binds once. After a bind that succeeded with a token of the past or the present, and any
-- history after it under any faults, no bind with the same uuid and timestamp succeeds, for whatever
-- ticket, wristband and signature. The rotation window must be below the grace window and 30 seconds
-- together, and the clock within an int64.
pub bind_once :
    (g : Gate) (req req' : BindRequest) (r r' : WristbandResponse) (rs : List Request) (w : World)
    → (binding_of g req w).0 ≡ ok r
    → req'.qr_uuid ≡ req.qr_uuid
    → req'.qr_timestamp ≡ req.qr_timestamp
    → req.qr_timestamp ≤ w.st.now / 1000
    → g.settings.qr_rotation_seconds < g.redis.grace_window_sec + 30
    → (history g rs (binding_of g req w).1).st.now / 1000 < 2 ^ 63
    → (binding_of g req' (history g rs (binding_of g req w).1)).0 ≢ ok r'
bind_once g req req' r r' rs w done same_uuid same_time past window small again =
    elim (Bool-cases (leb w2.st.now t)) [
      | inl early ↦
          Hoare-value _ (bind-IsMarked g.hmac g.settings g.redis req' t) w2 r'
            (ground arith, subst (λ u. IsMarked u t w2.st) (sym same_uuid) marked) again
      | inr late ↦
          Hoare-value _
            (bind_unverified g.hmac g.settings g.redis req' w2.st.now
              (verify_stale g.hmac g.settings g.redis req' w2.st.now small (ground (arith, after))))
            w2 r' refl again
    ]
  where
    w2 : World
    w2 = history g rs (binding_of g req w).1

    t : ℕ
    t = mark_time g.redis w.st.now

    marked : IsMarked req.qr_uuid t w2.st
    marked =
        history-Marked g req.qr_uuid t rs (binding_of g req w).1
          (Hoare-value _ (bind_marks g.hmac g.settings g.redis req w.st.now) w r refl done)

    after : w.st.now ≤ w2.st.now
    after = after_bind g req rs w

-- The state with the mark of a token.
abbrev with_mark : RedisConfig → String → State → State
with_mark cfg uuid s =
    put s (qr uuid)
      (record { value = plain "1"; expires = ttl_from s.now (cfg.grace_window_sec + 30) })

mark_new :
    (cfg : RedisConfig) (uuid : String) (s : State)
    → get s (qr uuid) ≡ none
    → mark_qr_used cfg uuid (calm s) ≡ (ok true, calm (with_mark cfg uuid s))
unfolding mark_qr_used set_nx catch call
mark_new cfg uuid s absent = rw (absent, set_nx) refl

-- A mark whose time has passed is set again.
marked_twice :
    (cfg : RedisConfig) (uuid : String) (s : State) (n : ℕ)
    → get s (qr uuid) ≡ none
    → (cfg.grace_window_sec + 30) * 1000 < n
    → ((mark_qr_used cfg uuid (calm s)).0 ≡ ok true)
      × ((mark_qr_used cfg uuid (advance n (mark_qr_used cfg uuid (calm s)).1)).0 ≡ ok true)
marked_twice cfg uuid s n absent long =
    rw (mark_new cfg uuid s absent) (refl, ap (λ x. x.0) (mark_new cfg uuid later over))
  where
    later : State
    later = record (with_mark cfg uuid s) { now = s.now + n }

    over : get later (qr uuid) ≡ none
    over = rw peek-assign (ground (arith, eq_refl uuid))

-- A token that is dated ahead by the rotation window outlives its mark. Where its signature verifies and it
-- has no mark, and no call fails: at a first time the token is fresh and `MarkQRUsed` takes it as new; two
-- rotation windows later it is fresh again, and `MarkQRUsed` takes it as new again. The grace window and 30
-- seconds together must be below two rotation windows, and the time within an int64.
pub future_token_outlives_mark :
    (g : Gate) (req : BindRequest) (seconds : ℕ) (s : State)
    → g.hmac g.settings.hmac_secret (payload req.ticket_id req.qr_uuid req.qr_timestamp)
      ≡ req.qr_signature
    → req.qr_timestamp ≡ seconds + g.settings.qr_rotation_seconds
    → g.redis.grace_window_sec + 30 < 2 * g.settings.qr_rotation_seconds
    → seconds + 2 * g.settings.qr_rotation_seconds < 2 ^ 63
    → s.now ≡ seconds * 1000
    → get s (qr req.qr_uuid) ≡ none
    → let wait = 2 * g.settings.qr_rotation_seconds * 1000 in
      let first = mark_qr_used g.redis req.qr_uuid (calm s) in
      (verify_qr_otp g.hmac g.settings s.now (token_of req) ≡ ok true)
      × (first.0 ≡ ok true)
      × (verify_qr_otp g.hmac g.settings (s.now + wait) (token_of req) ≡ ok true)
      × ((mark_qr_used g.redis req.qr_uuid (advance wait first.1)).0 ≡ ok true)
unfolding verify_qr_otp
future_token_outlives_mark g req seconds s signed ahead long small now absent =
    let (first, again) =
      marked_twice g.redis req.qr_uuid s (2 * g.settings.qr_rotation_seconds * 1000) absent
        (omega (arith, long)) in
    (
      ground (
        arith,
        eq_iff (g.hmac g.settings.hmac_secret (payload req.ticket_id req.qr_uuid req.qr_timestamp))
            req.qr_signature,
        fresh_ahead seconds g.settings.qr_rotation_seconds small,
      ),
      first,
      ground (
        arith,
        eq_iff (g.hmac g.settings.hmac_secret (payload req.ticket_id req.qr_uuid req.qr_timestamp))
            req.qr_signature,
        fresh_behind seconds g.settings.qr_rotation_seconds small,
      ),
      again,
    )
