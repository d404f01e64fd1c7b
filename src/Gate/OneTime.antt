-- ===== src/Gate/OneTime.antt =====
-- The one-time use of QR tokens: internal/gate/binding.go with the marker that
-- internal/redis/client.go sets.
use theme_park_nftengine.Prelude.{
  ℕ, ◌+◌, ◌*◌, ◌/◌, ◌^◌, ◌≤◌, ◌<◌, String, ◌≡◌, ◌≢◌, refl, Bool, true, false, Option, some, arith,
  Bool-cases, Option-cases, inl, inr, str_eq, eq_iff, eq_refl,
}
use theme_park_nftengine.Config.{RedisConfig, GateConfig}
use theme_park_nftengine.Keyspace.{Entry, plain, peek-assign}
use theme_park_nftengine.Keyspace.Keys.{qr, dedup}
use theme_park_nftengine.World.{State, World, Result, ok, err, Backend, call}
use theme_park_nftengine.World.Hoare.{
  Hoare, Hoare-bind, Hoare-call, Hoare-pure, Hoare-raise, Hoare-reads, Hoare-wrapping, Keeps,
  Keeps-call, Keeps-catch, Keeps-pure, Keeps-raise, Keeps-reads, keeping,
}
use theme_park_nftengine.Gate.Qr.{is_stale, age_of, verify_qr_otp}
use theme_park_nftengine.Gate.Frame.{frame_kept}
use theme_park_nftengine.Gate.Keeps.{
  IsKept, require_verified-Keeps, ticket_owner_email-Keeps, link-Keeps,
}
use theme_park_nftengine.Gate.Binding.{BindRequest, bind, require_first, token_of, require_verified}
use theme_park_nftengine.Redis.Frame.{mark_qr_used-At, bind_wristband_to-At}
use theme_park_nftengine.Redis.Commands.{get, set_nx}
use theme_park_nftengine.Redis.Client.{mark_qr_used}

-- While its time has not passed, the token carries its mark.
abbrev pub Marked : ℕ → ℕ → Option Entry → Type 0
Marked t now o = now ≤ t → o ≡ some (record { value = plain "1"; expires = some t })

abbrev pub IsMarked : String → ℕ → State → Type 0
IsMarked uuid t s = Marked t s.now (get s (qr uuid))

-- A mark stays until its time: no second mark is set over it.
set_nx-Marked :
    (u v : String) (t n : ℕ)
    → Keeps (IsMarked u t) (call Backend.redis (set_nx (qr v) (plain "1") n))
unfolding set_nx
set_nx-Marked u v t n = Keeps-call Backend.redis _ λ s h. elim (Option-cases (get s (qr v))) [
  | inr (e, present) ↦ rw (present, set_nx) h
  | inl absent ↦
      rw (absent, set_nx)
        (λ early. rw peek-assign (elim (Bool-cases (str_eq v u)) [
          | inl same ↦ ground (arith, eq_iff v u, h early)
          | inr other ↦ rw other (h early)
        ]))
]

pub mark_qr_used-Marked :
    (cfg : RedisConfig) (u v : String) (t : ℕ) → Keeps (IsMarked u t) (mark_qr_used cfg v)
unfolding mark_qr_used
mark_qr_used-Marked cfg u v t =
    Keeps-catch _ _ _ (set_nx-Marked u v t _) (λ a. Keeps-pure a) (λ e. Keeps-raise _)

-- The first use sets a mark that lives for the grace window and 30 seconds.
mark_qr_used_first :
    (cfg : RedisConfig) (u : String) (n : ℕ)
    → Hoare
        (λ s. s.now ≡ n)
        (mark_qr_used cfg u)
        (λ first s. first ≡ true → IsMarked u (n + (cfg.grace_window_sec + 30) * 1000) s)
        (λ _ _. Unit {0})
unfolding mark_qr_used set_nx
mark_qr_used_first cfg u n = Hoare-wrapping {E = λ _. Unit {0}} _ _ (
    Hoare-call Backend.redis _
      (λ s now. elim (Option-cases (get s (qr u))) [
        | inr (e, present) ↦ rw (present, set_nx) (λ f. cc)
        | inl absent ↦ rw (absent, set_nx) (λ _ early. rw peek-assign (ground (arith, eq_refl u)))
      ])
      (λ _ _ _. tt) (λ _ _ _. tt))

-- A marked token is not taken for a new one.
mark_qr_used_again :
    (cfg : RedisConfig) (u : String) (t : ℕ)
    → Hoare
        (λ s. (s.now ≤ t) × IsMarked u t s)
        (mark_qr_used cfg u)
        (λ first _. first ≡ false)
        (λ _ _. Unit {0})
unfolding mark_qr_used set_nx
mark_qr_used_again cfg u t =
    Hoare-wrapping {E = λ _. Unit {0}} _ _
      (Hoare-call Backend.redis _ (λ s h. rw (h.1 h.0, set_nx) refl) (λ _ _ _. tt) (λ _ _ _. tt))

-- The mark of a token that is used at `n`.
abbrev pub mark_time : RedisConfig → ℕ → ℕ
mark_time cfg n = n + (cfg.grace_window_sec + 30) * 1000

IsMarked-kept : (cfg : RedisConfig) (u : String) (t : ℕ) → IsKept cfg (IsMarked u t)
IsMarked-kept cfg u t =
    frame_kept cfg (qr u) (Marked t) (λ _. refl) (λ _. refl) (λ v. mark_qr_used-Marked cfg u v t)

-- The time stands still in a request.
clock_kept : (cfg : RedisConfig) (n : ℕ) → IsKept cfg (λ s. s.now ≡ n)
clock_kept cfg n =
    frame_kept cfg (dedup "") (λ now _. now ≡ n) (λ _. refl) (λ _. refl)
      (λ v. mark_qr_used-At (dedup "") (λ now _. now ≡ n) (λ _. refl) (λ _. refl) cfg v refl)

require_first-Hoare :
    (first : Bool) (P : State → Type 0)
    → Hoare (λ s. first ≡ true → P s) (require_first first) (λ _. P) (λ _ _. Unit {0})
require_first-Hoare true P = Hoare-pure tt (λ s h. h refl)
require_first-Hoare false P = Hoare-raise _ (λ s h. tt)

early_kept :
    (cfg : RedisConfig) (u : String) (t : ℕ) → IsKept cfg (λ s. (s.now ≤ t) × IsMarked u t s)
early_kept cfg u t =
    frame_kept cfg (qr u) (λ now o. (now ≤ t) × Marked t now o) (λ _. refl) (λ _. refl)
      (λ v. record { at = λ w h. (early v w h.0, (mark_qr_used-Marked cfg u v t).at w h.1) })
  where
    early : (v : String) (w : World) → w.st.now ≤ t → (mark_qr_used cfg v w).1.st.now ≤ t
    early v w h =
        (mark_qr_used-At (dedup "") (λ now _. now ≤ t) (λ _. refl) (λ _. refl) cfg v refl).at w h

require_first_fails :
    (first : Bool) → Hoare (λ _. first ≡ false) (require_first first) (λ _ _. ⊥) (λ _ _. Unit {0})
require_first_fails true = record { run = λ w p. cc }
require_first_fails false = Hoare-raise _ (λ s h. tt)

rejects :
    (r : Result Bool)
    → r ≢ ok true
    → Hoare (λ _. Unit {0}) (require_verified r) (λ _ _. ⊥) (λ _ _. Unit {0})
rejects (ok true) bad = absurd (bad refl)
rejects (ok false) bad = Hoare-raise _ (λ s h. tt)
rejects (err e) bad = Hoare-raise _ (λ s h. tt)

-- Past the rotation window a token of the past is stale.
stale :
    (now ts rotation : ℕ)
    → now < 2 ^ 63
    → ts + rotation < now
    → is_stale (age_of now ts) rotation ≡ true
unfolding is_stale age_of
stale now ts rotation small old = ground arith

module _ (hmac : String → String → String) (gate : GateConfig) (cfg : RedisConfig) where
  -- A bind that succeeds leaves the token marked.
  pub bind_marks :
      (req : BindRequest) (n : ℕ)
      → Hoare
          (λ s. s.now ≡ n)
          (bind hmac gate cfg req)
          (λ _. IsMarked req.qr_uuid (mark_time cfg n))
          (λ _ _. Unit {0})
  unfolding bind
  bind_marks req n = Hoare-bind _ _ (keeping _ (Keeps-reads _)) λ now.
      Hoare-bind _ _ (keeping _ (require_verified-Keeps (clock_kept cfg n) _)) λ _.
        Hoare-bind _ _ (keeping _ (ticket_owner_email-Keeps (clock_kept cfg n) _)) λ email.
          Hoare-bind _ _
            (Hoare-wrapping {E = λ _. Unit {0}} _ _ (mark_qr_used_first cfg req.qr_uuid n))
            λ first. Hoare-bind _ _ (require_first-Hoare first _) λ _. keeping _ (
              link-Keeps (IsMarked-kept cfg req.qr_uuid (mark_time cfg n)) req email (
                bind_wristband_to-At (qr req.qr_uuid) (Marked (mark_time cfg n)) (λ _. refl)
                  (λ _. refl) _ _ email))

  -- While the mark lives, no bind with the token succeeds.
  pub bind-IsMarked :
      (req : BindRequest) (t : ℕ)
      → Hoare
          (λ s. (s.now ≤ t) × IsMarked req.qr_uuid t s)
          (bind hmac gate cfg req)
          (λ _ _. ⊥)
          (λ _ _. Unit {0})
  unfolding bind
  bind-IsMarked req t = Hoare-bind _ _ (keeping _ (Keeps-reads _)) λ now.
      Hoare-bind _ _ (keeping _ (require_verified-Keeps (early_kept cfg req.qr_uuid t) _)) λ _.
        Hoare-bind _ _ (keeping _ (ticket_owner_email-Keeps (early_kept cfg req.qr_uuid t) _))
          λ email.
            Hoare-bind _ _
              (Hoare-wrapping {E = λ _. Unit {0}} _ _ (mark_qr_used_again cfg req.qr_uuid t))
              λ first.
                Hoare-bind _ _ (require_first_fails first) λ _. record { run = λ w p. absurd p }

  -- Nor does one with a token that the gate does not verify.
  pub bind_unverified :
      (req : BindRequest) (n : ℕ)
      → verify_qr_otp hmac gate n (token_of req) ≢ ok true
      → Hoare (λ s. s.now ≡ n) (bind hmac gate cfg req) (λ _ _. ⊥) (λ _ _. Unit {0})
  unfolding bind
  bind_unverified req n bad =
      Hoare-bind _ _ (Hoare-reads {Q = λ now _. now ≡ n} _ (λ s p. p))
        λ now. Hoare-bind _ _ (unverified now) (λ _. record { run = λ w p. absurd p })
    where
      unverified :
          (now : ℕ)
          → Hoare
              (λ _. now ≡ n)
              (require_verified (verify_qr_otp hmac gate now (token_of req)))
              (λ _ _. ⊥)
              (λ _ _. Unit {0})
      unverified now = record {
        run = λ w p. rw p ((rejects (verify_qr_otp hmac gate n (token_of req)) bad).run w tt);
      }

  -- A token of the past that is older than the rotation window is not verified.
  pub verify_stale :
      (req : BindRequest) (now : ℕ)
      → now / 1000 < 2 ^ 63
      → req.qr_timestamp + gate.qr_rotation_seconds < now / 1000
      → verify_qr_otp hmac gate now (token_of req) ≢ ok true
  unfolding verify_qr_otp
  verify_stale req now small old =
      ground (arith, stale (now / 1000) req.qr_timestamp gate.qr_rotation_seconds small old)
