-- ===== src/Gate/Denied.antt =====
-- The grace window of the NFC check: internal/gate/binding.go over a history of the gate.
use theme_park_nftengine.Prelude.{
  ℕ, ◌+◌, ◌≤◌, String, ◌≡◌, ◌≢◌, refl, ap, some, Option, List, [], ◌∷◌, arith, leb, Bool-cases, inl,
  inr, str_eq, str_ne, ◌<◌, subst, sym, eq_iff,
}
use theme_park_nftengine.Errors.{Error}
use theme_park_nftengine.Keyspace.{NfcDecision, decision_json, Entry, peek-later}
use theme_park_nftengine.Keyspace.Keys.{gracewb, dedup}
use theme_park_nftengine.World.{State, World, ok, Backend}
use theme_park_nftengine.World.Hoare.{
  Hoare, Hoare-bind, Hoare-call, Hoare-wrapping, Hoare-value, Hoare-consequence, Post-both, Keeps,
}
use theme_park_nftengine.Config.{RedisConfig}
use theme_park_nftengine.Redis.Commands.{get, get_key}
use theme_park_nftengine.Redis.Client.{get_wristband_grace, mark_qr_used}
use theme_park_nftengine.Redis.Frame.{
  mark_qr_used-At, bind_wristband_to-At, delete_binding-At, set_wristband_grace-At,
  clear_wristband_grace-At,
}
use theme_park_nftengine.Gate.Keeps.{IsKept, bind-Keeps, nfc_check-Keeps, reset-Keeps, scan-Keeps}
use theme_park_nftengine.Gate.Binding.{
  WristbandResponse, nfc_check, replayed, replay_or_evaluate, cached_decision,
}
use theme_park_nftengine.Gate.History.{
  Gate, Request, binds, checks, resets, scans, waits, step, history,
}
use theme_park_nftengine.Gate.Frame.{frame_kept, step-At}

-- Up to its time the wristband has this cached decision.
abbrev Cached : NfcDecision → ℕ → ℕ → Option Entry → Type 0
Cached d t now o = now ≤ t → o ≡ some (record { value = decision_json d; expires = some t })

abbrev IsCached : String → NfcDecision → ℕ → State → Type 0
IsCached uid d t s = Cached d t s.now (get s (gracewb uid))

module _ (check : String → Option Error) (cfg : RedisConfig) (uid : String) (d : NfcDecision)
    (t : ℕ) where
  abbrev Early : State → Type 0
  Early s = (s.now ≤ t) × IsCached uid d t s

  read_grace :
      Hoare Early
        (get_wristband_grace uid)
        (λ o s. Early s × (cached_decision o ≡ some d))
        (λ _ s. Early s)
  unfolding get_wristband_grace get_key
  read_grace =
      Hoare-call Backend.redis _ (λ s h. (h, ap cached_decision (h.1 h.0))) (λ s _ h. h)
        (λ s _ h. h)

  replay :
      (o : Option Entry)
      → Hoare
          (λ s. Early s × (cached_decision o ≡ some d))
          (replay_or_evaluate check cfg uid (cached_decision o))
          (λ r s. Early s × (r ≡ replayed uid d))
          (λ _ s. Early s)
  replay o = record { run = λ w h. rw h.1 (h.0, refl) }

  -- A check in the window answers with the cached decision and leaves it.
  nfc_check-Early :
      Hoare Early (nfc_check check cfg uid) (λ r s. Early s × (r ≡ replayed uid d)) (λ _ s. Early s)
  unfolding nfc_check
  nfc_check-Early = Hoare-bind _ _ (Hoare-wrapping {E = Early} _ _ read_grace) (λ o. replay o)

-- A request that does not reset the wristband.
abbrev pub Spares : String → Request → Type 0
Spares uid (resets v) = v ≢ uid
Spares uid _ = Unit

abbrev pub AllSpare : String → List Request → Type 0
AllSpare uid [] = Unit
AllSpare uid (r ∷ rs) = Spares uid r × AllSpare uid rs

module _ (g : Gate) (uid : String) (d : NfcDecision) (t : ℕ) where
  mark_kept : (v : String) → Keeps (IsCached uid d t) (mark_qr_used g.redis v)
  mark_kept v = mark_qr_used-At (gracewb uid) (Cached d t) (λ _. refl) (λ _. refl) g.redis v refl

  IsCached-kept : IsKept g.redis (IsCached uid d t)
  IsCached-kept = frame_kept g.redis (gracewb uid) (Cached d t) (λ _. refl) (λ _. refl) mark_kept

  -- Time does not run back.
  late_step : (r : Request) (w : World) → t < w.st.now → t < (step g r w).st.now
  late_step =
      step-At g.redis (dedup "") (λ now _. t < now) (λ _. refl) (λ _. refl) g refl
        (λ v. mark_qr_used-At (dedup "") (λ now _. t < now) (λ _. refl) (λ _. refl) g.redis v refl)
        (λ _. refl) (λ n s h. omega arith)

  same_check : (w : World) → IsCached uid d t w.st → IsCached uid d t (step g (checks uid) w).st
  unfolding step
  same_check w h = elim (Bool-cases (leb w.st.now t)) [
    | inl early ↦
        (Post-both _ _ (nfc_check g.check g.redis uid w).0 (
          (Hoare-consequence {Q' = λ _. Early g.check g.redis uid d t}
              {E' = λ _. Early g.check g.redis uid d t} _ (nfc_check-Early g.check g.redis uid d t)
              (λ _ s q. q.0) (λ _ s q. q)).run
            w (ground arith, h))).1
    | inr late ↦ λ early. absurd (omega (arith, late_step (checks uid) w (ground arith)))
  ]

  step-Cached :
      (r : Request) (w : World)
      → Spares uid r
      → IsCached uid d t w.st
      → IsCached uid d t (step g r w).st
  unfolding step
  step-Cached (binds req) w spare h =
      (bind-Keeps IsCached-kept g.hmac g.settings req (λ email.
          bind_wristband_to-At (gracewb uid) (Cached d t) (λ _. refl) (λ _. refl) _ _ email)).at
        w h
  step-Cached (checks v) w spare h = elim (Bool-cases (str_eq v uid)) [
    | inl same ↦
        subst (λ u. IsCached uid d t (nfc_check g.check g.redis u w).1.st)
          (sym ((eq_iff v uid).0 same)) (same_check w h)
    | inr other ↦
        (nfc_check-Keeps IsCached-kept g.check v (λ e.
            set_wristband_grace-At (gracewb uid) (Cached d t) (λ _. refl) (λ _. refl) g.redis v e
              other)).at
          w h
  ]
  step-Cached (resets v) w spare h =
      (reset-Keeps IsCached-kept v
          (delete_binding-At (gracewb uid) (Cached d t) (λ _. refl) (λ _. refl) v)
          (clear_wristband_grace-At (gracewb uid) (Cached d t) (λ _. refl) (λ _. refl) v
            (str_ne v uid spare))).at
        w h
  step-Cached (scans trace v ride) w spare h =
      (scan-Keeps IsCached-kept g.has_db trace v ride).at w h
  step-Cached (waits n) w spare h = λ early.
      rw
        (peek-later w.st.now (w.st.now + n) w.st.redis (gracewb uid) (omega arith), h (omega arith))
        (ground arith)

  history-Cached :
      (rs : List Request) (w : World)
      → AllSpare uid rs
      → IsCached uid d t w.st
      → IsCached uid d t (history g rs w).st
  unfolding history
  history-Cached [] w spare h = h
  history-Cached (r ∷ rs) w spare h =
      history-Cached rs (step g r w) spare.1 (step-Cached r w spare.0 h)

-- A decision that is cached for a wristband, denied or allowed, is the answer of every NFC check of that
-- wristband that returns up to the decision's time, with the same reason and whatever the transaction
-- check would say now: after any history of requests that does not reset the wristband, under any faults.
pub cached_decision_replays :
    (g : Gate) (uid : String) (d : NfcDecision) (t : ℕ) (rs : List Request) (w : World)
    (r : WristbandResponse)
    → get w.st (gracewb uid) ≡ some (record { value = decision_json d; expires = some t })
    → AllSpare uid rs
    → (history g rs w).st.now ≤ t
    → (nfc_check g.check g.redis uid (history g rs w)).0 ≡ ok r
    → r ≡ replayed uid d
cached_decision_replays g uid d t rs w r cached spare early done =
    (Hoare-value _ (nfc_check-Early g.check g.redis uid d t) (history g rs w) r
      (early, history-Cached g uid d t rs w spare (λ _. cached)) done).1
