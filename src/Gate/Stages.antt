-- ===== src/Gate/Stages.antt =====
-- The stages of the requests of internal/gate up to the first effect of each.
use theme_park_nftengine.Prelude.{
  String, ◌≡◌, refl, Bool, true, false, Option, none, some, ◌⊎◌, inl, inr, Option-cases, arith,
}
use theme_park_nftengine.Models.{WristbandBinding, BindingStatus, binding, bound}
use theme_park_nftengine.Errors.{Error, is_gate}
use theme_park_nftengine.Config.{RedisConfig, GateConfig}
use theme_park_nftengine.Keyspace.{NfcDecision}
use theme_park_nftengine.Keyspace.Keys.{qr}
use theme_park_nftengine.World.{State, Result, ok, err, M, Backend, ◌>>=◌, wrapping}
use theme_park_nftengine.World.Hoare.{
  Hoare, Hoare-bind, Hoare-call, Hoare-catch, Hoare-pure, Hoare-raise, Hoare-reads, Hoare-wrapping,
  Hoare-consequence, Hoare-weaken, of_Keeps,
}
use theme_park_nftengine.Gate.Keeps.{owner_query-Keeps}
use theme_park_nftengine.Gate.Late.{
  Late, Lates, Lates-wrapping, Lates-call, Lates-bind, Lates-tried, Lates-pure, link-Late,
  decide-Late, delete_binding-Late,
}
use theme_park_nftengine.Gate.Tickets.{ticket_owner_email}
use theme_park_nftengine.Gate.Binding.{
  BindRequest, bind, require_verified, require_first, nfc_check, evaluate, or_no_binding,
  replay_or_evaluate, cached_decision, reset,
}
use theme_park_nftengine.Gate.RideScan.{scan, require_bound, publish_scan_event, append_event}
use theme_park_nftengine.Redis.Methods.{get_binding-Hoare}
use theme_park_nftengine.Redis.Commands.{get, set_nx, get_key}
use theme_park_nftengine.Redis.Client.{mark_qr_used, get_binding, get_wristband_grace}

abbrev pub Early : State → Error → State → Type 0
Early s₀ e s = (s ≡ s₀) ⊎ Late e

-- What a stage that has changed nothing, or may have gone on, guarantees.
module _ (s₀ : State) where
  -- The state is still the first one.
  abbrev pub Same : State → Type 0
  Same s = s ≡ s₀

  late :
      {A : Type 0} {P : State → Type 0} (m : M A) → Lates m → Hoare P m (λ _ _. Unit {0}) (Early s₀)
  late m h =
      Hoare-weaken _ (Hoare-consequence {E' = Early s₀} m h (λ _ _ _. tt) (λ _ _ late. inr late))
        (λ _ _. tt)

  verified_or : (r : Result Bool) → Hoare Same (require_verified r) (λ _. Same) (Early s₀)
  verified_or (ok true) = Hoare-pure tt (λ s same. same)
  verified_or (ok false) = Hoare-raise _ (λ s same. inl same)
  verified_or (err e) = Hoare-raise _ (λ s same. inl same)

  owner_or : (ticket_id : String) → Hoare Same (ticket_owner_email ticket_id) (λ _. Same) (Early s₀)
  owner_or ticket_id =
      Hoare-consequence _ (of_Keeps _ (owner_query-Keeps ticket_id)) (λ _ s same. same)
        (λ _ s same. inl same)

  -- The mark of a token, set for the first time or left.
  marked_or :
      (cfg : RedisConfig) (uuid : String)
      → Hoare Same (mark_qr_used cfg uuid) (λ b s. (b ≡ true) ⊎ Same s) (λ e _. Late e)
  unfolding mark_qr_used set_nx is_gate
  marked_or cfg uuid =
      Hoare-catch {F = λ e _. Late e} _ _ _
        (Hoare-call Backend.redis _
          (λ s same. elim (Option-cases (get s (qr uuid))) [
            | inl absent ↦ rw (absent, set_nx) (inl refl)
            | inr (e, present) ↦ rw (present, set_nx) (inr same)
          ])
          (λ s _ _ g _. refl) (λ s _ _ g _. refl))
        (λ b. Hoare-pure b (λ s h. h)) (λ e. Hoare-raise _ (λ s h g p. h g p))

  first_or :
      (b : Bool) → Hoare (λ s. (b ≡ true) ⊎ Same s) (require_first b) (λ _ _. Unit {0}) (Early s₀)
  first_or true = Hoare-pure tt (λ _ _. tt)
  first_or false =
      Hoare-raise _ (λ s h. elim h [ inl e ↦ absurd (ground arith) | inr same ↦ inl same ])

  pub bind-Early :
      (hmac : String → String → String) (gate : GateConfig) (cfg : RedisConfig) (req : BindRequest)
      → Hoare Same (bind hmac gate cfg req) (λ _ _. Unit {0}) (Early s₀)
  unfolding bind is_gate
  bind-Early hmac gate cfg req =
      Hoare-bind _ _ (Hoare-reads {Q = λ _. Same} _ (λ s same. same)) λ now.
        Hoare-bind _ _ (verified_or _) λ _. Hoare-bind _ _ (owner_or req.ticket_id) λ email.
          Hoare-bind _ _
            (Hoare-catch {F = λ e _. Late e} _ _ _ (marked_or cfg req.qr_uuid)
              (λ b. Hoare-pure b (λ s h. h)) (λ e. Hoare-raise _ (λ s h. inr (λ g p. h g p))))
            λ first. Hoare-bind _ _ (first_or first) (λ _. late _ (link-Late req email))

  -- The binding of a wristband is read first.
  found_or :
      {A : Type 0} (uid : String) (f : Option WristbandBinding → M A)
      → ((o : Option WristbandBinding) → Hoare Same (f o) (λ _ _. Unit {0}) (Early s₀))
      → Hoare Same (wrapping "get binding" (get_binding uid) >>= f) (λ _ _. Unit {0}) (Early s₀)
  found_or uid f h =
      Hoare-bind _ _
        (Hoare-consequence _ (Hoare-wrapping {E = Same} _ _ (get_binding-Hoare Same uid))
          (λ _ s q. q.0) (λ _ s same. inl same))
        h

  binding_or : (o : Option WristbandBinding) → Hoare Same (or_no_binding o) (λ _. Same) (Early s₀)
  binding_or none = Hoare-raise _ (λ s same. inl same)
  binding_or (some b) = Hoare-pure b (λ s same. same)

  pub nfc_check-Early :
      (check : String → Option Error) (cfg : RedisConfig) (uid : String)
      → Hoare Same (nfc_check check cfg uid) (λ _ _. Unit {0}) (Early s₀)
  unfolding nfc_check get_wristband_grace get_key evaluate
  nfc_check-Early check cfg uid =
      Hoare-bind {R = λ _. Same} _ _
        (Hoare-consequence _
          (Hoare-wrapping {Q = λ _. Same} {E = Same} _ _
            (Hoare-call Backend.redis _ (λ s same. same) (λ s _ same. same) (λ s _ same. same)))
          (λ _ _ same. same) (λ _ _ same. inl same))
        (λ o. replayed_or (cached_decision o))
    where
      replayed_or :
          (o : Option NfcDecision)
          → Hoare Same (replay_or_evaluate check cfg uid o) (λ _ _. Unit {0}) (Early s₀)
      replayed_or (some d) = Hoare-pure _ (λ _ _. tt)
      replayed_or none =
          found_or uid _ λ o. Hoare-bind _ _ (binding_or o) λ b. late _ (decide-Late cfg uid b _)

  pub reset-Early : (uid : String) → Hoare Same (reset uid) (λ _ _. Unit {0}) (Early s₀)
  unfolding reset
  reset-Early uid = found_or uid _ λ o. Hoare-bind _ _ (binding_or o) λ b. late _ (
      Lates-bind _ _ (Lates-wrapping _ _ (delete_binding-Late uid))
        λ _. Lates-bind _ _ (Lates-tried _) λ _. Lates-bind _ _ (Lates-tried _) (λ _. Lates-pure _))

  bound_or : (status : BindingStatus) → Hoare Same (require_bound status) (λ _. Same) (Early s₀)
  bound_or bound = Hoare-pure tt (λ s same. same)
  bound_or binding = Hoare-raise _ (λ s same. inl same)

  pub scan-Early :
      (has_db : Bool) (trace uid ride : String)
      → Hoare Same (scan has_db trace uid ride) (λ _ _. Unit {0}) (Early s₀)
  unfolding scan publish_scan_event append_event
  scan-Early has_db trace uid ride = found_or uid _ λ o. Hoare-bind _ _ (binding_or o) λ b.
      Hoare-bind _ _ (bound_or b.status) λ _.
        Hoare-bind _ _ (Hoare-reads {Q = λ _. Same} _ (λ s same. same)) λ now. late _ (
          Lates-bind _ _ (Lates-wrapping _ _ (Lates-call _ _ (λ s. tt)))
            λ _. Lates-bind _ _ (Lates-tried _) (λ _. Lates-pure _))
