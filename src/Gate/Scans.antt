-- ===== src/Gate/Scans.antt =====
-- What a scan at a ride does: internal/gate/ride_scan.go.
use theme_park_nftengine.Prelude.{
  ℕ, String, ◌≡◌, refl, Bool, Option, none, some, ◌⊎◌, inl, inr, [], ◌∷◌, ◌++◌, ap,
}
use theme_park_nftengine.Models.{WristbandBinding, BindingStatus, binding, bound}
use theme_park_nftengine.World.{State, World, Topics, Backend}
use theme_park_nftengine.World.Hoare.{
  Hoare, Hoare-bind, Hoare-call, Hoare-catch, Hoare-pure, Hoare-raise, Hoare-reads, Hoare-wrapping,
  Hoare-if, Hoare-consequence, Post-both,
}
use theme_park_nftengine.Redis.Methods.{Held, Found, get_binding-Hoare}
use theme_park_nftengine.Gate.Tickets.{redeem}
use theme_park_nftengine.Gate.Binding.{or_no_binding}
use theme_park_nftengine.Gate.RideScan.{
  scan, require_bound, event_of, publish_scan_event, append_event, mark_ticket_used,
}

module _ (has_db : Bool) (trace uid ride : String) (s₀ : State) where
  -- Redis, the time and the topics are as they were.
  abbrev Before : State → Type 0
  Before s = (s.redis ≡ s₀.redis) × (s.now ≡ s₀.now) × (s.topics ≡ s₀.topics)

  -- The wristband was bound, and its event was appended.
  abbrev pub Published : State → Type 0
  Published s =
      (b : WristbandBinding) × Held uid b s₀
      × (b.status ≡ bound)
      × (s.topics.ride_scans ≡ s₀.topics.ride_scans ++ event_of b ride trace s₀.now ∷ [])

  abbrev pub Outcome : State → Type 0
  Outcome s = (s.redis ≡ s₀.redis) × ((s.topics.ride_scans ≡ s₀.topics.ride_scans) ⊎ Published s)

  quiet : (s : State) → Before s → Outcome s
  quiet s p = (p.0, inl (ap (λ (t : Topics). t.ride_scans) p.2))

  or_no_binding-Hoare :
      (o : Option WristbandBinding)
      → Hoare
          (λ s. Before s × Found uid o s)
          (or_no_binding o)
          (λ b s. Before s × Held uid b s)
          (λ _ s. Outcome s)
  or_no_binding-Hoare none = Hoare-raise _ (λ s h. quiet s h.0)
  or_no_binding-Hoare (some b) = Hoare-pure b (λ s h. h)

  require_bound-Hoare :
      (b : WristbandBinding) (status : BindingStatus)
      → b.status ≡ status
      → Hoare
          (λ s. Before s × Held uid b s)
          (require_bound status)
          (λ _ s. Before s × Held uid b s × (b.status ≡ bound))
          (λ _ s. Outcome s)
  require_bound-Hoare b bound e = Hoare-pure tt (λ s h. (h.0, h.1, e))
  require_bound-Hoare b binding e = Hoare-raise _ (λ s h. quiet s h.0)

  -- The binding of the state before the scan.
  Held-Before : (b : WristbandBinding) (s : State) → Before s → Held uid b s → Held uid b s₀
  Held-Before b s p (e, q, v) = (e, rw (← p.0, ← p.1) q, v)

  appended :
      (b : WristbandBinding) (now : ℕ) (s : State)
      → Before s
      → Held uid b s
      → b.status ≡ bound
      → now ≡ s₀.now
      → Outcome (append_event (event_of b ride trace now) s).1
  unfolding append_event
  appended b now s p h e n = (p.0, inr (b, Held-Before b s p h, e, rw (p.2, n) refl))

  publish-Hoare :
      (b : WristbandBinding) (now : ℕ)
      → Hoare
          (λ s. (Before s × Held uid b s × (b.status ≡ bound)) × (now ≡ s₀.now))
          (publish_scan_event (event_of b ride trace now))
          (λ _ s. Outcome s)
          (λ _ s. Outcome s)
  unfolding publish_scan_event append_event
  publish-Hoare b now =
      Hoare-call Backend.kafka _ (λ s h. appended b now s h.0.0 h.0.1 h.0.2 h.1)
        (λ s _ h. quiet s h.0.0) (λ s _ h. appended b now s h.0.0 h.0.1 h.0.2 h.1)

  mark-Hoare :
      (id : String)
      → Hoare Outcome (mark_ticket_used has_db id) (λ _ s. Outcome s) (λ _ s. Outcome s)
  unfolding mark_ticket_used redeem
  mark-Hoare id =
      Hoare-if has_db _ _
        (λ _.
          Hoare-wrapping {E = Outcome} _ _
            (Hoare-call Backend.postgres _ (λ s h. h) (λ s _ h. h) (λ s _ h. h)))
        (λ _. Hoare-pure tt (λ s h. h))

  scan-Hoare : Hoare Before (scan has_db trace uid ride) (λ _ s. Outcome s) (λ _ s. Outcome s)
  unfolding scan
  scan-Hoare =
      Hoare-bind _ _
        (Hoare-consequence _ (Hoare-wrapping {E = Before} _ _ (get_binding-Hoare Before uid))
          (λ o s h. h) (λ e s h. quiet s h))
        λ found. Hoare-bind _ _ (or_no_binding-Hoare found) λ b.
          Hoare-bind _ _ (require_bound-Hoare b b.status refl) λ _.
            Hoare-bind _ _
              (Hoare-reads
                {Q = λ now s. (Before s × Held uid b s × (b.status ≡ bound)) × (now ≡ s₀.now)} _
                (λ s h. (h, h.0.1)))
              λ now. Hoare-bind _ _ (Hoare-wrapping {E = Outcome} _ _ (publish-Hoare b now)) λ _.
                Hoare-bind _ _
                  (Hoare-catch {R = λ _. Outcome} {F = λ _. Outcome} _ _ _ (mark-Hoare b.ticket_id)
                    (λ _. Hoare-pure tt (λ s h. h)) (λ _. Hoare-pure tt (λ s h. h)))
                  λ _. Hoare-pure _ (λ s h. h)

-- A scan changes neither a binding nor any other key of Redis, and publishes one event at most: that of
-- a wristband whose binding is BOUND, with the ticket and the e-mail of the binding. This holds whatever
-- calls fail, and on the error paths too.
pub scan-Outcome :
    (has_db : Bool) (trace uid ride : String) (w : World)
    → Outcome has_db trace uid ride w.st (scan has_db trace uid ride w).1.st
scan-Outcome has_db trace uid ride w =
    Post-both _ _ (scan has_db trace uid ride w).0
      ((scan-Hoare has_db trace uid ride w.st).run w (refl, refl, refl))
