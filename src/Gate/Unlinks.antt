-- ===== src/Gate/Unlinks.antt =====
-- What a reset that succeeds leaves behind: internal/gate/binding.go.
use theme_park_nftengine.Prelude.{String, ◌≡◌, refl, ap, Option, none, some, eq_refl}
use theme_park_nftengine.Models.{WristbandBinding, TicketStatus, claimed}
use theme_park_nftengine.Keyspace.{peek-assign}
use theme_park_nftengine.World.{State, World, M, Backend, ok, best_effort}
use theme_park_nftengine.World.Hoare.{
  Hoare, Hoare-bind, Hoare-call, Hoare-pure, Hoare-raise, Hoare-wrapping, Hoare-consequence,
  Hoare-value, keeping, Hoare-fact, Keeps, Keeps-call, Keeps-catch, Keeps-pure,
}
use theme_park_nftengine.Redis.Commands.{del_key, delete_binding_script}
use theme_park_nftengine.Redis.Client.{delete_binding, clear_wristband_grace}
use theme_park_nftengine.Redis.Keeps.{wristbands, tickets}
use theme_park_nftengine.Redis.Methods.{Held, Found, get_binding-Hoare}
use theme_park_nftengine.Gate.Tickets.{set_ticket_status, update_status}
use theme_park_nftengine.Gate.Binding.{WristbandResponse, reset, or_no_binding}

-- Neither the wristband nor the ticket is linked.
abbrev pub Unlinked : String → String → State → Type 0
Unlinked uid ticket_id s = (wristbands s uid ≡ none) × (tickets s ticket_id ≡ none)

pub tried : {A : Type 0} {I : State → Type 0} (m : M A) → Keeps I m → Keeps I (best_effort m)
tried m h = Keeps-catch m _ _ h (λ a. Keeps-pure _) (λ e. Keeps-pure _)

module _ (uid : String) (b : WristbandBinding) where
  Held-unique : (c : WristbandBinding) (s : State) → Held uid b s → Held uid c s → c ≡ b
  Held-unique c s (d, p, v) (e, q, u) = cc

  -- The reset has found `c`.
  Found-binding :
      (o : Option WristbandBinding)
      → Hoare
          (λ s. Held uid b s × Found uid o s)
          (or_no_binding o)
          (λ c s. (c ≡ b) × Held uid b s)
          (λ _ _. Unit {0})
  Found-binding none = Hoare-raise _ (λ s h. tt)
  Found-binding (some c) = Hoare-pure c (λ s h. (Held-unique c s h.0 h.1, h.0))

  delete-Unlinked :
      Hoare
        (λ s. Held uid b s)
        (delete_binding uid)
        (λ _ s. Unlinked uid b.ticket_id s)
        (λ _ _. Unit {0})
  unfolding delete_binding delete_binding_script
  delete-Unlinked = Hoare-wrapping {E = λ _. Unit {0}} _ _ (
      Hoare-call Backend.redis _
        (λ s (e, p, v).
          rw (p, delete_binding_script)
            (rw v (
              rw (peek-assign, peek-assign, eq_refl uid) refl,
              rw (peek-assign, eq_refl b.ticket_id) refl,
            )))
        (λ _ _ _. tt) (λ _ _ _. tt))

  clear-Unlinked : Keeps (Unlinked uid b.ticket_id) (clear_wristband_grace uid)
  unfolding clear_wristband_grace del_key
  clear-Unlinked = Keeps-call Backend.redis _ (λ s h. (rw peek-assign h.0, rw peek-assign h.1))

  status-Unlinked :
      (id : String) (t : TicketStatus) → Keeps (Unlinked uid b.ticket_id) (set_ticket_status id t)
  unfolding set_ticket_status update_status
  status-Unlinked id t = Keeps-call Backend.postgres _ (λ s h. h)

  reset-Hoare :
      Hoare
        (λ s. Held uid b s)
        (reset uid)
        (λ r s. Unlinked uid b.ticket_id s × (r.ticket_id ≡ b.ticket_id) × (r.status ≡ "CLAIMED"))
        (λ _ _. Unit {0})
  unfolding reset
  reset-Hoare =
      Hoare-bind _ _
        (Hoare-wrapping {E = λ _. Unit {0}} _ _ (
          Hoare-consequence _ (get_binding-Hoare (λ s. Held uid b s) uid) (λ o s h. h)
            (λ e s h. tt)))
        λ found. Hoare-bind _ _ (Found-binding found) λ c. Hoare-fact _ λ same.
          Hoare-bind _ _ (Hoare-wrapping {E = λ _. Unit {0}} _ _ delete-Unlinked) λ _.
            Hoare-bind _ _ (keeping _ (tried _ clear-Unlinked)) λ _.
              Hoare-bind _ _ (keeping _ (tried _ (status-Unlinked c.ticket_id claimed))) λ _.
                Hoare-pure _ (λ s h. (h, ap (λ (x : WristbandBinding). x.ticket_id) same, refl))

-- A reset that succeeds takes both keys of the wristband's link out, and reports the ticket of the
-- binding, CLAIMED.
pub reset_unlinks :
    (uid : String) (b : WristbandBinding) (w : World) (r : WristbandResponse)
    → Held uid b w.st
    → (reset uid w).0 ≡ ok r
    → Unlinked uid b.ticket_id (reset uid w).1.st
      × (r.ticket_id ≡ b.ticket_id)
      × (r.status ≡ "CLAIMED")
reset_unlinks uid b w r held done = Hoare-value _ (reset-Hoare uid b) w r held done
