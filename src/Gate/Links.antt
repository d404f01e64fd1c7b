-- ===== src/Gate/Links.antt =====
-- What a bind that succeeds leaves behind: internal/gate/binding.go.
use theme_park_nftengine.Prelude.{
  ℕ, ◌*◌, ◌/◌, ◌≤◌, String, ◌≡◌, refl, Bool, true, false, Option, none, some, arith, eq_refl,
  Option-cases, inl, inr,
}
use theme_park_nftengine.Models.{WristbandBinding, binding, TicketStatus, pending_entry}
use theme_park_nftengine.Config.{RedisConfig}
use theme_park_nftengine.Keyspace.{Entry, plain, binding_json, peek-assign}
use theme_park_nftengine.Keyspace.Keys.{qr}
use theme_park_nftengine.World.{State, World, Backend, ok, err, Result}
use theme_park_nftengine.World.Hoare.{
  Post, Hoare, Hoare-bind, Hoare-call, Hoare-catch, Hoare-pure, Hoare-raise, Hoare-reads,
  Hoare-wrapping, Hoare-consequence, Hoare-value, keeping, Hoare-fact, Keeps, Keeps-call,
  Keeps-catch, Keeps-pure, Keeps-raise,
}
use theme_park_nftengine.Redis.Commands.{get, bind_script, set_nx}
use theme_park_nftengine.Redis.Client.{binding_expiry, mark_qr_used, bind_wristband_to}
use theme_park_nftengine.Redis.Keeps.{wristbands, tickets}
use theme_park_nftengine.Gate.Tickets.{set_ticket_status, update_status}
use theme_park_nftengine.Gate.Binding.{
  BindRequest, WristbandResponse, link, bind, require_verified, require_first, token_of,
}
use theme_park_nftengine.Gate.Qr.{verify_qr_otp}
use theme_park_nftengine.Gate.Keeps.{owner_query-Keeps}
use theme_park_nftengine.Gate.History.{Gate}
use theme_park_nftengine.Gate.Unlinks.{Unlinked, tried}

-- The binding that a bind makes at a time.
abbrev pub made_binding : String → String → String → ℕ → WristbandBinding
made_binding uid ticket_id email n = record {
  wristband_uid = uid;
  ticket_id = ticket_id;
  user_email = email;
  status = binding;
  bound_at = n / 1000;
}

-- The two keys of that link, living to the end of the next day.
abbrev pub LinkedTo : String → String → String → ℕ → State → Type 0
LinkedTo uid ticket_id email n s =
    (wristbands s uid
      ≡ some (record {
        value = binding_json (made_binding uid ticket_id email n);
        expires = some (binding_expiry n * 1000);
      }))
    × (tickets s ticket_id
        ≡ some (record { value = plain uid; expires = some (binding_expiry n * 1000) }))

-- A link made today lives.
pub expiry_ahead : (n : ℕ) → n ≤ binding_expiry n * 1000
unfolding binding_expiry
expiry_ahead n = omega arith

-- The two index entries before a bind, and the time.
abbrev Here : String → String → ℕ → Option Entry → Option Entry → State → Type 0
Here uid ticket_id n o o' s = (s.now ≡ n) × (wristbands s uid ≡ o) × (tickets s ticket_id ≡ o')

module _ (uid ticket_id email : String) (n : ℕ) (o o' : Option Entry) where
  abbrev Made : State → Type 0
  Made s = (o ≡ none) × (o' ≡ none) × LinkedTo uid ticket_id email n s

  script-Made :
      (s : State)
      → Here uid ticket_id n o o' s
      → Post
          (λ _ s. Made s)
          (λ _ _. Unit {0})
          (bind_script uid ticket_id (made_binding uid ticket_id email n) (binding_expiry n) s).0
          (bind_script uid ticket_id (made_binding uid ticket_id email n) (binding_expiry n) s).1
  unfolding bind_script
  script-Made s (now, here, there) = elim (Option-cases (tickets s ticket_id)) [
    | inr (e, present) ↦ rw (present, bind_script) tt
    | inl free ↦
        rw (free, bind_script)
          (elim (Option-cases (wristbands s uid)) [
            | inr (e, present) ↦ rw present tt
            | inl idle ↦ rw idle (
              cc,
              cc,
              (
                rw (peek-assign, peek-assign, eq_refl uid) (ground (arith, expiry_ahead n)),
                rw (peek-assign, eq_refl ticket_id) (ground (arith, expiry_ahead n)),
              ),
            )
          ])
  ]

  bind_wristband_to-Made :
      Hoare
        (Here uid ticket_id n o o')
        (bind_wristband_to uid ticket_id email)
        (λ _ s. Made s)
        (λ _ _. Unit {0})
  unfolding bind_wristband_to
  bind_wristband_to-Made =
      Hoare-bind _ _
        (Hoare-reads {Q = λ now s. (now ≡ n) × Here uid ticket_id n o o' s} _ (λ s h. (h.0, h)))
        λ now. Hoare-fact _ λ same. rw same (
          Hoare-catch {F = λ _ _. Unit {0}} _ _ _
            (Hoare-call Backend.redis _ (λ s h. script-Made s h) (λ _ _ _. tt) (λ _ _ _. tt))
            (λ a. Hoare-pure a (λ s h. h)) (λ e. Hoare-raise _ (λ _ _. tt)))

  status-LinkedTo : (t : TicketStatus) → Keeps (λ s. Made s) (set_ticket_status ticket_id t)
  unfolding set_ticket_status update_status
  status-LinkedTo t = Keeps-call Backend.postgres _ (λ s h. h)

-- The mark of a token leaves the indices.
mark-Here :
    (cfg : RedisConfig) (uuid uid ticket_id : String) (n : ℕ) (o o' : Option Entry)
    → Keeps (Here uid ticket_id n o o') (mark_qr_used cfg uuid)
unfolding mark_qr_used set_nx
mark-Here cfg uuid uid ticket_id n o o' =
    Keeps-catch _ _ _
      (Keeps-call Backend.redis _ λ s h. elim (Option-cases (get s (qr uuid))) [
        | inl absent ↦ rw (absent, set_nx) (h.0, rw peek-assign h.1, rw peek-assign h.2)
        | inr (e, present) ↦ rw (present, set_nx) h
      ])
      (λ a. Keeps-pure a) (λ e. Keeps-raise _)

-- The token passed, and the rest goes on from there.
accepted :
    (P : State → Type 0) (r : Result Bool)
    → Hoare P (require_verified r) (λ _ s. (r ≡ ok true) × P s) (λ _ _. Unit {0})
accepted P (ok true) = Hoare-pure tt (λ s p. (refl, p))
accepted P (ok false) = Hoare-raise _ (λ _ _. tt)
accepted P (err e) = Hoare-raise _ (λ _ _. tt)

first_use : (P : State → Type 0) (b : Bool) → Hoare P (require_first b) (λ _. P) (λ _ _. Unit {0})
first_use P true = Hoare-pure tt (λ s p. p)
first_use P false = Hoare-raise _ (λ _ _. tt)

module _ (g : Gate) (req : BindRequest) (n : ℕ) (o o' : Option Entry) where
  -- What a bind that returns `r` has found, and has made.
  abbrev BindOutcome : WristbandResponse → State → Type 0
  BindOutcome r s =
      (verify_qr_otp g.hmac g.settings n (token_of req) ≡ ok true)
      × (o ≡ none)
      × (o' ≡ none)
      × LinkedTo req.wristband_uid req.ticket_id r.user_email n s
      × (r.status ≡ "BINDING")

  abbrev There : State → Type 0
  There = Here req.wristband_uid req.ticket_id n o o'

  link-Hoare :
      (email : String)
      → Hoare There
          (link req email)
          (λ r s.
            Made req.wristband_uid req.ticket_id r.user_email n o o' s × (r.status ≡ "BINDING"))
          (λ _ _. Unit {0})
  unfolding link
  link-Hoare email =
      Hoare-bind _ _
        (Hoare-catch {F = λ _ _. Unit {0}} _ _ _
          (bind_wristband_to-Made req.wristband_uid req.ticket_id email n o o')
          (λ a. Hoare-pure a (λ s h. h)) (λ e. Hoare-raise _ (λ _ _. tt)))
        λ _.
          Hoare-bind _ _
            (keeping _ (
              tried _ (status-LinkedTo req.wristband_uid req.ticket_id email n o o' pending_entry)))
            λ _. Hoare-pure _ (λ s h. (h, refl))

  bind-Hoare : Hoare There (bind g.hmac g.settings g.redis req) BindOutcome (λ _ _. Unit {0})
  unfolding bind
  bind-Hoare =
      Hoare-bind _ _ (Hoare-reads {Q = λ now s. (now ≡ n) × There s} _ (λ s h. (h.0, h))) λ now.
        Hoare-fact _ λ same. rw same (
          Hoare-bind _ _ (accepted There _) λ _. Hoare-fact _ λ good.
            Hoare-bind _ _ (keeping _ (owner_query-Keeps req.ticket_id)) λ email.
              Hoare-bind _ _
                (Hoare-wrapping {E = λ _. Unit {0}} _ _ (
                  keeping _ (mark-Here g.redis req.qr_uuid req.wristband_uid req.ticket_id n o o')))
                λ first. Hoare-bind _ _ (first_use There first) λ _.
                  Hoare-consequence _ (link-Hoare email) (λ r s h. (good, h.0.0, h.0.1, h.0.2, h.1))
                    (λ _ _ _. tt))

-- A bind that succeeds had a verified token, a wristband and a ticket that were both free, and leaves
-- both keys of their link, for the owner's e-mail, living to the end of the next day, with the status
-- BINDING. Calls of the backends may fail before or after their effect.
pub bind_links :
    (g : Gate) (req : BindRequest) (w : World) (r : WristbandResponse)
    → (bind g.hmac g.settings g.redis req w).0 ≡ ok r
    → (verify_qr_otp g.hmac g.settings w.st.now (token_of req) ≡ ok true)
      × Unlinked req.wristband_uid req.ticket_id w.st
      × LinkedTo req.wristband_uid req.ticket_id r.user_email w.st.now
          (bind g.hmac g.settings g.redis req w).1.st
      × (r.status ≡ "BINDING")
bind_links g req w r done =
    let h = Hoare-value _ (bind-Hoare g req w.st.now _ _) w r (refl, refl, refl) done in
    (h.0, (h.1, h.2), h.3, h.4)
