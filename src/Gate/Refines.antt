-- ===== src/Gate/Refines.antt =====
-- The gate of internal/gate and cmd/gate/main.go as an implementation of the map of Gate.Abstract.
use theme_park_nftengine.Prelude.{
  ℕ, ◌+◌, ◌/◌, String, ◌≡◌, refl, Option, none, some, List, inl, inr, arith, ap, sym, ◌∙◌,
  Option-cases, eq_refl, fun_ext, [], ◌∷◌,
}
use theme_park_nftengine.Models.{WristbandBinding, BindingStatus, binding}
use theme_park_nftengine.Config.{RedisConfig}
use theme_park_nftengine.Keyspace.{Value, NfcDecision, peek-later}
use theme_park_nftengine.Keyspace.Keys.{Key, bind_wristband, qr, gracewb}
use theme_park_nftengine.World.{State, World, M, Backend, call, wrapping}
use theme_park_nftengine.World.Hoare.{
  Hoare, Hoare-bind, Hoare-call, Hoare-raise, Hoare-wrapping, Hoare-consequence, Keeps, Keeps-of,
  Keeps-call, Keeps-pure, Keeps-raise, Keeps-reads, Keeps-bind, Keeps-catch,
}
use theme_park_nftengine.Redis.Commands.{get, set_ex, set_nx, get_key, del_key, set_keep_ttl}
use theme_park_nftengine.Redis.Client.{
  mark_qr_used, bind_wristband_to, get_binding, set_binding_status, write_status, delete_binding,
  set_wristband_grace, get_wristband_grace, clear_wristband_grace, binding_expiry,
}
use theme_park_nftengine.Redis.Keeps.{HasLinks, wristbands, Apart}
use theme_park_nftengine.Redis.Methods.{Held, Found, get_binding-Hoare, with_status, status_written}
use theme_park_nftengine.Gate.Keeps.{IsKept, bind-Keeps, nfc_check-Keeps, reset-Keeps, scan-Keeps}
use theme_park_nftengine.Gate.History.{
  Gate, Request, binds, checks, resets, scans, waits, step, step-HasLinks,
}
use theme_park_nftengine.Gate.Overlap.{
  Method, to_bind, to_set_status, to_delete, to_mark, to_set_grace, to_clear_grace, Event, serves,
  sends, send, happen, overlapped, send-HasLinks,
}
use theme_park_nftengine.Gate.Abstract.{
  LinkMap, set_link, MayLink, MayUnlink, MayForget, Serves, Sends, Follows, ends, next,
}
use theme_park_nftengine.Gate.LinkMoves.{
  links_of, Refined, Grows, Shrinks, assign-Refined, script-links, delete-links, status-links,
  script-HasLinks, delete-HasLinks, later_ticket,
}

-- A statement about the links, kept by what changes none.
module _ (P : LinkMap → Type 0) where
  write_status-Refined :
      (uid : String) (status : BindingStatus) (o : Option WristbandBinding)
      → Hoare
          (λ s. (Refined P) s × Found uid o s)
          (write_status uid status o)
          (λ _. (Refined P))
          (λ _. (Refined P))
  unfolding set_keep_ttl
  write_status-Refined uid status none = Hoare-raise _ (λ s h. h.0)
  write_status-Refined uid status (some b) = Hoare-wrapping {E = (Refined P)} _ _ (
      Hoare-call Backend.redis _ (λ s h. written s h.0 h.1) (λ s _ h. h.0)
        (λ s _ h. written s h.0 h.1))
    where
      written :
          (s : State) → (Refined P) s → Held uid b s → (Refined P) (with_status uid status b s)
      written s h held =
          (status_written uid status b s h.0 held, status-links P s uid status b held h.1)

  wrapping-Refined :
      {A : Type 0} (c : String) (n : M A) → Keeps (Refined P) n → Keeps (Refined P) (wrapping c n)
  wrapping-Refined c n h = Keeps-catch n _ _ h (λ a. Keeps-pure a) (λ e. Keeps-raise _)

  set_nx-Refined :
      (k : Key) (v : Value) (n : ℕ)
      → Apart k
      → Keeps (Refined P) (call Backend.redis (set_nx k v n))
  unfolding set_nx
  set_nx-Refined k v n apart = Keeps-call Backend.redis _ λ s h. elim (Option-cases (get s k)) [
    | inl absent ↦ rw (absent, set_nx) (assign-Refined P s k _ apart h)
    | inr (e, present) ↦ rw (present, set_nx) h
  ]

  bind_wristband_to-Refined :
      (uid ticket_id email : String)
      → Grows P uid ticket_id
      → Keeps (Refined P) (bind_wristband_to uid ticket_id email)
  unfolding bind_wristband_to
  bind_wristband_to-Refined uid ticket_id email grow = Keeps-bind _ _ (Keeps-reads _) λ now.
      Keeps-catch _ _ _
        (Keeps-call Backend.redis _ λ s h. (
          script-HasLinks s (made uid ticket_id email now) (binding_expiry now) h.0,
          script-links P s (made uid ticket_id email now) (binding_expiry now) grow h.0 h.1,
        ))
        (λ a. Keeps-pure a) (λ e. Keeps-raise _)
    where
      made : String → String → String → ℕ → WristbandBinding
      made uid ticket_id email now = record {
        wristband_uid = uid;
        ticket_id = ticket_id;
        user_email = email;
        status = binding;
        bound_at = now / 1000;
      }

  get_binding-Refined : (uid : String) → Keeps (Refined P) (get_binding uid)
  get_binding-Refined uid =
      Keeps-of _
        (Hoare-consequence _ (get_binding-Hoare (Refined P) uid) (λ o s h. h.0) (λ e s h. h))

  set_binding_status-Refined :
      (uid : String) (status : BindingStatus) → Keeps (Refined P) (set_binding_status uid status)
  unfolding set_binding_status
  set_binding_status-Refined uid status =
      Keeps-of _ (
        Hoare-bind _ _ (get_binding-Hoare (Refined P) uid) (λ o. write_status-Refined uid status o))

  delete_binding-Refined : (uid : String) → Shrinks P uid → Keeps (Refined P) (delete_binding uid)
  unfolding delete_binding
  delete_binding-Refined uid shrink = wrapping-Refined _ _ (
      Keeps-call Backend.redis _
        (λ s h. (delete-HasLinks s uid h.0, delete-links P s uid shrink h.0 h.1)))

  mark-Refined : (cfg : RedisConfig) (uuid : String) → Keeps (Refined P) (mark_qr_used cfg uuid)
  unfolding mark_qr_used
  mark-Refined cfg uuid =
      wrapping-Refined _ _ (set_nx-Refined (qr uuid) _ _ ((λ _. refl), (λ _. refl)))

  Refined-kept : (cfg : RedisConfig) → IsKept cfg (Refined P)
  unfolding get_wristband_grace get_key
  Refined-kept cfg = record {
    by_tables = λ s t h. h;
    by_topics = λ s t h. h;
    by_get_binding = get_binding-Refined;
    by_set_status = set_binding_status-Refined;
    by_mark_qr = mark-Refined cfg;
    by_get_grace = λ uid. Keeps-call Backend.redis _ (λ s h. h);
  }

  grace-Refined :
      (cfg : RedisConfig) (uid : String) (d : NfcDecision)
      → Keeps (Refined P) (set_wristband_grace cfg uid d)
  unfolding set_wristband_grace set_ex
  grace-Refined cfg uid d =
      Keeps-call Backend.redis _
        (λ s h. assign-Refined P s (gracewb uid) _ ((λ _. refl), (λ _. refl)) h)

  clear-Refined : (uid : String) → Keeps (Refined P) (clear_wristband_grace uid)
  unfolding clear_wristband_grace del_key
  clear-Refined uid =
      Keeps-call Backend.redis _
        (λ s h. assign-Refined P s (gracewb uid) none ((λ _. refl), (λ _. refl)) h)

-- A new link is the one that is allowed, or there is one already.
link-Grows : (m : LinkMap) (uid ticket_id : String) → Grows (MayLink m uid ticket_id) uid ticket_id
link-Grows m uid ticket_id n (inl same) idle free = inr (
  ap (λ k. k uid) (sym same) ∙ idle,
  (λ v p. free v (ap (λ k. k v) same ∙ p)),
  ap (λ k. set_link k uid (some ticket_id)) same,
)
link-Grows m uid ticket_id n (inr (_, _, made)) idle free =
    absurd (free uid (ap (λ k. k uid) made ∙ rw (eq_refl uid) refl))

unlink-Shrinks : (m : LinkMap) (uid : String) → Shrinks (MayUnlink m uid) uid
unlink-Shrinks m uid n (inl same) = inr (ap (λ k. set_link k uid none) same)
unlink-Shrinks m uid n (inr same) =
    inr (ap (λ k. set_link k uid none) same ∙ fun_ext (λ v. ground arith))

-- Time lets links end.
time_forgets :
    (s : State) (n : ℕ) → MayForget (links_of s) (links_of (record s { now = s.now + n }))
time_forgets s n u =
    rw (peek-later s.now (s.now + n) s.redis (bind_wristband u) (omega arith))
      (later_ticket (s.now + n) (wristbands s u))

module _ (g : Gate) (w : World) (h : HasLinks w.st) where
  -- The links are those before.
  abbrev Same : LinkMap → Type 0
  Same n = n ≡ links_of w.st

  serve_refines : (r : Request) → Serves (links_of w.st) r (links_of (step g r w).st)
  unfolding step
  serve_refines (binds req) =
      let P : LinkMap → Type 0 = MayLink (links_of w.st) req.wristband_uid req.ticket_id in
      ((bind-Keeps (Refined-kept P g.redis) g.hmac g.settings req
          (λ email. bind_wristband_to-Refined P _ _ email (link-Grows _ _ _))).at
        w (h, inl refl)).1
  serve_refines (checks uid) =
      ((nfc_check-Keeps (Refined-kept Same g.redis) g.check uid
          (λ d. grace-Refined Same g.redis uid d)).at
        w (h, refl)).1
  serve_refines (resets uid) =
      let P : LinkMap → Type 0 = MayUnlink (links_of w.st) uid in
      ((reset-Keeps (Refined-kept P g.redis) uid (delete_binding-Refined P uid (unlink-Shrinks _ _))
          (clear-Refined P uid)).at
        w (h, inl refl)).1
  serve_refines (scans trace uid ride) =
      ((scan-Keeps (Refined-kept Same g.redis) g.has_db trace uid ride).at w (h, refl)).1
  serve_refines (waits n) = time_forgets w.st n

  send_refines : (k : Method) → Sends (links_of w.st) k (links_of (send g.redis k w).st)
  unfolding send
  send_refines (to_bind uid ticket_id email) =
      ((bind_wristband_to-Refined (MayLink (links_of w.st) uid ticket_id) uid ticket_id email
          (link-Grows _ _ _)).at
        w (h, inl refl)).1
  send_refines (to_set_status uid status) =
      ((set_binding_status-Refined Same uid status).at w (h, refl)).1
  send_refines (to_delete uid) =
      ((delete_binding-Refined (MayUnlink (links_of w.st) uid) uid (unlink-Shrinks _ _)).at w
        (h, inl refl)).1
  send_refines (to_mark uuid) = ((mark-Refined Same g.redis uuid).at w (h, refl)).1
  send_refines (to_set_grace uid d) = ((grace-Refined Same g.redis uid d).at w (h, refl)).1
  send_refines (to_clear_grace uid) = ((clear-Refined Same uid).at w (h, refl)).1

-- The gate refines the map of links, event by event. From a state whose two indices agree, under any calls
-- that fail before or after their effect, after any sequence of whole requests, of time that passes, and of
-- single methods of the Redis client (with `SetBindingStatus` as one unit), the tickets of the live wristbands
-- are what the map becomes by one change for each event in their order: a bind, or the method that binds,
-- does nothing or links its own wristband and ticket, which both have no link; a reset, or the method that
-- deletes, does nothing or ends the link of its own wristband; a check, a scan and the other methods do
-- nothing; and time may end links, while none begins or changes.
pub overlapped_refines :
    (g : Gate) (es : List Event) (w : World)
    → HasLinks w.st
    → Follows es (links_of w.st) (links_of (overlapped g es w).st)
unfolding overlapped happen
overlapped_refines g [] w h = ends _
overlapped_refines g (serves r ∷ es) w h =
    next (serves r) es _ _ _ (serve_refines g w h r)
      (overlapped_refines g es (step g r w) (step-HasLinks g r w h))
overlapped_refines g (sends k ∷ es) w h =
    next (sends k) es _ _ _ (send_refines g w h k)
      (overlapped_refines g es (send g.redis k w) (send-HasLinks g.redis k w h))
