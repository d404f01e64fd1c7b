-- ===== src/Redis/Methods.antt =====
-- What the methods of the Redis client guarantee about the bindings.
use theme_park_nftengine.Prelude.{ℕ, ◌≤◌, String, ◌≡◌, refl, Option, none, some, fun_ext, subst₂}
use theme_park_nftengine.Models.{WristbandBinding, BindingStatus}
use theme_park_nftengine.Config.{RedisConfig}
use theme_park_nftengine.Keyspace.{
  Value, plain, binding_json, members, decision_json, NfcDecision, Entry, peek-assign, peek-later,
  peek-lives,
}
use theme_park_nftengine.Keyspace.Keys.{dedup, user_rides, bind_wristband, bind_ticket, qr, gracewb}
use theme_park_nftengine.World.{State, M, Backend, wrapping}
use theme_park_nftengine.World.Hoare.{
  Hoare, Hoare-bind, Hoare-call, Hoare-pure, Hoare-raise, Hoare-wrapping, Hoare-consequence, Keeps,
  Keeps-of, Keeps-pure, Keeps-raise, Keeps-reads, Keeps-bind, Keeps-catch,
}
use theme_park_nftengine.Redis.Commands.{get_key, set_keep_ttl}
use theme_park_nftengine.Redis.Client.{
  binding_expiry, is_duplicate, clear_dedup, add_ride_to_user_set, bind_wristband_to, get_binding,
  set_binding_status, delete_binding, mark_qr_used, set_wristband_grace, get_wristband_grace,
  clear_wristband_grace, decode_binding, write_status,
}
use theme_park_nftengine.Redis.Links.{Linked, rewrite-Linked, later-Linked}
use theme_park_nftengine.Redis.Keeps.{
  HasLinks, wristbands, set_ex-HasLinks, set_nx-HasLinks, s_add-HasLinks, expire-HasLinks,
  get_key-HasLinks, del_key-HasLinks, bind_script-HasLinks, delete_binding_script-HasLinks,
}

-- The wristband has this binding.
abbrev pub Held : String → WristbandBinding → State → Type 0
Held uid b s = (e : Entry) × (wristbands s uid ≡ some e) × (e.value ≡ binding_json b)

abbrev pub Found : String → Option WristbandBinding → State → Type 0
Found uid none s = wristbands s uid ≡ none
Found uid (some b) s = Held uid b s

abbrev Reads : (State → Type 0) → String → Option Entry → State → Type 0
Reads P uid o s = P s × (wristbands s uid ≡ o)

decode_entry-Hoare :
    (P : State → Type 0) (uid : String) (v : Value) (e : Entry)
    → e.value ≡ v
    → Hoare (Reads P uid (some e)) (decode_binding (some e)) (λ o s. P s × Found uid o s) (λ _. P)
decode_entry-Hoare P uid (binding_json b) e q =
    rw (q, decode_binding)
      (Hoare-pure (some b) (λ s h. (h.0, (record e { value = binding_json b }, h.1, refl))))
decode_entry-Hoare P uid (plain t) e q = rw (q, decode_binding) (Hoare-raise _ (λ s h. h.0))
decode_entry-Hoare P uid (decision_json d) e q = rw (q, decode_binding) (Hoare-raise _ (λ s h. h.0))
decode_entry-Hoare P uid (members m) e q = rw (q, decode_binding) (Hoare-raise _ (λ s h. h.0))

decode-Hoare :
    (P : State → Type 0) (uid : String) (o : Option Entry)
    → Hoare (Reads P uid o) (decode_binding o) (λ o s. P s × Found uid o s) (λ _. P)
decode-Hoare P uid none = Hoare-pure none (λ s h. h)
decode-Hoare P uid (some e) = decode_entry-Hoare P uid e.value e refl

-- `get_binding` returns the binding of the wristband and changes nothing.
pub get_binding-Hoare :
    (P : State → Type 0) (uid : String)
    → Hoare P (get_binding uid) (λ o s. P s × Found uid o s) (λ _. P)
unfolding get_binding get_key
get_binding-Hoare P uid =
    Hoare-bind _ _
      (Hoare-wrapping {E = P} _ _
        (Hoare-call Backend.redis _ (λ s p. (p, refl)) (λ s _ p. p) (λ s _ p. p)))
      (λ o. decode-Hoare P uid o)

-- The binding under a new status, with the time that it had.
abbrev pub with_status : String → BindingStatus → WristbandBinding → State → State
with_status uid status b s =
    (set_keep_ttl (bind_wristband uid) (binding_json (record b { status = status })) s).1

pub status_written :
    (uid : String) (status : BindingStatus) (b : WristbandBinding) (s : State)
    → HasLinks s
    → Held uid b s
    → HasLinks (with_status uid status b s)
unfolding set_keep_ttl
status_written uid status b s h (e, p, v) =
    subst₂ Linked
      (fun_ext (λ u. rw (peek-assign, p, peek-lives s.now s.redis (bind_wristband uid) e p) refl))
      (fun_ext (λ t. rw peek-assign refl))
      (rewrite-Linked uid e b (record b { status = status }) p v refl refl h)

write_status-Hoare :
    (uid : String) (status : BindingStatus) (o : Option WristbandBinding)
    → Hoare
        (λ s. HasLinks s × Found uid o s)
        (write_status uid status o)
        (λ _. HasLinks)
        (λ _. HasLinks)
unfolding set_keep_ttl
write_status-Hoare uid status none = Hoare-raise _ (λ s h. h.0)
write_status-Hoare uid status (some b) = Hoare-wrapping {E = HasLinks} _ _ (
    Hoare-call Backend.redis _ (λ s h. status_written uid status b s h.0 h.1) (λ s _ h. h.0)
      (λ s _ h. status_written uid status b s h.0 h.1))

pub set_binding_status-HasLinks :
    (uid : String) (status : BindingStatus) → Keeps HasLinks (set_binding_status uid status)
unfolding set_binding_status
set_binding_status-HasLinks uid status =
    Keeps-of _
      (Hoare-bind _ _ (get_binding-Hoare HasLinks uid) (λ o. write_status-Hoare uid status o))

-- A method that sends one command of another family.
module _ {A : Type 0} (c : String) (m : M A) where
  pub wrapping-HasLinks : Keeps HasLinks m → Keeps HasLinks (wrapping c m)
  wrapping-HasLinks h = Keeps-catch m _ _ h (λ a. Keeps-pure a) (λ e. Keeps-raise _)

pub is_duplicate-HasLinks : (cfg : RedisConfig) (id : String) → Keeps HasLinks (is_duplicate cfg id)
unfolding is_duplicate
is_duplicate-HasLinks cfg id =
    Keeps-bind _ _
      (wrapping-HasLinks _ _ (set_nx-HasLinks (dedup id) _ _ ((λ _. refl), (λ _. refl))))
      (λ set. Keeps-pure _)

pub clear_dedup-HasLinks : (id : String) → Keeps HasLinks (clear_dedup id)
unfolding clear_dedup
clear_dedup-HasLinks id =
    wrapping-HasLinks _ _ (del_key-HasLinks (dedup id) ((λ _. refl), (λ _. refl)))

pub add_ride_to_user_set-HasLinks :
    (cfg : RedisConfig) (user ride date : String)
    → Keeps HasLinks (add_ride_to_user_set cfg user ride date)
unfolding add_ride_to_user_set
add_ride_to_user_set-HasLinks cfg user ride date =
    Keeps-bind _ _
      (wrapping-HasLinks _ _
        (s_add-HasLinks (user_rides user date) ride ((λ _. refl), (λ _. refl))))
      (λ _. expire-HasLinks (user_rides user date) cfg.agg_ttl_sec ((λ _. refl), (λ _. refl)))

pub bind_wristband_to-HasLinks :
    (uid ticket_id email : String) → Keeps HasLinks (bind_wristband_to uid ticket_id email)
unfolding bind_wristband_to
bind_wristband_to-HasLinks uid ticket_id email = Keeps-bind _ _ (Keeps-reads _) λ now.
    Keeps-catch _ _ _ (bind_script-HasLinks _ (binding_expiry now)) (λ a. Keeps-pure a)
      (λ e. Keeps-raise _)

pub get_binding-HasLinks : (uid : String) → Keeps HasLinks (get_binding uid)
get_binding-HasLinks uid =
    Keeps-of _ (Hoare-consequence _ (get_binding-Hoare HasLinks uid) (λ o s h. h.0) (λ e s h. h))

pub delete_binding-HasLinks : (uid : String) → Keeps HasLinks (delete_binding uid)
unfolding delete_binding
delete_binding-HasLinks uid = wrapping-HasLinks _ _ (delete_binding_script-HasLinks uid)

pub mark_qr_used-HasLinks :
    (cfg : RedisConfig) (uuid : String) → Keeps HasLinks (mark_qr_used cfg uuid)
unfolding mark_qr_used
mark_qr_used-HasLinks cfg uuid =
    wrapping-HasLinks _ _ (set_nx-HasLinks (qr uuid) _ _ ((λ _. refl), (λ _. refl)))

pub set_wristband_grace-HasLinks :
    (cfg : RedisConfig) (uid : String) (d : NfcDecision)
    → Keeps HasLinks (set_wristband_grace cfg uid d)
unfolding set_wristband_grace
set_wristband_grace-HasLinks cfg uid d =
    set_ex-HasLinks (gracewb uid) _ _ ((λ _. refl), (λ _. refl))

pub get_wristband_grace-HasLinks : (uid : String) → Keeps HasLinks (get_wristband_grace uid)
unfolding get_wristband_grace
get_wristband_grace-HasLinks uid = get_key-HasLinks (gracewb uid)

pub clear_wristband_grace-HasLinks : (uid : String) → Keeps HasLinks (clear_wristband_grace uid)
unfolding clear_wristband_grace
clear_wristband_grace-HasLinks uid = del_key-HasLinks (gracewb uid) ((λ _. refl), (λ _. refl))

-- Time passes.
pub later-HasLinks :
    (s : State) (later : ℕ) → s.now ≤ later → HasLinks s → HasLinks (record s { now = later })
later-HasLinks s later h l =
    subst₂ Linked (fun_ext (λ u. rw (peek-later s.now later s.redis (bind_wristband u) h) refl))
      (fun_ext (λ t. rw (peek-later s.now later s.redis (bind_ticket t) h) refl))
      (later-Linked later l)

pub ruleset links_rules = (
  is_duplicate-HasLinks, clear_dedup-HasLinks, add_ride_to_user_set-HasLinks,
  bind_wristband_to-HasLinks, get_binding-HasLinks, set_binding_status-HasLinks,
  delete_binding-HasLinks, mark_qr_used-HasLinks, set_wristband_grace-HasLinks,
  get_wristband_grace-HasLinks, clear_wristband_grace-HasLinks, wrapping-HasLinks,
)
