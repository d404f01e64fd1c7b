-- ===== src/Redis/Frame.antt =====
-- The methods of internal/redis/client.go and a key that they do not name.
use theme_park_nftengine.Prelude.{
  ℕ, String, ◌≡◌, refl, false, Option, none, some, subst, Option-cases, inl, inr,
}
use theme_park_nftengine.Models.{WristbandBinding, BindingStatus}
use theme_park_nftengine.Config.{RedisConfig}
use theme_park_nftengine.Keyspace.{
  Value, binding_json, plain, decision_json, members, NfcDecision, Entry, assign, peek-assign,
}
use theme_park_nftengine.Keyspace.Keys.{Key, key_eq, bind_wristband, bind_ticket, qr, gracewb}
use theme_park_nftengine.World.{State, M, Backend, call, wrapping}
use theme_park_nftengine.World.Hoare.{
  Keeps, Keeps-call, Keeps-pure, Keeps-raise, Keeps-reads, Keeps-bind, Keeps-catch,
}
use theme_park_nftengine.Redis.Commands.{
  get, put, set_ex, set_nx, get_key, del_key, set_keep_ttl, bind_script, delete_binding_script,
  without_ticket, delete,
}
use theme_park_nftengine.Redis.Client.{
  binding_expiry, bind_wristband_to, get_binding, set_binding_status, delete_binding, mark_qr_used,
  set_wristband_grace, get_wristband_grace, clear_wristband_grace, decode_binding, write_status,
}

-- A key that no binding uses, and a predicate on the time and on what it holds.
module _ (k : Key) (Φ : ℕ → Option Entry → Type 0)
    (forward : (uid : String) → key_eq (bind_wristband uid) k ≡ false)
    (reverse : (ticket_id : String) → key_eq (bind_ticket ticket_id) k ≡ false) where
  abbrev pub At : State → Type 0
  At s = Φ s.now (get s k)

  assign-At :
      (j : Key) (e : Option Entry) (s : State)
      → key_eq j k ≡ false
      → At s
      → At (record s { redis = assign s.redis j e })
  assign-At j e s other h = subst (Φ s.now) (rw (peek-assign, other) refl) h

  wrapping-At : {A : Type 0} (c : String) (m : M A) → Keeps At m → Keeps At (wrapping c m)
  wrapping-At c m h = Keeps-catch m _ _ h (λ a. Keeps-pure a) (λ e. Keeps-raise _)

  get_key-At : (j : Key) → Keeps At (call Backend.redis (get_key j))
  unfolding get_key
  get_key-At j = Keeps-call Backend.redis _ (λ s h. h)

  decode_value-At : (v : Value) (e : Entry) → e.value ≡ v → Keeps At (decode_binding (some e))
  decode_value-At (binding_json b) e q = rw (q, decode_binding) (Keeps-pure _)
  decode_value-At (plain t) e q = rw (q, decode_binding) (Keeps-raise _)
  decode_value-At (decision_json d) e q = rw (q, decode_binding) (Keeps-raise _)
  decode_value-At (members m) e q = rw (q, decode_binding) (Keeps-raise _)

  decode_binding-At : (o : Option Entry) → Keeps At (decode_binding o)
  decode_binding-At none = Keeps-pure _
  decode_binding-At (some e) = decode_value-At e.value e refl

  pub get_binding-At : (uid : String) → Keeps At (get_binding uid)
  unfolding get_binding
  get_binding-At uid =
      Keeps-bind _ _ (wrapping-At _ _ (get_key-At (bind_wristband uid))) (λ o. decode_binding-At o)

  write_status-At :
      (uid : String) (status : BindingStatus) (o : Option WristbandBinding)
      → Keeps At (write_status uid status o)
  unfolding set_keep_ttl
  write_status-At uid status none = Keeps-raise _
  write_status-At uid status (some b) =
      wrapping-At _ _
        (Keeps-call Backend.redis _ (λ s h. assign-At (bind_wristband uid) _ s (forward uid) h))

  pub set_binding_status-At :
      (uid : String) (status : BindingStatus) → Keeps At (set_binding_status uid status)
  unfolding set_binding_status
  set_binding_status-At uid status =
      Keeps-bind _ _ (get_binding-At uid) (λ o. write_status-At uid status o)

  bind_script-At :
      (uid ticket_id : String) (b : WristbandBinding) (exp : ℕ)
      → Keeps At (call Backend.redis (bind_script uid ticket_id b exp))
  unfolding bind_script
  bind_script-At uid ticket_id b exp = Keeps-call Backend.redis _ λ s h.
      elim (Option-cases (get s (bind_ticket ticket_id))) [
        | inr (e, present) ↦ rw (present, bind_script) h
        | inl free ↦
            rw (free, bind_script)
              (elim (Option-cases (get s (bind_wristband uid))) [
                | inr (e, present) ↦ rw present h
                | inl idle ↦ rw idle (
                    assign-At (bind_ticket ticket_id) _ (put s (bind_wristband uid) _)
                      (reverse ticket_id) (assign-At (bind_wristband uid) _ s (forward uid) h))
              ])
      ]

  pub bind_wristband_to-At :
      (uid ticket_id email : String) → Keeps At (bind_wristband_to uid ticket_id email)
  unfolding bind_wristband_to
  bind_wristband_to-At uid ticket_id email = Keeps-bind _ _ (Keeps-reads _) λ now.
      Keeps-catch _ _ _ (bind_script-At uid ticket_id _ (binding_expiry now)) (λ a. Keeps-pure a)
        (λ e. Keeps-raise _)

  without_ticket-At : (v : Value) (s : State) → At s → At (without_ticket s v)
  without_ticket-At (binding_json b) s h =
      assign-At (bind_ticket b.ticket_id) none s (reverse b.ticket_id) h
  without_ticket-At _ s h = h

  pub delete_binding-At : (uid : String) → Keeps At (delete_binding uid)
  unfolding delete_binding delete_binding_script
  delete_binding-At uid = wrapping-At _ _ (
      Keeps-call Backend.redis _ λ s h. elim (Option-cases (get s (bind_wristband uid))) [
        | inl absent ↦
            rw (absent, delete_binding_script)
              (assign-At (bind_wristband uid) none s (forward uid) h)
        | inr (e, present) ↦
            rw (present, delete_binding_script)
              (without_ticket-At e.value (delete s (bind_wristband uid))
                (assign-At (bind_wristband uid) none s (forward uid) h))
      ])

  pub mark_qr_used-At :
      (cfg : RedisConfig) (uuid : String)
      → key_eq (qr uuid) k ≡ false
      → Keeps At (mark_qr_used cfg uuid)
  unfolding mark_qr_used set_nx
  mark_qr_used-At cfg uuid other = wrapping-At _ _ (
      Keeps-call Backend.redis _ λ s h. elim (Option-cases (get s (qr uuid))) [
        | inl absent ↦ rw (absent, set_nx) (assign-At (qr uuid) _ s other h)
        | inr (e, present) ↦ rw (present, set_nx) h
      ])

  pub set_wristband_grace-At :
      (cfg : RedisConfig) (uid : String) (d : NfcDecision)
      → key_eq (gracewb uid) k ≡ false
      → Keeps At (set_wristband_grace cfg uid d)
  unfolding set_wristband_grace set_ex
  set_wristband_grace-At cfg uid d other =
      Keeps-call Backend.redis _ (λ s h. assign-At (gracewb uid) _ s other h)

  pub get_wristband_grace-At : (uid : String) → Keeps At (get_wristband_grace uid)
  unfolding get_wristband_grace
  get_wristband_grace-At uid = get_key-At (gracewb uid)

  pub clear_wristband_grace-At :
      (uid : String) → key_eq (gracewb uid) k ≡ false → Keeps At (clear_wristband_grace uid)
  unfolding clear_wristband_grace del_key
  clear_wristband_grace-At uid other =
      Keeps-call Backend.redis _ (λ s h. assign-At (gracewb uid) none s other h)
