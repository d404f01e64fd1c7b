-- ===== src/Redis/Keeps.antt =====
-- The commands of internal/redis/client.go and the two indices of the bindings.
use theme_park_nftengine.Prelude.{
  ℕ, ◌*◌, String, ◌≡◌, refl, false, Option, none, some, fun_ext, subst₂, sym, ◌∙◌, Option-cases,
  ◌⊎◌, inl, inr,
}
use theme_park_nftengine.Models.{WristbandBinding}
use theme_park_nftengine.Keyspace.{Value, Entry, assign, peek-assign}
use theme_park_nftengine.Keyspace.Keys.{Key, bind_wristband, bind_ticket, key_eq}
use theme_park_nftengine.Errors.{Error}
use theme_park_nftengine.World.{State, Result, ok, err, Backend, call}
use theme_park_nftengine.World.Hoare.{Keeps, Keeps-call}
use theme_park_nftengine.Redis.Commands.{
  get, set_ex, set_nx, get_key, del_key, s_add, expire, s_members, bind_script,
  delete_binding_script, added,
}
use theme_park_nftengine.Redis.Links.{Index, Linked, add_live-Linked, update_absent, remove-Linked}

abbrev pub wristbands : State → Index
wristbands s uid = get s (bind_wristband uid)

abbrev pub tickets : State → Index
tickets s ticket_id = get s (bind_ticket ticket_id)

-- The indices of a state agree.
abbrev pub HasLinks : State → Type 0
HasLinks s = Linked (wristbands s) (tickets s)

-- A key of another family.
abbrev pub Apart : Key → Type 0
Apart k =
    ((uid : String) → key_eq k (bind_wristband uid) ≡ false)
    × ((ticket_id : String) → key_eq k (bind_ticket ticket_id) ≡ false)

pub assign-HasLinks :
    (s : State) (k : Key) (e : Option Entry)
    → Apart k
    → HasLinks s
    → HasLinks (record s { redis = assign s.redis k e })
assign-HasLinks s k e apart h =
    subst₂ Linked (fun_ext (λ u. rw (peek-assign, apart.0 u)))
      (fun_ext (λ t. rw (peek-assign, apart.1 t))) h

pub set_ex-HasLinks :
    (k : Key) (v : Value) (n : ℕ) → Apart k → Keeps HasLinks (call Backend.redis (set_ex k v n))
unfolding set_ex
set_ex-HasLinks k v n apart = Keeps-call Backend.redis _ (λ s h. assign-HasLinks s k _ apart h)

pub set_nx-HasLinks :
    (k : Key) (v : Value) (n : ℕ) → Apart k → Keeps HasLinks (call Backend.redis (set_nx k v n))
unfolding set_nx
set_nx-HasLinks k v n apart = Keeps-call Backend.redis _ λ s h. elim (Option-cases (get s k)) [
  | inl absent ↦ rw (absent, set_nx) (assign-HasLinks s k _ apart h)
  | inr (e, present) ↦ rw (present, set_nx) h
]

Result-cases : {A : Type 0} (r : Result A) → ((a : A) × (r ≡ ok a)) ⊎ ((e : Error) × (r ≡ err e))
Result-cases (ok a) = inl (a, refl)
Result-cases (err e) = inr (e, refl)

pub s_add-HasLinks :
    (k : Key) (x : String) → Apart k → Keeps HasLinks (call Backend.redis (s_add k x))
unfolding s_add
s_add-HasLinks k x apart = Keeps-call Backend.redis _ λ s h.
    elim (Result-cases (added x (get s k))) [
      | inl (e, p) ↦ rw (p, s_add) (assign-HasLinks s k (some e) apart h)
      | inr (e, p) ↦ rw (p, s_add) h
    ]

pub expire-HasLinks : (k : Key) (n : ℕ) → Apart k → Keeps HasLinks (call Backend.redis (expire k n))
unfolding expire
expire-HasLinks k n apart = Keeps-call Backend.redis _ λ s h. elim (Option-cases (get s k)) [
  | inl absent ↦ rw (absent, expire) h
  | inr (e, present) ↦ rw (present, expire) (assign-HasLinks s k _ apart h)
]

pub get_key-HasLinks : (k : Key) → Keeps HasLinks (call Backend.redis (get_key k))
unfolding get_key
get_key-HasLinks k = Keeps-call Backend.redis _ (λ s h. h)

pub s_members-HasLinks : (k : Key) → Keeps HasLinks (call Backend.redis (s_members k))
unfolding s_members
s_members-HasLinks k = Keeps-call Backend.redis _ (λ s h. h)

pub del_key-HasLinks : (k : Key) → Apart k → Keeps HasLinks (call Backend.redis (del_key k))
unfolding del_key
del_key-HasLinks k apart = Keeps-call Backend.redis _ (λ s h. assign-HasLinks s k none apart h)

-- The script writes both keys or neither.
pub bind_script-HasLinks :
    (b : WristbandBinding) (exp : ℕ)
    → Keeps HasLinks (call Backend.redis (bind_script b.wristband_uid b.ticket_id b exp))
unfolding bind_script
bind_script-HasLinks b exp = Keeps-call Backend.redis _ λ s h.
    elim (Option-cases (tickets s b.ticket_id)) [
      | inr (e, present) ↦ rw (present, bind_script) h
      | inl free ↦
          rw (free, bind_script)
            (elim (Option-cases (wristbands s b.wristband_uid)) [
              | inr (e, present) ↦ rw present h
              | inl idle ↦ rw idle (
                  subst₂ Linked (fun_ext (λ u. rw (peek-assign, peek-assign) refl))
                    (fun_ext (λ t. rw (peek-assign, peek-assign) refl))
                    (add_live-Linked s.now b (some (exp * 1000)) idle free h))
            ])
    ]

-- The script deletes both keys of a link.
pub delete_binding_script-HasLinks :
    (uid : String) → Keeps HasLinks (call Backend.redis (delete_binding_script uid))
unfolding delete_binding_script
delete_binding_script-HasLinks uid = Keeps-call Backend.redis _ λ s h.
    elim (Option-cases (wristbands s uid)) [
      | inl absent ↦
          rw (absent, delete_binding_script)
            (subst₂ Linked
              (sym (update_absent (wristbands s) uid absent) ∙ fun_ext (λ u. rw peek-assign refl))
              (fun_ext (λ t. rw peek-assign refl)) h)
      | inr (e, present) ↦
          let (b, v, _, _) = h.forward uid e present in
          rw (present, delete_binding_script)
            (rw v (
              subst₂ Linked (fun_ext (λ u. rw (peek-assign, peek-assign) refl))
                (fun_ext (λ t. rw (peek-assign, peek-assign) refl))
                (remove-Linked uid e b present v h)))
    ]
