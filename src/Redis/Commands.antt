-- ===== src/Redis/Commands.antt =====
-- The Redis commands that internal/redis/client.go sends, and its two Lua scripts, on the state.
use theme_park_nftengine.Prelude.{
  ◌≡◌, ℕ, ◌+◌, ◌*◌, String, Bool, true, false, Option, none, some, List, [], ◌∷◌, ◌==◌, ◌||◌,
  str_eq, if◌then◌else◌,
}
use theme_park_nftengine.Models.{WristbandBinding}
use theme_park_nftengine.Errors.{driver, message}
use theme_park_nftengine.Keyspace.{Value, plain, binding_json, members, Entry, peek, assign}
use theme_park_nftengine.Keyspace.Keys.{Key, bind_wristband, bind_ticket}
use theme_park_nftengine.World.{State, Result, ok, err}

-- Milliseconds from now, for a time to live in seconds; 0 sets none, as in the driver.
abbrev pub ttl_from : ℕ → ℕ → Option ℕ
ttl_from now seconds = if seconds == 0 then none else some (now + seconds * 1000)

abbrev pub get : State → Key → Option Entry
get s k = peek s.now s.redis k

abbrev pub put : State → Key → Entry → State
put s k e = record s { redis = assign s.redis k (some e) }

abbrev pub delete : State → Key → State
delete s k = record s { redis = assign s.redis k none }

-- SET key value EX seconds.
unfoldable pub set_ex : Key → Value → ℕ → State → Result (Unit {0}) × State
set_ex k v seconds s = (ok tt, put s k (record { value = v; expires = ttl_from s.now seconds }))

-- SET key value NX EX seconds: true where the key was absent, and is now set.
unfoldable pub set_nx : Key → Value → ℕ → State → Result Bool × State
set_nx k v seconds s = elim (get s k) [
  | none ↦ (ok true, put s k (record { value = v; expires = ttl_from s.now seconds }))
  | some _ ↦ (ok false, s)
]

pub set_nx_absent :
    (k : Key) (v : Value) (seconds : ℕ) (s : State)
    → get s k ≡ none
    → set_nx k v seconds s
      ≡ (ok true, put s k (record { value = v; expires = ttl_from s.now seconds }))
unfolding set_nx
set_nx_absent k v seconds s h = rw (h, set_nx)

pub set_nx_present :
    (k : Key) (v : Value) (seconds : ℕ) (s : State) (e : Entry)
    → get s k ≡ some e
    → set_nx k v seconds s ≡ (ok false, s)
unfolding set_nx
set_nx_present k v seconds s e h = rw (h, set_nx)

-- GET key; `none` is the reply `redis.Nil`.
unfoldable pub get_key : Key → State → Result (Option Entry) × State
get_key k s = (ok (get s k), s)

-- DEL key.
unfoldable pub del_key : Key → State → Result (Unit {0}) × State
del_key k s = (ok tt, delete s k)

abbrev pub kept_ttl : Option Entry → Option ℕ
kept_ttl none = none
kept_ttl (some e) = e.expires

-- SET key value KEEPTTL: a key that is absent gets no time to live.
unfoldable pub set_keep_ttl : Key → Value → State → Result (Unit {0}) × State
set_keep_ttl k v s = (ok tt, put s k (record { value = v; expires = kept_ttl (get s k) }))

abbrev pub contains : String → List String → Bool
contains x [] = false
contains x (y ∷ ys) = str_eq x y || contains x ys

abbrev pub with_member : String → List String → List String
with_member x xs = if contains x xs then xs else x ∷ xs

abbrev pub added : String → Option Entry → Result Entry
added x none = ok (record { value = members (x ∷ []); expires = none })
added x (some e) = elim e.value [
  | members xs ↦ ok (record e { value = members (with_member x xs) })
  | _ ↦ err (driver "WRONGTYPE")
]

-- SADD key member.
unfoldable pub s_add : Key → String → State → Result (Unit {0}) × State
s_add k x s = elim (added x (get s k)) [ ok e ↦ (ok tt, put s k e) | err e ↦ (err e, s) ]

-- EXPIRE key seconds: nothing happens to a key that is absent.
unfoldable pub expire : Key → ℕ → State → Result (Unit {0}) × State
expire k seconds s = elim (get s k) [
  | none ↦ (ok tt, s)
  | some e ↦ (ok tt, put s k (record e { expires = some (s.now + seconds * 1000) }))
]

-- SMEMBERS key.
unfoldable pub s_members : Key → State → Result (List String) × State
s_members k s = (found (get s k), s)
  where
    found : Option Entry → Result (List String)
    found none = ok []
    found (some e) = elim e.value [ members xs ↦ ok xs | _ ↦ err (driver "WRONGTYPE") ]

-- FLUSHDB.
unfoldable pub flush_all : State → Result (Unit {0}) × State
flush_all s = (ok tt, record s { redis = λ _. none })

-- bindScript: both keys are set, with one time to live in Unix seconds, or none is.
unfoldable pub bind_script :
    String → String → WristbandBinding → ℕ → State → Result (Unit {0}) × State
bind_script uid ticket_id b exp s = elim (get s (bind_ticket ticket_id)) [
  | some _ ↦ (err (message "ticket already bound"), s)
  | none ↦ elim (get s (bind_wristband uid)) [
    | some _ ↦ (err (message "wristband already bound"), s)
    | none ↦ (
      ok tt,
      put
          (put s (bind_wristband uid)
            (record { value = binding_json b; expires = some (exp * 1000) }))
          (bind_ticket ticket_id) (record { value = plain uid; expires = some (exp * 1000) }),
    )
  ]
]

abbrev pub without_ticket : State → Value → State
without_ticket s (binding_json b) = delete s (bind_ticket b.ticket_id)
without_ticket s _ = s

-- deleteBindingScript: the forward key, and the reverse key of the ticket that its value names.
unfoldable pub delete_binding_script : String → State → Result (Unit {0}) × State
delete_binding_script uid s = elim (get s (bind_wristband uid)) [
  | none ↦ (ok tt, delete s (bind_wristband uid))
  | some e ↦ (ok tt, without_ticket (delete s (bind_wristband uid)) e.value)
]
