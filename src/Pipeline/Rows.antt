-- ===== src/Pipeline/Rows.antt =====
-- The rows and sets that internal/pipeline/handler.go leaves behind.
use theme_park_nftengine.Prelude.{
  ℕ, ◌+◌, ◌*◌, String, ◌≡◌, refl, Bool, true, Option, none, some, inl, inr, List, [], ◌∷◌, eq_refl,
  arith, Option-cases, Bool-cases, find_by, find_by-append,
}
use theme_park_nftengine.Models.{ScanEvent, ScanRecord, OutboxRow}
use theme_park_nftengine.Config.{RedisConfig}
use theme_park_nftengine.Calendar.{date_of}
use theme_park_nftengine.Keyspace.{
  Value, plain, members, binding_json, decision_json, Entry, live_entry, assign, peek-assign,
  peek-lives,
}
use theme_park_nftengine.Keyspace.Keys.{Key, user_rides, key_eq}
use theme_park_nftengine.World.{State, Result, ok, err, Backend, call}
use theme_park_nftengine.World.Hoare.{Post, Hoare, Hoare-bind, Hoare-call, Hoare-wrapping}
use theme_park_nftengine.Redis.Commands.{get, s_add, expire, added, contains, with_member}
use theme_park_nftengine.Redis.Client.{add_ride_to_user_set}
use theme_park_nftengine.Postgres.Scans.{names_scan, names_parked, insert_new}

-- A row of the event's trace stands in `scan_events`.
abbrev pub HasRow : ScanEvent → State → Type 0
HasRow e s = (r : ScanRecord) × (find_by (names_scan e.trace_id) s.tables.scan_events ≡ some r)

-- A set under the key holds the ride.
abbrev pub HasMember : Key → String → State → Type 0
HasMember k ride s =
    (entry : Entry) × (rides : List String) × (get s k ≡ some entry)
    × (entry.value ≡ members rides)
    × (contains ride rides ≡ true)

abbrev pub rides_key : ScanEvent → Key
rides_key e = user_rides e.user_id (date_of e.timestamp)

abbrev pub Aggregated : ScanEvent → State → Type 0
Aggregated e = HasMember (rides_key e) e.ride_id

-- A row of the event's trace stands in the outbox.
abbrev pub HasParked : ScanEvent → State → Type 0
HasParked e s = (r : OutboxRow) × (find_by (names_parked e.trace_id) s.tables.outbox ≡ some r)

contains-with_member : (x : String) (xs : List String) → contains x (with_member x xs) ≡ true
contains-with_member x xs = elim (Bool-cases (contains x xs)) [
  | inl old ↦ rw old old
  | inr new ↦ rw (new, eq_refl x)
]

-- An inserted row is found, under a name that it carries.
pub find_by-insert_new {ℓ} :
    {A : Type ℓ} (named : A → Bool) (row : A) (rows : List A)
    → named row ≡ true
    → (r : A) × (find_by named (insert_new named row rows) ≡ some r)
find_by-insert_new named row rows h = elim (Option-cases (find_by named rows)) [
  | inl absent ↦ (row, rw (absent, insert_new) (find_by-append named rows row absent h))
  | inr (r, present) ↦ (r, rw (present, insert_new) present)
]

added_value :
    (x : String) (e : Entry) (v : Value) (e' : Entry)
    → e.value ≡ v
    → added x (some e) ≡ ok e'
    → (xs : List String) × (e'.value ≡ members xs)
      × (contains x xs ≡ true)
      × (e'.expires ≡ e.expires)
added_value x e (members xs) e' p q =
    (with_member x xs, ground arith, contains-with_member x xs, ground arith)
added_value x e (plain t) e' p q = absurd (ground arith)
added_value x e (binding_json b) e' p q = absurd (ground arith)
added_value x e (decision_json d) e' p q = absurd (ground arith)

-- What `SADD` writes holds the member, and lives.
added-HasMember :
    (x : String) (s : State) (k : Key) (o : Option Entry) (e' : Entry)
    → get s k ≡ o
    → added x o ≡ ok e'
    → (xs : List String) × (e'.value ≡ members xs)
      × (contains x xs ≡ true)
      × (live_entry s.now (some e') ≡ some e')
added-HasMember x s k none e' h q = (x ∷ [], ground arith, ground (arith, eq_refl x), ground arith)
added-HasMember x s k (some e) e' h q =
    let (xs, v, c, t) = added_value x e e.value e' refl q in
    (xs, v, c, ground (arith, peek-lives s.now s.redis k e h))

module _ (k : Key) (x : String) (same : key_eq k k ≡ true) where
  s_add-HasMember :
      (P : State → Type 0)
      → ((s : State) (o : Option Entry) → P s → P (record s { redis = assign s.redis k o }))
      → Hoare P (call Backend.redis (s_add k x)) (λ _ s. P s × HasMember k x s) (λ _. P)
  unfolding s_add
  s_add-HasMember P frame =
      Hoare-call Backend.redis _ (λ s p. written s (added x (get s k)) refl p) (λ s _ p. p)
        (λ s _ p. kept s (added x (get s k)) refl p)
    where
      written :
          (s : State) (r : Result Entry)
          → added x (get s k) ≡ r
          → P s
          → Post (λ _ s. P s × HasMember k x s) (λ _. P) (s_add k x s).0 (s_add k x s).1
      written s (err e) q p = rw (q, s_add) p
      written s (ok e) q p =
          let (xs, v, c, l) = added-HasMember x s k (get s k) e refl q in
          rw (q, s_add) (frame s (some e) p, (e, xs, rw (peek-assign, same) l, v, c))

      kept : (s : State) (r : Result Entry) → added x (get s k) ≡ r → P s → P (s_add k x s).1
      kept s (err e) q p = rw (q, s_add) p
      kept s (ok e) q p = rw (q, s_add) (frame s (some e) p)

  expire-HasMember :
      (P : State → Type 0) (n : ℕ)
      → ((s : State) (o : Option Entry) → P s → P (record s { redis = assign s.redis k o }))
      → Hoare
          (λ s. P s × HasMember k x s)
          (call Backend.redis (expire k n))
          (λ _ s. P s × HasMember k x s)
          (λ _. P)
  unfolding expire
  expire-HasMember P n frame =
      Hoare-call Backend.redis _
        (λ s (p, (e, xs, h, v, c)).
          rw (h, expire)
            (
              frame s _ p,
              (
                record e { expires = some (s.now + n * 1000) },
                xs,
                rw (peek-assign, same) (ground arith),
                v,
                c,
              ),
            ))
        (λ s _ p. p.0) (λ s _ (p, (e, xs, h, v, c)). rw (h, expire) (frame s _ p))

-- `P` is what no write of a key changes.
pub add_ride-HasMember :
    (cfg : RedisConfig) (user ride date : String) (P : State → Type 0)
    → ((s : State) (o : Option Entry) (k : Key) → P s → P (record s { redis = assign s.redis k o }))
    → Hoare P
        (add_ride_to_user_set cfg user ride date)
        (λ _ s. P s × HasMember (user_rides user date) ride s)
        (λ _. P)
unfolding add_ride_to_user_set
add_ride-HasMember cfg user ride date P frame =
    let k = user_rides user date in
    Hoare-bind _ _
      (Hoare-wrapping {E = P} _ _ (s_add-HasMember k ride (eq_refl _) P (λ s o. frame s o k)))
      (λ _. expire-HasMember k ride (eq_refl _) P cfg.agg_ttl_sec (λ s o. frame s o k))

pub add_ride-Aggregated :
    (cfg : RedisConfig) (e : ScanEvent)
    → Hoare
        (HasRow e)
        (add_ride_to_user_set cfg e.user_id e.ride_id (date_of e.timestamp))
        (λ _ s. HasRow e s × Aggregated e s)
        (λ _. HasRow e)
add_ride-Aggregated cfg e =
    add_ride-HasMember cfg e.user_id e.ride_id (date_of e.timestamp) (HasRow e) (λ s o k p. p)
