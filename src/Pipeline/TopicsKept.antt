-- ===== src/Pipeline/TopicsKept.antt =====
-- What the handler of internal/pipeline/handler.go keeps, and that it leaves the Kafka topics.
use theme_park_nftengine.Prelude.{ℕ, String, ◌≡◌, refl, Bool, true, false, Option-cases, inl, inr}
use theme_park_nftengine.Models.{ScanEvent, OutboxRow}
use theme_park_nftengine.Errors.{Error}
use theme_park_nftengine.Config.{RedisConfig}
use theme_park_nftengine.Keyspace.{Keyspace, Value, Entry}
use theme_park_nftengine.Keyspace.Keys.{Key}
use theme_park_nftengine.World.{State, Topics, M, Backend, Result, ok, err, call, wrapping}
use theme_park_nftengine.World.Hoare.{
  Keeps, Keeps-call, Keeps-bind, Keeps-catch, Keeps-pure, Keeps-raise,
}
use theme_park_nftengine.Redis.Commands.{get, set_nx, del_key, s_add, expire, added}
use theme_park_nftengine.Redis.Client.{is_duplicate, clear_dedup, add_ride_to_user_set}
use theme_park_nftengine.Postgres.Scans.{insert_scan, insert_outbox, insert_parked}
use theme_park_nftengine.Pipeline.Handler.{
  handle, process, aggregate, park, compensated, unless_duplicate,
}

-- The row that the handler parks of an event.
abbrev pub parked_row : ScanEvent → OutboxRow
parked_row e = record {
  trace_id = e.trace_id;
  user_email = e.user_id;
  ride_id = e.ride_id;
  scanned_at = e.timestamp;
  attempts = 0;
}

-- The handler writes keys of Redis, and inserts two rows.
module _ (I : State → Type 0) (e : ScanEvent)
    (redis : (s : State) (ks : Keyspace) → I s → I (record s { redis = ks }))
    (scans : (s : State) → I s → I (insert_scan e s).1)
    (parks : (s : State) → I s → I (insert_parked (parked_row e) s).1) where
  wrapping-Kept : {A : Type 0} (c : String) (m : M A) → Keeps I m → Keeps I (wrapping c m)
  wrapping-Kept c m h = Keeps-catch m _ _ h (λ a. Keeps-pure a) (λ e. Keeps-raise _)

  set_nx-Kept : (k : Key) (v : Value) (n : ℕ) → Keeps I (call Backend.redis (set_nx k v n))
  unfolding set_nx
  set_nx-Kept k v n = Keeps-call Backend.redis _ λ s h. elim (Option-cases (get s k)) [
    | inl absent ↦ rw (absent, set_nx) (redis s _ h)
    | inr (e, present) ↦ rw (present, set_nx) h
  ]

  expire-Kept : (k : Key) (n : ℕ) → Keeps I (call Backend.redis (expire k n))
  unfolding expire
  expire-Kept k n = Keeps-call Backend.redis _ λ s h. elim (Option-cases (get s k)) [
    | inl absent ↦ rw (absent, expire) h
    | inr (e, present) ↦ rw (present, expire) (redis s _ h)
  ]

  s_add-Kept : (k : Key) (x : String) → Keeps I (call Backend.redis (s_add k x))
  unfolding s_add
  s_add-Kept k x = Keeps-call Backend.redis _ (λ s h. kept s (added x (get s k)) refl h)
    where
      kept : (s : State) (r : Result Entry) → added x (get s k) ≡ r → I s → I (s_add k x s).1
      kept s (ok e) q h = rw (q, s_add) (redis s _ h)
      kept s (err e) q h = rw (q, s_add) h

  add_ride-Kept :
      (cfg : RedisConfig) (user ride date : String)
      → Keeps I (add_ride_to_user_set cfg user ride date)
  unfolding add_ride_to_user_set
  add_ride-Kept cfg user ride date =
      Keeps-bind _ _ (wrapping-Kept _ _ (s_add-Kept _ _)) (λ _. expire-Kept _ _)

  park-Kept : (cfg : RedisConfig) (armed : Bool) (cause : Error) → Keeps I (park cfg armed e cause)
  unfolding park insert_outbox
  park-Kept cfg false cause = Keeps-raise _
  park-Kept cfg true cause =
      wrapping-Kept _ _ (wrapping-Kept _ _ (Keeps-call Backend.postgres _ parks))

  process-Kept : (cfg : RedisConfig) (armed : Bool) → Keeps I (process cfg armed e)
  unfolding process aggregate
  process-Kept cfg armed =
      Keeps-bind _ _ (wrapping-Kept _ _ (Keeps-call Backend.postgres _ scans)) λ _.
        Keeps-catch _ _ _ (add_ride-Kept cfg _ _ _) (λ a. Keeps-pure a)
          (λ cause. park-Kept cfg armed cause)

  clear_dedup-Kept : (id : String) → Keeps I (clear_dedup id)
  unfolding clear_dedup del_key
  clear_dedup-Kept id = wrapping-Kept _ _ (Keeps-call Backend.redis _ (λ s h. redis s _ h))

  compensated-Kept :
      (cfg : RedisConfig) (m : M (Unit {0})) → Keeps I m → Keeps I (compensated cfg e m)
  unfolding compensated
  compensated-Kept cfg m h =
      Keeps-catch _ _ _ h (λ a. Keeps-pure a)
        λ cause.
          Keeps-bind _ _
            (Keeps-catch _ _ _ (clear_dedup-Kept e.trace_id) (λ _. Keeps-pure _)
              (λ _. Keeps-pure _))
            (λ _. Keeps-raise _)

  unless_duplicate-Kept :
      (cfg : RedisConfig) (armed dup : Bool) → Keeps I (unless_duplicate cfg armed e dup)
  unless_duplicate-Kept cfg armed true = Keeps-pure tt
  unless_duplicate-Kept cfg armed false = compensated-Kept cfg _ (process-Kept cfg armed)

  pub handle-Kept : (cfg : RedisConfig) (armed : Bool) → Keeps I (handle cfg armed e)
  unfolding handle is_duplicate
  handle-Kept cfg armed =
      Keeps-bind _ _ (Keeps-bind _ _ (wrapping-Kept _ _ (set_nx-Kept _ _ _)) (λ set. Keeps-pure _))
        (λ dup. unless_duplicate-Kept cfg armed dup)

abbrev pub Kept : Topics → State → Type 0
Kept t₀ s = s.topics ≡ t₀

pub handle-Topics :
    (t₀ : Topics) (cfg : RedisConfig) (armed : Bool) (e : ScanEvent)
    → Keeps (Kept t₀) (handle cfg armed e)
unfolding insert_scan insert_parked
handle-Topics t₀ cfg armed e = handle-Kept (Kept t₀) e (λ s ks h. h) (λ s h. h) (λ s h. h) cfg armed
