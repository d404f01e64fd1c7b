-- ===== src/Kafka/Loss.antt =====
-- Errors of the claim of the duplicate marker: internal/pipeline/handler.go claims it before its
-- compensation is in place.
use theme_park_nftengine.Prelude.{
  ℕ, zero, suc, String, ◌≡◌, refl, Bool, false, none, some, [], ◌∷◌, arith, eq_refl,
}
use theme_park_nftengine.Models.{ScanEvent}
use theme_park_nftengine.Errors.{Error, wrap, driver}
use theme_park_nftengine.Config.{RedisConfig}
use theme_park_nftengine.Keyspace.{plain, Entry, peek-assign}
use theme_park_nftengine.Keyspace.Keys.{dedup}
use theme_park_nftengine.World.{
  calm, State, World, lost_reply, Message, M, ok, err, call, ◌>>=◌, catch,
}
use theme_park_nftengine.Redis.Commands.{get, put, set_nx_absent, set_nx_present, ttl_from}
use theme_park_nftengine.Redis.Client.{is_duplicate}
use theme_park_nftengine.Pipeline.Handler.{handle}
use theme_park_nftengine.Kafka.Consumer.{
  Consumer, parse_message, commit, commit_offset, attempts, process_and_commit,
}

-- The reply to the first command of Redis is lost, and nothing else.
abbrev pub one_lost_reply : String → State → World
one_lost_reply text s = record {
  faults = record { redis = lost_reply text ∷ []; postgres = []; kafka = []; sui = [] };
  st = s;
}

-- The state with the duplicate marker.
abbrev marked : RedisConfig → String → State → State
marked cfg id s =
    put s (dedup id) (record { value = plain "1"; expires = ttl_from s.now cfg.dedup_ttl_sec })

-- The claim takes place, and the handler reports an error.
first_attempt :
    (cfg : RedisConfig) (armed : Bool) (e : ScanEvent) (text : String) (s : State)
    → get s (dedup e.trace_id) ≡ none
    → handle cfg armed e (one_lost_reply text s)
      ≡ (err (wrap "redis setnx dedup" (driver text)), calm (marked cfg e.trace_id s))
unfolding handle is_duplicate ◌>>=◌ catch call
first_attempt cfg armed e text s absent =
    rw (set_nx_absent (dedup e.trace_id) (plain "1") cfg.dedup_ttl_sec s absent) refl

-- A duplicate is dropped.
dropped :
    (cfg : RedisConfig) (armed : Bool) (e : ScanEvent) (s : State) (x : Entry)
    → get s (dedup e.trace_id) ≡ some x
    → handle cfg armed e (calm s) ≡ (ok tt, calm s)
unfolding handle is_duplicate ◌>>=◌ catch call
dropped cfg armed e s x present =
    rw (set_nx_present (dedup e.trace_id) (plain "1") cfg.dedup_ttl_sec s x present) refl

marker_found :
    (cfg : RedisConfig) (id : String) (s : State)
    → (x : Entry) × (get (marked cfg id s) (dedup id) ≡ some x)
marker_found cfg id s = (
  record { value = plain "1"; expires = ttl_from s.now cfg.dedup_ttl_sec },
  rw (peek-assign, eq_refl id) (ground arith),
)

-- After a handler that returns, the offset is committed, however many retries are left.
committed :
    (h : ScanEvent → M (Unit {0})) (cancelled : ℕ → Bool) (msg : Message) (e : ScanEvent) (i n : ℕ)
    (w w' : World)
    → h e w ≡ (ok tt, w')
    → attempts h cancelled msg e i n w ≡ commit msg w'
unfolding attempts catch
committed h cancelled msg e i zero w w' p = rw p
committed h cancelled msg e i (suc n) w w' p = rw p

-- A retry follows a handler that fails.
retried :
    (h : ScanEvent → M (Unit {0})) (cancelled : ℕ → Bool) (msg : Message) (e : ScanEvent) (i n : ℕ)
    (w w' : World) (cause : Error)
    → h e w ≡ (err cause, w')
    → cancelled i ≡ false
    → attempts h cancelled msg e i (suc n) w ≡ attempts h cancelled msg e (suc i) n w'
unfolding attempts catch
retried h cancelled msg e i n w w' cause p live = rw (p, live)

-- A scan event can be lost without a trace. For every event whose trace has no marker yet: if the reply
-- to the claim of the marker is lost, and no other call fails, a consumer with one retry or more commits
-- the offset and reports success, while no table changes (so the event has no row, and nothing is parked)
-- and no dead letter is written.
pub lost_claim_loses_event :
    (cfg : RedisConfig) (armed : Bool) (c : Consumer) (cancelled : ℕ → Bool) (msg : Message)
    (e : ScanEvent) (text : String) (s : State) (retries : ℕ)
    → parse_message msg ≡ ok e
    → get s (dedup e.trace_id) ≡ none
    → c.max_retries ≡ suc retries
    → cancelled 0 ≡ false
    → let after = process_and_commit (handle cfg armed) cancelled c msg (one_lost_reply text s) in
      (after.0 ≡ ok tt)
      × (after.1.st.tables ≡ s.tables)
      × (after.1.st.topics ≡ record s.topics { committed = msg.offset ∷ s.topics.committed })
unfolding process_and_commit commit commit_offset catch call
lost_claim_loses_event cfg armed c cancelled msg e text s retries parsed absent some_left live =
    let (x, found) = marker_found cfg e.trace_id s in
    rw
      (
        parsed,
        some_left,
        retried (handle cfg armed) cancelled msg e 0 retries (one_lost_reply text s) _ _
            (first_attempt cfg armed e text s absent) live,
        committed (handle cfg armed) cancelled msg e 1 retries _ _
            (dropped cfg armed e (marked cfg e.trace_id s) x found),
      )
      (refl, refl, refl)
