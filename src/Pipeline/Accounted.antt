-- ===== src/Pipeline/Accounted.antt =====
-- How the handler of internal/pipeline/handler.go accounts for an event.
use theme_park_nftengine.Prelude.{◌≡◌, refl, Bool, true, some, ◌⊎◌, inl, inr, find_by}
use theme_park_nftengine.Models.{ScanEvent, ScanRecord, OutboxRow}
use theme_park_nftengine.Config.{RedisConfig}
use theme_park_nftengine.Keyspace.Keys.{dedup}
use theme_park_nftengine.World.{State, World, ok}
use theme_park_nftengine.World.Hoare.{Hoare-value}
use theme_park_nftengine.Redis.Commands.{get}
use theme_park_nftengine.Postgres.Scans.{names_scan, names_parked, scan_row}
use theme_park_nftengine.Pipeline.Handler.{handle}
use theme_park_nftengine.Pipeline.Rows.{Aggregated}
use theme_park_nftengine.Pipeline.TopicsKept.{parked_row}
use theme_park_nftengine.Pipeline.Faithful.{IsFaithful, start-IsFaithful, handle-IsFaithful}
use theme_park_nftengine.Pipeline.Stored.{Stored, HasMarker, handle-Hoare}

-- The event's row of `scan_events`: its visitor by email, ticket, ride and time, unless a row of the trace
-- was there before.
abbrev pub Persisted : State → ScanEvent → State → Type 0
Persisted s₀ e s =
    (r : ScanRecord) × (find_by (names_scan e.trace_id) s.tables.scan_events ≡ some r)
    × ((find_by (names_scan e.trace_id) s₀.tables.scan_events ≡ some r)
        ⊎ (r ≡ scan_row e s₀.tables.users))

-- The event's row of the outbox: its visitor, ride and time, unless a row of the trace was there before.
abbrev pub Parked : State → ScanEvent → State → Type 0
Parked s₀ e s =
    (r : OutboxRow) × (find_by (names_parked e.trace_id) s.tables.outbox ≡ some r)
    × ((find_by (names_parked e.trace_id) s₀.tables.outbox ≡ some r) ⊎ (r ≡ parked_row e))

-- A handler that has no outbox parks nothing.
abbrev pub Accounted : State → Bool → ScanEvent → State → Type 0
Accounted s₀ armed e s = Persisted s₀ e s × (Aggregated e s ⊎ (armed ≡ true) × Parked s₀ e s)

pub Stored-Accounted :
    (s₀ : State) (armed : Bool) (e : ScanEvent) (s : State)
    → IsFaithful s₀ e s
    → Stored armed e s
    → Accounted s₀ armed e s
Stored-Accounted s₀ armed e s faithful ((r, row), inl added) =
    ((r, row, faithful.scan r row), inl added)
Stored-Accounted s₀ armed e s faithful ((r, row), inr (on, (x, held))) =
    ((r, row, faithful.scan r row), inr (on, (x, held, faithful.parked x held)))

-- A handler that returns without an error accounts for the event, whatever calls of Redis and Postgres
-- fail before or after their effect: either the trace had its duplicate marker before and has it still, or
-- the event's row (its visitor by email, ticket, ride and time) stands in scan_events, and its ride is in
-- the visitor's daily set, or the row of the visitor, the ride and the time is parked in the outbox where
-- the handler has one. A row of the same trace that was there before stands in place of the event's.
pub handle_accounts :
    (cfg : RedisConfig) (armed : Bool) (e : ScanEvent) (w : World)
    → (handle cfg armed e w).0 ≡ ok tt
    → HasMarker e.trace_id w.st × HasMarker e.trace_id (handle cfg armed e w).1.st
      ⊎ Accounted w.st armed e (handle cfg armed e w).1.st
handle_accounts cfg armed e w done =
    elim (Hoare-value _ (handle-Hoare cfg armed e (get w.st (dedup e.trace_id))) w tt refl done) [
      | inl marked ↦ inl marked
      | inr stored ↦ inr (
          Stored-Accounted w.st armed e _
            ((handle-IsFaithful w.st cfg armed e).at w (start-IsFaithful w.st e)) stored)
    ]
