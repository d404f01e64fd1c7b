-- ===== src/Pipeline/Handler.antt =====
-- internal/pipeline/handler.go: deduplicate, persist, aggregate; and the drain of the outbox. The
-- handler's Redis surface is the Redis client, and its outbox and store are the repository.
use theme_park_nftengine.Prelude.{ℕ, ◌+◌, Bool, true, false, List, [], ◌∷◌, if◌then◌else◌}
use theme_park_nftengine.Models.{ScanEvent, OutboxRow}
use theme_park_nftengine.Errors.{Error, wrap}
use theme_park_nftengine.Config.{RedisConfig}
use theme_park_nftengine.Calendar.{date_of}
use theme_park_nftengine.World.{
  M, Backend, call, pure, raise, ◌>>=◌, ◌>>◌, catch, wrapping, best_effort,
}
use theme_park_nftengine.Redis.Client.{is_duplicate, clear_dedup, add_ride_to_user_set}
use theme_park_nftengine.Postgres.Scans.{
  insert_scan, insert_outbox, list_pending_outbox, bump_outbox_attempts, delete_outbox,
}

module _ (cfg : RedisConfig) where
  -- A failed aggregation is parked, if the handler has an outbox.
  unfoldable pub park : Bool → ScanEvent → Error → M (Unit {0})
  park true e cause =
      wrapping "redis aggregate + outbox" (insert_outbox e.trace_id e.user_id e.ride_id e.timestamp)
  park false e cause = raise (wrap "redis aggregate" cause)

  unfoldable pub aggregate : Bool → ScanEvent → M (Unit {0})
  aggregate armed e =
      catch (add_ride_to_user_set cfg e.user_id e.ride_id (date_of e.timestamp)) pure
        (λ cause. park armed e cause)

  unfoldable pub process : Bool → ScanEvent → M (Unit {0})
  process armed e = do
    wrapping "pg insert" (call Backend.postgres (insert_scan e))
    aggregate armed e

  -- The deferred compensation: an error drops the marker.
  unfoldable pub compensated : ScanEvent → M (Unit {0}) → M (Unit {0})
  compensated e m = catch m pure (λ cause. best_effort (clear_dedup e.trace_id) >> raise cause)

  abbrev pub unless_duplicate : Bool → ScanEvent → Bool → M (Unit {0})
  unless_duplicate armed e true = pure tt
  unless_duplicate armed e false = compensated e (process armed e)

  -- One scan event; `armed` handlers have an outbox.
  unfoldable pub handle : Bool → ScanEvent → M (Unit {0})
  handle armed e = do is_dup ← is_duplicate cfg e.trace_id; unless_duplicate armed e is_dup

  -- One row of the outbox: true where it was drained.
  unfoldable pub drain_row : OutboxRow → M Bool
  drain_row row =
      catch (add_ride_to_user_set cfg row.user_email row.ride_id (date_of row.scanned_at))
        (λ _. do delete_outbox row.trace_id; pure true)
        (λ _. do best_effort (bump_outbox_attempts row.trace_id); pure false)

  -- The number of rows drained; an error of the delete ends the pass.
  unfoldable pub drain_rows : List OutboxRow → ℕ → M ℕ
  drain_rows [] drained = pure drained
  drain_rows (row ∷ rows) drained = do
    done ← drain_row row
    drain_rows rows (if done then drained + 1 else drained)

  unfoldable pub drain_outbox : ℕ → M ℕ
  drain_outbox batch = do rows ← list_pending_outbox batch; drain_rows rows 0
