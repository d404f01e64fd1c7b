-- ===== src/Examples/PipelineRuns.antt =====
-- Runs of the consumer and the scan handler.
use theme_park_nftengine.Prelude.{
  ℕ, ◌≡◌, refl, ◌⊎◌, Bool, true, false, none, [], ◌∷◌, arith, find_by, ◌*◌, ◌^◌,
}
use theme_park_nftengine.Models.{OutboxRow}
use Prim.Native.String.{◌++◌}
use theme_park_nftengine.Errors.{Error, wrap, decode}
use theme_park_nftengine.Text.{itoa}
use theme_park_nftengine.Config.{redis_defaults}
use theme_park_nftengine.World.{World, Message, ok, err, call, ◌>>=◌, catch}
use theme_park_nftengine.Keyspace.{empty, peek, assign}
use theme_park_nftengine.Keyspace.Keys.{key_name, dedup}
use theme_park_nftengine.Redis.Commands.{get, set_nx, s_add, expire}
use theme_park_nftengine.Redis.Client.{is_duplicate, add_ride_to_user_set}
use theme_park_nftengine.Postgres.Scans.{insert_scan, with_outbox}
use theme_park_nftengine.Pipeline.Handler.{drain_outbox, handle, process, aggregate, compensated}
use theme_park_nftengine.Pipeline.Drains.{Safe, drain_loses_nothing}
use theme_park_nftengine.Pipeline.Stored.{HasMarker}
use theme_park_nftengine.Pipeline.Accounted.{Accounted, handle_accounts}
use theme_park_nftengine.Kafka.Consumer.{
  Consumer, parse_message, process_and_commit, dead_letter, write_dlq, append_letter, commit,
  commit_offset, backoff_for,
}
use theme_park_nftengine.Kafka.Policy.{DeadLettered}
use theme_park_nftengine.Kafka.Finalises.{Settled, consume_finalises}
use theme_park_nftengine.Kafka.Poison.{finished, poison_is_dead_lettered}
use theme_park_nftengine.Kafka.Loss.{one_lost_reply, lost_claim_loses_event}
use theme_park_nftengine.Kafka.Backoff.{backoff_for_lem}
use theme_park_nftengine.Examples.Fixtures.{world, state_with, event, message}

abbrev consumer : Consumer
consumer = record { max_retries = 3; backoff_ms = 500 }

abbrev never : ℕ → Bool
never _ = false

message_parses : parse_message message ≡ ok event
unfolding parse_message
message_parses = refl

abbrev consumed : World
consumed = (process_and_commit (handle redis_defaults true) never consumer message world).1

consume_finalises_example :
    (consumed.st.topics.committed ≡ [])
    ⊎ (consumed.st.topics.committed ≡ 7 ∷ [])
      × (Settled world.st true event consumed.st
          ⊎ DeadLettered message world.st.topics consumed.st.topics)
consume_finalises_example =
    consume_finalises redis_defaults true consumer never message event world message_parses

handle_runs : (handle redis_defaults true event world).0 ≡ ok tt
unfolding handle process aggregate compensated is_duplicate add_ride_to_user_set insert_scan set_nx
    s_add expire ◌>>=◌ catch call peek assign key_name theme_park_nftengine.Calendar.date_of
handle_runs = refl

handle_accounts_example :
    HasMarker "e2" world.st × HasMarker "e2" (handle redis_defaults true event world).1.st
    ⊎ Accounted world.st true event (handle redis_defaults true event world).1.st
handle_accounts_example = handle_accounts redis_defaults true event world handle_runs

abbrev poison : Message
poison = record { offset = 8; value = none }

abbrev unreadable : Error
unreadable = wrap ("unmarshal event at offset " ++ itoa poison.offset) decode

poison_fails : parse_message poison ≡ err unreadable
unfolding parse_message
poison_fails = refl

poison_runs :
    (process_and_commit (handle redis_defaults true) never consumer poison world).0 ≡ ok tt
unfolding process_and_commit parse_message dead_letter write_dlq append_letter commit commit_offset
    ◌>>=◌ catch call
poison_runs = refl

poison_is_dead_lettered_example :
    (process_and_commit (handle redis_defaults true) never consumer poison world).1.st
    ≡ finished poison unreadable world.st
poison_is_dead_lettered_example =
    poison_is_dead_lettered (handle redis_defaults true) never consumer poison unreadable world
      poison_fails poison_runs

unmarked : get (state_with empty) (dedup "e2") ≡ none
unfolding peek
unmarked = refl

abbrev lost : World
lost = one_lost_reply "timeout" (state_with empty)

lost_claim_loses_event_example :
    let after = process_and_commit (handle redis_defaults true) never consumer message lost in
    (after.0 ≡ ok tt)
    × (after.1.st.tables ≡ world.st.tables)
    × (after.1.st.topics ≡ record world.st.topics { committed = 7 ∷ [] })
lost_claim_loses_event_example =
    lost_claim_loses_event redis_defaults true consumer never message event "timeout"
      (state_with empty) 2 message_parses unmarked refl refl

backoff_for_lem_example : backoff_for consumer 3 ≡ 500 * 1000000 * 2 ^ 3
backoff_for_lem_example = backoff_for_lem consumer 3 (omega arith)

-- Two rows of the outbox.
abbrev parked : OutboxRow
parked = record {
  trace_id = "e1";
  user_email = "ana@park";
  ride_id = "r1";
  scanned_at = 1000;
  attempts = 0;
}

abbrev later_parked : OutboxRow
later_parked = record parked { trace_id = "e2"; ride_id = "r2" }

abbrev parked_world : World
parked_world =
    one_lost_reply "timeout" (with_outbox (state_with empty) (parked ∷ later_parked ∷ []))

drain_loses_nothing_example : Safe later_parked (drain_outbox redis_defaults 10 parked_world).1.st
unfolding find_by
drain_loses_nothing_example =
    drain_loses_nothing redis_defaults later_parked 10 parked_world refl
      ((λ h. absurd (cc h)), ((λ h. refl), tt))
