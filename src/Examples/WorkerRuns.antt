-- ===== src/Examples/WorkerRuns.antt =====
-- Runs of the workers of the consumer.
use theme_park_nftengine.Prelude.{
  ◌≡◌, refl, ◌+◌, ◌<◌, true, false, none, List, [], ◌∷◌, arith, count_where,
}
use theme_park_nftengine.World.{World, Message, pure}
use theme_park_nftengine.Kafka.Consumer.{Consumer, process_and_commit}
use theme_park_nftengine.Kafka.Run.{Pool, Step, Run, rests, goes, fetches, takes, started}
use theme_park_nftengine.Kafka.Workers.{Fits, work, pool_accounts}
use theme_park_nftengine.Kafka.Drains.{Drained, closed_pool_drains}
use theme_park_nftengine.Examples.Fixtures.{world, message as scanned}

abbrev consumer : Consumer
consumer = record { max_retries = 3; backoff_ms = 500 }

abbrev process_of : Message → World → World
process_of m w = (process_and_commit (λ _. pure tt) (λ _. false) consumer m w).1

abbrev poison : Message
poison = record { offset = 6; value = none }

abbrev messages : List Message
messages = poison ∷ scanned ∷ []

abbrev fetched : Pool
fetched = record (started messages world) { to_fetch = scanned ∷ []; queue = poison ∷ [] }

abbrev held : Pool
held = record fetched { queue = []; busy = poison ∷ [] }

one_held : Run process_of 2 (started messages world) held
one_held =
    goes (started messages world) fetched held
      (fetches (started messages world) poison (scanned ∷ []) refl refl (omega arith))
      (goes fetched held held (takes fetched poison [] refl (omega arith)) (rests held))

pool_accounts_example :
    (count_where (λ m. true) held.to_fetch
        + (count_where (λ m. true) held.queue
            + (count_where (λ m. true) held.busy + count_where (λ m. true) held.finished))
      ≡ count_where (λ m. true) messages)
    × Fits 2 held
pool_accounts_example = pool_accounts process_of 2 (λ m. true) messages world held one_held

abbrev closed : Pool
closed = record held { is_running = false }

closed_pool_drains_example :
    ((q : Pool) × Run process_of 2 closed q × Drained process_of 2 closed q)
    × ((q : Pool) → Step process_of 2 closed q → (work q < work closed) × (q.is_running ≡ false))
closed_pool_drains_example = closed_pool_drains process_of 2 closed (omega arith) refl
