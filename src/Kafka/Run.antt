-- ===== src/Kafka/Run.antt =====
-- internal/kafka/consumer.go: `Run`, the worker pool. The fetch loop puts messages into a bounded channel,
-- workers take them from it, and one that has taken a message processes it to its end; the interleaving
-- is an explicit sequence of steps. A fetch that fails is tried again, and is no step.
use theme_park_nftengine.Prelude.{ℕ, ◌*◌, ◌<◌, ◌≡◌, Bool, true, false, List, [], ◌∷◌, ◌++◌, length}
use theme_park_nftengine.World.{World, Message}

pub record Pool : Type 0 where
  -- The messages of the topic that are not fetched yet.
  pub to_fetch : List Message
  -- The channel.
  pub queue : List Message
  -- The messages in the hands of workers.
  pub busy : List Message
  pub finished : List Message
  -- The context goes on, and the channel is open.
  pub is_running : Bool
  pub world : World

-- `process` is `processAndCommit`, whose error a worker logs.
module _ (process : Message → World → World) (workers : ℕ) where
  pub data Step : Pool → Pool → Type 0 where
    -- `msgCh <- msg`, where the channel has room.
    fetches :
        (p : Pool) (m : Message) (ms : List Message)
        → p.is_running ≡ true
        → p.to_fetch ≡ m ∷ ms
        → length p.queue < workers * 2
        → Step p (record p { to_fetch = ms; queue = p.queue ++ m ∷ [] })
    -- `for msg := range msgCh`, of an idle worker.
    takes :
        (p : Pool) (m : Message) (ms : List Message)
        → p.queue ≡ m ∷ ms
        → length p.busy < workers
        → Step p (record p { queue = ms; busy = m ∷ p.busy })
    finishes :
        (p : Pool) (xs ys : List Message) (m : Message)
        → p.busy ≡ xs ++ m ∷ ys
        → Step p
            (record p { busy = xs ++ ys; finished = m ∷ p.finished; world = process m p.world })
    -- `case <-ctx.Done(): close(msgCh)`
    stops : (p : Pool) → p.is_running ≡ true → Step p (record p { is_running = false })

  pub data Run : Pool → Pool → Type 0 where
    rests : (p : Pool) → Run p p
    goes : (p q r : Pool) → Step p q → Run q r → Run p r

-- A consumer that starts.
abbrev pub started : List Message → World → Pool
started ms w = record {
  to_fetch = ms;
  queue = [];
  busy = [];
  finished = [];
  is_running = true;
  world = w;
}
