-- ===== src/Kafka/Consumer.antt =====
-- internal/kafka/consumer.go: the policy for one message. Poison goes to the dead letters; a handler
-- that fails is retried, and then the message goes to the dead letters; offsets are committed last.
use Prim.Native.String.{◌++◌ as str_append}
use theme_park_nftengine.Prelude.{
  ℕ, zero, suc, ◌*◌, ◌%◌, ◌^◌, Bool, none, some, ◌∷◌, [], ◌++◌, ◌==◌, str_eq, if◌then◌else◌,
}
use theme_park_nftengine.Models.{ScanEvent}
use theme_park_nftengine.Errors.{Error, decode, wrap, message, error_text}
use theme_park_nftengine.Text.{itoa}
use theme_park_nftengine.Config.{KafkaConfig}
use theme_park_nftengine.World.{
  State, Message, DeadLetter, Result, ok, err, M, Backend, call, raise, ◌>>◌, catch, wrapping,
}

pub record Consumer : Type 0 where
  pub max_retries : ℕ
  pub backoff_ms : ℕ

-- The settings of `NewConsumer`: 0 stands for the defaults.
unfoldable pub new_consumer : KafkaConfig → Consumer
new_consumer cfg = record {
  max_retries = if cfg.consumer_max_retries == 0 then 3 else cfg.consumer_max_retries;
  backoff_ms = if cfg.consumer_backoff_ms == 0 then 500 else cfg.consumer_backoff_ms;
}

-- `for i := 0; i < attempt; i++ { d *= 2 }`, in int64 nanoseconds.
unfoldable pub doubled : ℕ → ℕ → ℕ
doubled d zero = d
doubled d (suc i) = doubled (d * 2 % 2 ^ 64) i

unfoldable pub backoff_for : Consumer → ℕ → ℕ
unfolding doubled
backoff_for c attempt = doubled (c.backoff_ms * 1000000) attempt

-- The event of a message. A value that is no JSON, or that has no trace id, is poison.
unfoldable pub parse_message : Message → Result ScanEvent
parse_message msg = elim msg.value [
  | none ↦ err (wrap (str_append "unmarshal event at offset " (itoa msg.offset)) decode)
  | some e ↦
      if str_eq e.trace_id ""
      then err (message (str_append "missing trace_id at offset " (itoa msg.offset)))
      else ok e
]

unfoldable pub append_letter : DeadLetter → State → Result (Unit {0}) × State
append_letter l s = (ok tt, record s { topics = record s.topics { dlq = s.topics.dlq ++ l ∷ [] } })

unfoldable pub write_dlq : Message → Error → M (Unit {0})
write_dlq msg cause =
    wrapping "dlq write"
      (call Backend.kafka (append_letter (record { original = msg; reason = error_text cause })))

unfoldable pub commit_offset : ℕ → State → Result (Unit {0}) × State
commit_offset offset s =
    (ok tt, record s { topics = record s.topics { committed = offset ∷ s.topics.committed } })

unfoldable pub commit : Message → M (Unit {0})
commit msg = wrapping "commit offset" (call Backend.kafka (commit_offset msg.offset))

unfoldable pub dead_letter : Message → Error → M (Unit {0})
dead_letter msg cause = do write_dlq msg cause; commit msg

-- `cancelled i` tells whether the context ends in the wait after attempt `i`.
module _ (handler : ScanEvent → M (Unit {0})) (cancelled : ℕ → Bool) where
  -- Attempt `i`, with the retries that are left.
  unfoldable pub attempts : Message → ScanEvent → ℕ → ℕ → M (Unit {0})
  attempts msg e i zero = catch (handler e) (λ _. commit msg) (λ cause. dead_letter msg cause)
  attempts msg e i (suc left) =
      catch (handler e) (λ _. commit msg)
        (λ _.
          if cancelled i then raise (message "context canceled") else attempts msg e (suc i) left)

  abbrev pub consume_parsed : Consumer → Message → Result ScanEvent → M (Unit {0})
  consume_parsed c msg (err cause) = dead_letter msg cause
  consume_parsed c msg (ok e) = attempts msg e 0 c.max_retries

  unfoldable pub process_and_commit : Consumer → Message → M (Unit {0})
  process_and_commit c msg = consume_parsed c msg (parse_message msg)
