-- ===== src/Kafka/Poison.antt =====
-- Messages that decode to no event: internal/kafka/consumer.go.
use theme_park_nftengine.Prelude.{◌≡◌, refl, ℕ, Bool, ◌∷◌, [], ◌++◌}
use theme_park_nftengine.Models.{ScanEvent}
use theme_park_nftengine.Errors.{Error, error_text}
use theme_park_nftengine.World.{State, World, Message, M, Backend, ok, err}
use theme_park_nftengine.World.Hoare.{Hoare, Hoare-bind, Hoare-call, Hoare-wrapping, Hoare-value}
use theme_park_nftengine.Kafka.Consumer.{
  Consumer, parse_message, append_letter, write_dlq, commit_offset, commit, dead_letter,
  process_and_commit,
}

abbrev lettered : Message → Error → State → State
lettered msg cause s = record s {
  topics = record s.topics {
    dlq = s.topics.dlq ++ record { original = msg; reason = error_text cause } ∷ [];
  };
}

abbrev pub finished : Message → Error → State → State
finished msg cause s = record s {
  topics = record s.topics {
    dlq = s.topics.dlq ++ record { original = msg; reason = error_text cause } ∷ [];
    committed = msg.offset ∷ s.topics.committed;
  };
}

dead_letter-finished :
    (msg : Message) (cause : Error) (s₀ : State)
    → Hoare
        (λ s. s ≡ s₀)
        (dead_letter msg cause)
        (λ _ s. s ≡ finished msg cause s₀)
        (λ _ _. Unit {0})
unfolding dead_letter write_dlq append_letter commit commit_offset
dead_letter-finished msg cause s₀ =
    Hoare-bind {R = λ _ s. s ≡ lettered msg cause s₀} _ _
      (Hoare-wrapping {E = λ _. Unit {0}} _ _
        (Hoare-call Backend.kafka _ (λ s h. rw h refl) (λ _ _ _. tt) (λ _ _ _. tt)))
      (λ _.
        Hoare-wrapping {E = λ _. Unit {0}} _ _
          (Hoare-call Backend.kafka _ (λ s h. rw h refl) (λ _ _ _. tt) (λ _ _ _. tt)))

-- A message that decodes to no event, or whose event has no trace id, never reaches the handler: where
-- the consumer returns without an error, the message stands at the end of the dead letters with the
-- parse error as its reason, its offset is committed, and nothing else of the state has changed,
-- whatever the handler would do.
pub poison_is_dead_lettered :
    (handler : ScanEvent → M (Unit {0})) (cancelled : ℕ → Bool) (c : Consumer) (msg : Message)
    (cause : Error) (w : World)
    → parse_message msg ≡ err cause
    → (process_and_commit handler cancelled c msg w).0 ≡ ok tt
    → (process_and_commit handler cancelled c msg w).1.st ≡ finished msg cause w.st
unfolding process_and_commit
poison_is_dead_lettered handler cancelled c msg cause w poison done =
    Hoare-value _ (consumed) w tt refl done
  where
    consumed :
        Hoare
          (λ s. s ≡ w.st)
          (process_and_commit handler cancelled c msg)
          (λ _ s. s ≡ finished msg cause w.st)
          (λ _ _. Unit {0})
    consumed = rw (poison, process_and_commit) (dead_letter-finished msg cause w.st)
