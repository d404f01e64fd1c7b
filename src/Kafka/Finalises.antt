-- ===== src/Kafka/Finalises.antt =====
-- What the consumer of internal/kafka/consumer.go guarantees over the handler of
-- internal/pipeline/handler.go.
use theme_park_nftengine.Prelude.{◌≡◌, refl, ℕ, zero, suc, Bool, ◌⊎◌, inl, inr, ◌∷◌}
use theme_park_nftengine.Models.{ScanEvent}
use theme_park_nftengine.Errors.{Error}
use theme_park_nftengine.Config.{RedisConfig}
use theme_park_nftengine.Keyspace.Keys.{dedup}
use theme_park_nftengine.World.{State, World, Topics, Message, M, Backend, ok}
use theme_park_nftengine.World.Hoare.{
  Post-both, Hoare, Hoare-and, Hoare-consequence, Keeps, Keeps-call, Keeps-bind, Keeps-catch,
  Keeps-pure, Keeps-raise, Keeps-if,
}
use theme_park_nftengine.Redis.Commands.{get}
use theme_park_nftengine.Pipeline.Handler.{handle}
use theme_park_nftengine.Pipeline.Stored.{Stored, HasMarker, handle-Hoare}
use theme_park_nftengine.Pipeline.Faithful.{IsFaithful, start-IsFaithful, handle-IsFaithful}
use theme_park_nftengine.Pipeline.Accounted.{Accounted, Stored-Accounted}
use theme_park_nftengine.Pipeline.TopicsKept.{Kept, handle-Topics}
use theme_park_nftengine.Kafka.Consumer.{
  Consumer, parse_message, process_and_commit, attempts, dead_letter, write_dlq, append_letter,
  commit, commit_offset,
}
use theme_park_nftengine.Kafka.Policy.{DeadLettered, Finalised, attempts-Finalised}

-- The trace has its marker, or rows of it are there.
abbrev HasSettled : Bool → ScanEvent → State → Type 0
HasSettled armed e s = HasMarker e.trace_id s ⊎ Stored armed e s

handle-HasSettled :
    (cfg : RedisConfig) (armed : Bool) (e : ScanEvent) (t₀ : Topics)
    → Hoare (Kept t₀) (handle cfg armed e) (λ _ s. Kept t₀ s × HasSettled armed e s) (λ _. Kept t₀)
handle-HasSettled cfg armed e t₀ = record {
  run = λ w p.
      (Hoare-consequence _
          (Hoare-and _ (handle-Topics t₀ cfg armed e)
            (handle-Hoare cfg armed e (get w.st (dedup e.trace_id))))
          (λ _ s h. (h.0, settled s h.1)) (λ _ _ h. h.0)).run
        w (p, refl);
}
  where
    settled :
        {F : Type 0} (s : State)
        → F × HasMarker e.trace_id s ⊎ Stored armed e s
        → HasSettled armed e s
    settled s (inl (_, m)) = inl m
    settled s (inr a) = inr a

-- The trace has its marker, or the event is accounted for from a first state on.
abbrev pub Settled : State → Bool → ScanEvent → State → Type 0
Settled s₀ armed e s = HasMarker e.trace_id s ⊎ Accounted s₀ armed e s

-- What the handler and a change of the topics keep, the attempts keep.
module _ (I : State → Type 0)
    (topics : (s : State) (t : Topics) → I s → I (record s { topics = t }))
    (h : ScanEvent → M (Unit {0})) (e : ScanEvent) (keeps : Keeps I (h e)) (cancelled : ℕ → Bool)
    (msg : Message) where
  commit-Kept : Keeps I (commit msg)
  unfolding commit commit_offset
  commit-Kept =
      Keeps-catch _ _ _ (Keeps-call Backend.kafka _ (λ s p. topics s _ p)) (λ a. Keeps-pure a)
        (λ _. Keeps-raise _)

  dead_letter-Kept : (cause : Error) → Keeps I (dead_letter msg cause)
  unfolding dead_letter write_dlq append_letter
  dead_letter-Kept cause =
      Keeps-bind _ _
        (Keeps-catch _ _ _ (Keeps-call Backend.kafka _ (λ s p. topics s _ p)) (λ a. Keeps-pure a)
          (λ _. Keeps-raise _))
        (λ _. commit-Kept)

  attempts-Kept : (i left : ℕ) → Keeps I (attempts h cancelled msg e i left)
  unfolding attempts
  attempts-Kept i zero =
      Keeps-catch _ _ _ keeps (λ _. commit-Kept) (λ cause. dead_letter-Kept cause)
  attempts-Kept i (suc left) =
      Keeps-catch _ _ _ keeps (λ _. commit-Kept)
        (λ _. Keeps-if (cancelled i) _ _ (Keeps-raise _) (attempts-Kept (suc i) left))

Settled-faithful :
    (s₀ : State) (armed : Bool) (e : ScanEvent) (s : State)
    → IsFaithful s₀ e s
    → HasSettled armed e s
    → Settled s₀ armed e s
Settled-faithful s₀ armed e s faithful (inl marker) = inl marker
Settled-faithful s₀ armed e s faithful (inr stored) =
    inr (Stored-Accounted s₀ armed e s faithful stored)

-- A message that decodes to an event is finalised before its offset is committed, whatever calls of
-- Redis, Postgres and Kafka fail before or after their effect, whatever number of retries is configured,
-- and whether the context ends or not: either no offset is committed, or the message's own offset is,
-- exactly once, and then the trace has its duplicate marker, or the event is accounted for (its row, with its
-- visitor, ticket, ride and time, stands in scan_events, and its ride is in the daily set, or the row of its
-- visitor, ride and time in the outbox, where a row of the same trace that was there before stands in place
-- of the event's), or the message stands at the end of the dead letters.
pub consume_finalises :
    (cfg : RedisConfig) (armed : Bool) (c : Consumer) (cancelled : ℕ → Bool) (msg : Message)
    (e : ScanEvent) (w : World)
    → parse_message msg ≡ ok e
    → let s = (process_and_commit (handle cfg armed) cancelled c msg w).1.st in
      (s.topics.committed ≡ w.st.topics.committed)
      ⊎ (s.topics.committed ≡ msg.offset ∷ w.st.topics.committed)
        × (Settled w.st armed e s ⊎ DeadLettered msg w.st.topics s.topics)
unfolding process_and_commit
consume_finalises cfg armed c cancelled msg e w parsed =
    rw parsed
      (elim (Post-both (Finalised msg w.st.topics (HasSettled armed e) (λ s t q. q)) _ _ (
        (attempts-Finalised msg w.st.topics (HasSettled armed e) (λ s t q. q) (handle cfg armed) e
            cancelled (handle-HasSettled cfg armed e w.st.topics) 0 c.max_retries).run
          w refl)) [
            | inl uncommitted ↦ inl uncommitted
            | inr (committed, inr dead) ↦ inr (committed, inr dead)
            | inr (committed, inl settled) ↦
                inr (committed, inl (Settled-faithful w.st armed e _ faithful settled))
          ])
  where
    faithful :
        IsFaithful w.st e (attempts (handle cfg armed) cancelled msg e 0 c.max_retries w).1.st
    faithful =
        (attempts-Kept (IsFaithful w.st e)
            (λ s t h. record { same_users = h.same_users; scan = h.scan; parked = h.parked })
            (handle cfg armed) e (handle-IsFaithful w.st cfg armed e) cancelled msg 0
            c.max_retries).at
          w (start-IsFaithful w.st e)
