-- ===== src/Kafka/Policy.antt =====
-- The commit of offsets: internal/kafka/consumer.go over a handler of events.
use theme_park_nftengine.Prelude.{
  ℕ, zero, suc, String, ◌≡◌, refl, Bool, ◌⊎◌, inl, inr, ◌∷◌, [], ◌++◌, ap,
}
use theme_park_nftengine.Models.{ScanEvent}
use theme_park_nftengine.Errors.{Error, error_text}
use theme_park_nftengine.World.{State, Topics, Message, M, Backend}
use theme_park_nftengine.World.Hoare.{
  Hoare, Hoare-bind, Hoare-call, Hoare-catch, Hoare-raise, Hoare-if, Hoare-wrapping, Hoare-weaken,
}
use theme_park_nftengine.Kafka.Consumer.{
  append_letter, write_dlq, commit_offset, commit, dead_letter, attempts,
}

-- A dead letter of the message stands at the end of the dead letters.
abbrev pub DeadLettered : Message → Topics → Topics → Type 0
DeadLettered msg t₀ t =
    (text : String) × (t.dlq ≡ t₀.dlq ++ record { original = msg; reason = text } ∷ [])

module _ (msg : Message) (t₀ : Topics) (Q : State → Type 0)
    (stable : (s : State) (t : Topics) → Q s → Q (record s { topics = t })) where
  -- The offset is not committed, or it is and the message is finalised.
  abbrev pub Finalised : State → Type 0
  Finalised s =
      (s.topics.committed ≡ t₀.committed)
      ⊎ (s.topics.committed ≡ msg.offset ∷ t₀.committed) × (Q s ⊎ DeadLettered msg t₀ s.topics)

  abbrev Ready : State → Type 0
  Ready s = (s.topics.committed ≡ t₀.committed) × (Q s ⊎ DeadLettered msg t₀ s.topics)

  Ready-committed : (s : State) → Ready s → Finalised (commit_offset msg.offset s).1
  unfolding commit_offset
  Ready-committed s (c, inl q) = inr (ap (◌∷◌ msg.offset) c, inl (stable s _ q))
  Ready-committed s (c, inr d) = inr (ap (◌∷◌ msg.offset) c, inr d)

  commit-Finalised : Hoare Ready (commit msg) (λ _. Finalised) (λ _. Finalised)
  unfolding commit commit_offset
  commit-Finalised = Hoare-wrapping {E = Finalised} _ _ (
      Hoare-call Backend.kafka _ (λ s h. Ready-committed s h) (λ s _ h. inl h.0)
        (λ s _ h. Ready-committed s h))

  pub dead_letter-Finalised :
      (cause : Error)
      → Hoare (λ s. s.topics ≡ t₀) (dead_letter msg cause) (λ _. Finalised) (λ _. Finalised)
  unfolding dead_letter write_dlq append_letter
  dead_letter-Finalised cause =
      Hoare-bind _ _
        (Hoare-wrapping {E = Finalised} _ _ (
          Hoare-call {Q = λ _. Ready} Backend.kafka _
            (λ s h. (ap (λ (t : Topics). t.committed) h, inr (error_text cause, rw h refl)))
            (λ s _ h. inl (ap (λ (t : Topics). t.committed) h))
            (λ s _ h. inl (ap (λ (t : Topics). t.committed) h))))
        (λ _. commit-Finalised)

  -- A handler that leaves the topics alone, and leaves `Q` where it returns.
  module _ (h : ScanEvent → M (Unit {0})) (e : ScanEvent) (cancelled : ℕ → Bool)
      (spec : Hoare
        (λ s. s.topics ≡ t₀)
        (h e)
        (λ _ s. (s.topics ≡ t₀) × Q s)
        (λ _ s. s.topics ≡ t₀)) where
    commit_ready : Hoare (λ s. (s.topics ≡ t₀) × Q s) (commit msg) (λ _. Finalised) (λ _. Finalised)
    commit_ready =
        Hoare-weaken _ commit-Finalised (λ s p. (ap (λ (t : Topics). t.committed) p.0, inl p.1))

    pub attempts-Finalised :
        (i n : ℕ)
        → Hoare
            (λ s. s.topics ≡ t₀)
            (attempts h cancelled msg e i n)
            (λ _. Finalised)
            (λ _. Finalised)
    unfolding attempts
    attempts-Finalised i zero =
        Hoare-catch _ _ _ spec (λ _. commit_ready) (λ cause. dead_letter-Finalised cause)
    attempts-Finalised i (suc n) =
        Hoare-catch _ _ _ spec (λ _. commit_ready)
          λ _.
            Hoare-if (cancelled i) _ _
              (λ _. Hoare-raise _ (λ s p. inl (ap (λ (t : Topics). t.committed) p)))
              (λ _. attempts-Finalised (suc i) n)
