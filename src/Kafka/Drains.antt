-- ===== src/Kafka/Drains.antt =====
-- The end of the worker pool: internal/kafka/consumer.go.
use theme_park_nftengine.Prelude.{
  ℕ, zero, suc, ◌+◌, ◌≤◌, ◌<◌, ◌≡◌, refl, Bool, false, List, [], ◌∷◌, arith, length, count_where,
  inl, inr, ap, ◌∙◌,
}
use theme_park_nftengine.World.{World, Message}
use theme_park_nftengine.Kafka.Run.{Pool, Step, Run, rests, goes, takes, finishes, fetches, stops}
use theme_park_nftengine.Kafka.Workers.{work, Run-total, closed-work, closed-progress}

empty_of : (xs : List Message) → length xs ≡ 0 → xs ≡ []
empty_of [] h = refl
empty_of (x ∷ xs) h = absurd (omega (arith, h))

none_in : (xs : List Message) → length xs ≡ 0 → (f : Message → Bool) → count_where f xs ≡ 0
unfolding count_where
none_in [] h f = refl
none_in (x ∷ xs) h f = absurd (omega (arith, h))

module _ (process : Message → World → World) (workers : ℕ) where
  -- Every message of the pool is finished.
  abbrev pub Drained : Pool → Pool → Type 0
  Drained p q =
      (q.queue ≡ [])
      × (q.busy ≡ [])
      × ((f : Message → Bool)
          → count_where f q.finished
            ≡ count_where f p.queue + (count_where f p.busy + count_where f p.finished))

  same_topic :
      (p q : Pool) → p.is_running ≡ false → Step process workers p q → q.to_fetch ≡ p.to_fetch
  same_topic _ _ closed (fetches p m ms live next room) = absurd (cc)
  same_topic _ _ closed (takes p m ms next idle) = refl
  same_topic _ _ closed (finishes p xs ys m held) = refl
  same_topic _ _ closed (stops p live) = refl

  Run-to_end :
      (fuel : ℕ) (p : Pool)
      → 0 < workers
      → p.is_running ≡ false
      → work p ≤ fuel
      → (q : Pool) × Run process workers p q × (work q ≡ 0) × (q.to_fetch ≡ p.to_fetch)
  Run-to_end zero p some_worker closed enough = (p, rests p, omega (arith, enough), refl)
  Run-to_end (suc left) p some_worker closed enough =
      elim (closed-progress process workers p some_worker) [
        | inl over ↦ (p, rests p, over, refl)
        | inr (q, s) ↦
            let (less, still) = closed-work process workers p q closed s in
            let (r, rest, over, same) =
              Run-to_end left q some_worker still (omega (arith, less, enough)) in
            (r, goes p q r s rest, over, same ∙ same_topic p q closed s)
      ]

  -- When the context has ended and the channel is closed, the pool drains: a run leads to a pool without
  -- work in which every message that was in the channel or in the hands of a worker is finished, and every
  -- step on the way, in whatever order the workers go, leaves less work. There is one worker at least, and
  -- the processing of a message ends.
  pub closed_pool_drains :
      (p : Pool)
      → 0 < workers
      → p.is_running ≡ false
      → ((q : Pool) × Run process workers p q × Drained p q)
        × ((q : Pool) → Step process workers p q → (work q < work p) × (q.is_running ≡ false))
  closed_pool_drains p some_worker closed =
      let (q, run, over, same) = Run-to_end (work p) p some_worker closed (omega arith) in
      (
        (
          q,
          run,
          (
            empty_of q.queue (omega (arith, over)),
            empty_of q.busy (omega (arith, over)),
            λ f. finished q run over same f,
          ),
        ),
        λ q s. closed-work process workers p q closed s,
      )
    where
      finished :
          (q : Pool)
          → Run process workers p q
          → work q ≡ 0
          → q.to_fetch ≡ p.to_fetch
          → (f : Message → Bool)
          → count_where f q.finished
            ≡ count_where f p.queue + (count_where f p.busy + count_where f p.finished)
      finished q run over same f = omega (
        arith,
        Run-total process workers f p q run,
        ap (count_where f) same,
        none_in q.queue (omega (arith, over)) f,
        none_in q.busy (omega (arith, over)) f,
      )
