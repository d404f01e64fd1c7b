-- ===== src/Kafka/Workers.antt =====
-- The messages of the worker pool: internal/kafka/consumer.go.
use theme_park_nftengine.Prelude.{
  ℕ, ◌+◌, ◌*◌, ◌≤◌, ◌<◌, ◌≡◌, refl, Bool, false, List, [], ◌∷◌, ◌++◌, arith, length, count_where,
  length-append, ◌⊎◌, inl, inr, ap, ◌∙◌,
}
use theme_park_nftengine.World.{World, Message}
use theme_park_nftengine.Kafka.Run.{
  Pool, Step, fetches, takes, finishes, stops, Run, rests, goes, started,
}

count_where-append :
    (f : Message → Bool) (xs ys : List Message)
    → count_where f (xs ++ ys) ≡ count_where f xs + count_where f ys
unfolding count_where
count_where-append f [] ys = omega arith
count_where-append f (x ∷ xs) ys = omega (arith, count_where-append f xs ys)

-- The messages that pass a test, wherever they are.
abbrev pub total : (Message → Bool) → Pool → ℕ
total f p =
    count_where f p.to_fetch
    + (count_where f p.queue + (count_where f p.busy + count_where f p.finished))

-- What the pool has room for.
abbrev pub Fits : ℕ → Pool → Type 0
Fits workers p = (length p.queue ≤ workers * 2) × (length p.busy ≤ workers)

-- What a closed pool has left to do.
abbrev pub work : Pool → ℕ
work p = length p.queue * 2 + length p.busy

module _ (process : Message → World → World) (workers : ℕ) where
  Step-total : (f : Message → Bool) (p q : Pool) → Step process workers p q → total f q ≡ total f p
  unfolding count_where
  Step-total f _ _ (fetches p m ms live next room) =
      rw next (omega (arith, count_where-append f p.queue (m ∷ [])))
  Step-total f _ _ (takes p m ms next idle) = rw next (omega arith)
  Step-total f _ _ (finishes p xs ys m held) =
      rw held (omega (arith, count_where-append f xs ys, count_where-append f xs (m ∷ ys)))
  Step-total f _ _ (stops p live) = refl

  Step-Fits : (p q : Pool) → Step process workers p q → Fits workers p → Fits workers q
  Step-Fits _ _ (fetches p m ms live next room) h =
      (omega (arith, length-append p.queue (m ∷ []), room), h.1)
  Step-Fits _ _ (takes p m ms next idle) h =
      (omega (arith, h.0, ap length next), omega (arith, idle))
  Step-Fits _ _ (finishes p xs ys m held) h =
      (h.0, omega (arith, h.1, ap length held, length-append xs ys, length-append xs (m ∷ ys)))
  Step-Fits _ _ (stops p live) h = h

  pub Run-total :
      (f : Message → Bool) (p q : Pool) → Run process workers p q → total f q ≡ total f p
  Run-total f _ _ (rests p) = refl
  Run-total f _ _ (goes p q r s rest) = Run-total f q r rest ∙ Step-total f p q s

  Run-Fits : (p q : Pool) → Run process workers p q → Fits workers p → Fits workers q
  Run-Fits _ _ (rests p) h = h
  Run-Fits _ _ (goes p q r s rest) h = Run-Fits q r rest (Step-Fits p q s h)

  -- The worker pool loses no message and takes none twice. However fetches, workers and the end of the context
  -- interleave, of the messages that pass any test the topic held as many at the start as are not fetched yet,
  -- in the channel, in the hands of a worker, and finished together; the channel never holds more than two
  -- messages for each worker, and the workers never more than one each.
  pub pool_accounts :
      (f : Message → Bool) (ms : List Message) (w : World) (p : Pool)
      → Run process workers (started ms w) p
      → (count_where f p.to_fetch
            + (count_where f p.queue + (count_where f p.busy + count_where f p.finished))
          ≡ count_where f ms)
        × Fits workers p
  unfolding count_where
  pool_accounts f ms w p run = (
    omega (arith, Run-total f (started ms w) p run),
    Run-Fits (started ms w) p run (omega arith, omega arith),
  )

  -- A closed pool does something of its work with every step.
  pub closed-work :
      (p q : Pool)
      → p.is_running ≡ false
      → Step process workers p q
      → (work q < work p) × (q.is_running ≡ false)
  closed-work _ _ closed (fetches p m ms live next room) = absurd (cc)
  closed-work _ _ closed (takes p m ms next idle) = (omega (arith, ap length next), closed)
  closed-work _ _ closed (finishes p xs ys m held) =
      (omega (arith, ap length held, length-append xs ys, length-append xs (m ∷ ys)), closed)
  closed-work _ _ closed (stops p live) = absurd (cc)

  pub closed-progress :
      (p : Pool) → 0 < workers → (work p ≡ 0) ⊎ ((q : Pool) × Step process workers p q)
  closed-progress p some_worker = progress p.queue p.busy refl refl
    where
      progress :
          (xs ys : List Message)
          → p.queue ≡ xs
          → p.busy ≡ ys
          → (work p ≡ 0) ⊎ ((q : Pool) × Step process workers p q)
      progress [] [] e e' = inl (omega (arith, ap length e, ap length e'))
      progress xs (y ∷ ys) e e' = inr (_, finishes p [] ys y e')
      progress (x ∷ xs) [] e e' = inr (_, takes p x xs e (omega (arith, ap length e', some_worker)))
