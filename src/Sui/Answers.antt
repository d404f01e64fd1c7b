-- ===== src/Sui/Answers.antt =====
-- What the digest of a transaction of internal/sui is: the loop of client.go and reader.go.
use theme_park_nftengine.Prelude.{
  ℕ, zero, suc, ◌<◌, ◌^◌, String, ◌≡◌, refl, Bool, true, false, List, ◌∷◌, arith, if◌then◌else◌,
  subst,
}
use theme_park_nftengine.Errors.{Error}
use theme_park_nftengine.World.{Result, ok, err}
use theme_park_nftengine.Sui.Retry.{
  Event, acquired, released, prepared, executed, slept, Logged, Phase, preparing, executing,
  Context, Executed, Labels, is_throttled, failed, after_execute, after_prepare, attempts,
}

-- A transaction: what the SDK answers to its request and to its execution.
module _ (prepare : ℕ → Result String) (execute : String → ℕ → Result Executed) where
  -- From attempt `n` on, the first that is not throttled comes after `k` others and is answered a digest.
  pub data FirstAnswer : ℕ → ℕ → String → Type 0 where
    answered :
        (n : ℕ) (meta : String) (r : Executed)
        → prepare n ≡ ok meta
        → execute meta n ≡ ok r
        → FirstAnswer n 0 r.digest
    request_throttled :
        (n k : ℕ) (d : String) (e : Error)
        → prepare n ≡ err e
        → is_throttled e ≡ true
        → FirstAnswer (suc n) k d
        → FirstAnswer n (suc k) d
    execution_throttled :
        (n k : ℕ) (d meta : String) (e : Error)
        → prepare n ≡ ok meta
        → execute meta n ≡ err e
        → is_throttled e ≡ true
        → FirstAnswer (suc n) k d
        → FirstAnswer n (suc k) d

  -- Such an answer among the attempts that are left.
  abbrev pub Answer : ℕ → ℕ → String → Type 0
  Answer left n d = (k : ℕ) × (k < left) × FirstAnswer n k d

  module _ (ctx : Context) (l : Labels) where
    throttled_cases :
        (b c : Bool) (next : Logged String) (x y : Error) (t t' : List Event) (d : String)
        → (if b then (if c then next t else (err x, t')) else (err y, t')).0 ≡ ok d
        → (b ≡ true) × ((u : List Event) × ((next u).0 ≡ ok d))
    throttled_cases true true next x y t t' d h = (refl, (t, h))
    throttled_cases true false next x y t t' d h = absurd (cc h)
    throttled_cases false c next x y t t' d h = absurd (cc h)

    failed-next :
        (next : Logged String) (n : ℕ) (label : String) (e : Error) (t : List Event) (d : String)
        → (failed ctx l prepare execute next n label e t).0 ≡ ok d
        → (is_throttled e ≡ true) × ((u : List Event) × ((next u).0 ≡ ok d))
    unfolding failed
    failed-next next n label e t d h =
        throttled_cases (is_throttled e) (ctx.sleeps n) next _ _ _ _ d h

    module _ (left n : ℕ) (d : String)
        (go_on : (u : List Event)
          → (attempts ctx l prepare execute left (suc n) u).0 ≡ ok d
          → Answer left (suc n) d) where
      executed-Answer :
          (meta : String) (r : Result Executed) (t : List Event)
          → prepare n ≡ ok meta
          → execute meta n ≡ r
          → (after_execute ctx l prepare execute
              (attempts ctx l prepare execute left (suc n))
              n
              r
              t).0
            ≡ ok d
          → Answer (suc left) n d
      executed-Answer meta (ok r) t p q h =
          (0, omega arith, subst (FirstAnswer n 0) (cc h) (answered n meta r p q))
      executed-Answer meta (err e) t p q h =
          let (throttled, (u, done)) = failed-next _ n l.execute_failed e t d h in
          let (k, below, rest) = go_on u done in
          (suc k, omega (arith, below), execution_throttled n k d meta e p q throttled rest)

      got_slot :
          (b : Bool) (x : Error) (f : Logged String) (t t' : List Event)
          → (if b then f t else (err x, t')).0 ≡ ok d
          → (f t).0 ≡ ok d
      got_slot true x f t t' h = h
      got_slot false x f t t' h = absurd (cc h)

      prepared-Answer :
          (r : Result String) (t : List Event)
          → prepare n ≡ r
          → (after_prepare ctx l prepare execute
              (attempts ctx l prepare execute left (suc n))
              n
              r
              t).0
            ≡ ok d
          → Answer (suc left) n d
      prepared-Answer (err e) t p h =
          let (throttled, (u, done)) = failed-next _ n l.prepare_failed e t d h in
          let (k, below, rest) = go_on u done in
          (suc k, omega (arith, below), request_throttled n k d e p throttled rest)
      prepared-Answer (ok meta) t p h =
          executed-Answer meta (execute meta n) (released ∷ executed meta ∷ acquired ∷ t) p refl (
            got_slot (ctx.gets n executing) ctx.error
              (after_execute ctx l prepare execute (attempts ctx l prepare execute left (suc n)) n
                (execute meta n))
              (released ∷ executed meta ∷ acquired ∷ t) t h)

    pub attempts-Answer :
        (left n : ℕ) (t : List Event) (d : String)
        → (attempts ctx l prepare execute left n t).0 ≡ ok d
        → Answer left n d
    unfolding attempts
    attempts-Answer zero n t d h = absurd (cc h)
    attempts-Answer (suc left) n t d h =
        prepared-Answer left n d (λ u done. attempts-Answer left (suc n) u d done) (prepare n)
          (released ∷ prepared ∷ acquired ∷ t) refl
          (got_slot left n d (λ u done. attempts-Answer left (suc n) u d done)
            (ctx.gets n preparing) ctx.error
            (after_prepare ctx l prepare execute (attempts ctx l prepare execute left (suc n)) n
              (prepare n))
            (released ∷ prepared ∷ acquired ∷ t) t h)

    module _ (gets : (n : ℕ) (p : Phase) → ctx.gets n p ≡ true)
        (sleeps : (n : ℕ) → ctx.sleeps n ≡ true) where
      -- A throttled attempt goes on.
      failed-on :
          (next : Logged String) (n : ℕ) (label : String) (e : Error) (t : List Event) (d : String)
          → is_throttled e ≡ true
          → ((u : List Event) → (next u).0 ≡ ok d)
          → (failed ctx l prepare execute next n label e t).0 ≡ ok d
      unfolding failed
      failed-on next n label e t d throttled h =
          rw (throttled, failed, sleeps n) (h (slept (2 ^ n) ∷ t))

      pub Answer-attempts :
          (left n k : ℕ) (t : List Event) (d : String)
          → k < left
          → FirstAnswer n k d
          → (attempts ctx l prepare execute left n t).0 ≡ ok d
      unfolding attempts
      Answer-attempts zero n k t d below h = absurd (omega (arith, below))
      Answer-attempts (suc left) _ _ t _ below (answered n meta r p q) =
          rw (gets n preparing, attempts, p, gets n executing, q) refl
      Answer-attempts (suc left) _ _ t _ below (request_throttled n k d e p throttled rest) =
          rw (gets n preparing, attempts, p)
            (failed-on _ n l.prepare_failed e _ d throttled
              (λ u. Answer-attempts left (suc n) k u d (omega (arith, below)) rest))
      Answer-attempts (suc left) _ _ t _ below
            (execution_throttled n k d meta e p q throttled rest) =
          rw (gets n preparing, attempts, p, gets n executing, q)
            (failed-on _ n l.execute_failed e _ d throttled
              (λ u. Answer-attempts left (suc n) k u d (omega (arith, below)) rest))
