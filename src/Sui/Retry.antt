-- ===== src/Sui/Retry.antt =====
-- The calls of internal/sui/client.go and reader.go: the semaphore, the retries of throttled calls, and
-- the loop that the three transactions share. The replies of the Sui SDK, and the context, are parameters.
use Prim.Native.String.{◌++◌}
use theme_park_nftengine.Prelude.{ℕ, zero, suc, ◌^◌, String, Bool, List, ◌∷◌, ◌||◌, if◌then◌else◌}
use theme_park_nftengine.Errors.{Error, error_text, message, wrap}
use theme_park_nftengine.Text.{itoa, text_contains}
use theme_park_nftengine.World.{Result, ok, err}

-- What a call does: it takes and frees a slot of the semaphore, asks the SDK for a transaction, has one
-- signed and executed, and sleeps for some seconds.
pub data Event : Type 0 where
  acquired released prepared : Event
  executed : String → Event
  slept : ℕ → Event

-- An action with the log of its events, the newest first.
abbrev pub Logged : Type 0 → Type 0
Logged A = List Event → Result A × List Event

-- The two calls of an attempt.
pub data Phase : Type 0 where
  preparing executing : Phase

-- The context of a call: whether each `acquire` gets its slot, and each sleep ends, before the context is
-- done; and its error.
pub record Context : Type 0 where
  pub gets : ℕ → Phase → Bool
  pub sleeps : ℕ → Bool
  pub error : Error

-- The reply to a transaction that was executed.
pub record Executed : Type 0 where
  pub digest : String
  pub status : String

-- The texts of the errors of a transaction.
pub record Labels : Type 0 where
  pub prepare_failed : String
  pub execute_failed : String
  pub gave_up : String

unfoldable pub is_throttled : Error → Bool
is_throttled e =
    text_contains (error_text e) "429"
    || (text_contains (error_text e) "Too Many" || text_contains (error_text e) "rate limit")

-- `fmt.Errorf("… failed (attempt %d): %w", attempt+1, err)`.
abbrev pub attempt_failed : String → ℕ → Error → Error
attempt_failed label n e = wrap (label ++ (" failed (attempt " ++ (itoa (suc n) ++ ")"))) e

-- A transaction: what the SDK answers to its request, and to its execution, at each attempt.
module _ (ctx : Context) (l : Labels) (prepare : ℕ → Result String)
    (execute : String → ℕ → Result Executed) where
  -- A throttled attempt sleeps 2^n seconds and goes on with the next.
  unfoldable pub failed : Logged String → ℕ → String → Error → Logged String
  failed next n label e t =
      if is_throttled e
      then (if ctx.sleeps n then next (slept (2 ^ n) ∷ t) else (err ctx.error, t))
      else (err (attempt_failed label n e), t)

  abbrev pub after_execute : Logged String → ℕ → Result Executed → Logged String
  after_execute next n (ok r) t = (ok r.digest, t)
  after_execute next n (err e) t = failed next n l.execute_failed e t

  abbrev pub after_prepare : Logged String → ℕ → Result String → Logged String
  after_prepare next n (err e) t = failed next n l.prepare_failed e t
  after_prepare next n (ok meta) t =
      if ctx.gets n executing
      then after_execute next n (execute meta n) (released ∷ executed meta ∷ acquired ∷ t)
      else (err ctx.error, t)

  abbrev pub attempt : Logged String → ℕ → Logged String
  attempt next n t =
      if ctx.gets n preparing
      then after_prepare next n (prepare n) (released ∷ prepared ∷ acquired ∷ t)
      else (err ctx.error, t)

  -- The attempts that are left, from number `n` on.
  unfoldable pub attempts : ℕ → ℕ → Logged String
  attempts zero n t = (err (message l.gave_up), t)
  attempts (suc left) n t = attempt (attempts left (suc n)) n t
