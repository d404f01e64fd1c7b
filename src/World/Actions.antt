-- ===== src/World/Actions.antt =====
-- Actions: state passing with errors, over the schedules of faults.
use theme_park_nftengine.Prelude.{String, List, [], ◌∷◌}
use theme_park_nftengine.Errors.{Error, driver, wrap}
use theme_park_nftengine.World.Defs.{State}

pub data Fault : Type 0 where
  pass : Fault
  lost_request lost_reply : String → Fault

-- The schedule of each backend; past its end every call passes.
pub record Faults : Type 0 where
  pub redis : List Fault
  pub postgres : List Fault
  pub kafka : List Fault
  pub sui : List Fault

pub data Backend : Type 0 where
  redis postgres kafka sui : Backend

pub record World : Type 0 where
  pub faults : Faults
  pub st : State

pub data Result {ℓ} (A : Type ℓ) : Type ℓ where
  ok : A → Result A
  err : Error → Result A

abbrev pub M : Type 0 → Type 0
M A = World → Result A × World

abbrev pub pure : {A : Type 0} → A → M A
pure a w = (ok a, w)

abbrev pub raise : {A : Type 0} → Error → M A
raise e w = (err e, w)

abbrev pub reads : {A : Type 0} → (State → A) → M A
reads f w = (ok (f w.st), w)

abbrev pub continue : {A B : Type 0} → Result A → (A → M B) → M B
continue (ok a) f w = f a w
continue (err e) f w = (err e, w)

infixl 5 ◌>>=◌ ◌>>◌
unfoldable pub ◌>>=◌ : {A B : Type 0} → M A → (A → M B) → M B
◌>>=◌ m f w = let (r, w') = m w in continue r f w'

abbrev pub ◌>>◌ : {A B : Type 0} → M A → M B → M B
m >> k = m >>= λ _. k

abbrev pub handled : {A B : Type 0} → Result A → (A → M B) → (Error → M B) → M B
handled (ok a) f g w = f a w
handled (err e) f g w = g e w

-- `if err := m; err != nil { … } else { … }`.
unfoldable pub catch : {A B : Type 0} → M A → (A → M B) → (Error → M B) → M B
catch m f g w = let (r, w') = m w in handled r f g w'

-- `_ = m`: the result is dropped, and the effect stays.
abbrev pub best_effort : {A : Type 0} → M A → M (Unit {0})
best_effort m = catch m (λ _. pure tt) (λ _. pure tt)

-- `fmt.Errorf("context: %w", err)`.
abbrev pub wrapping : {A : Type 0} → String → M A → M A
wrapping context m = catch m pure (λ e. raise (wrap context e))

head_or_pass : List Fault → Fault
head_or_pass [] = pass
head_or_pass (f ∷ fs) = f

rest_of : List Fault → List Fault
rest_of [] = []
rest_of (f ∷ fs) = fs

-- The next fault of a backend, and the schedules behind it.
unfoldable pub next_fault : Backend → Faults → Fault × Faults
unfolding head_or_pass rest_of
next_fault redis f = (head_or_pass f.redis, record f { redis = rest_of f.redis })
next_fault postgres f = (head_or_pass f.postgres, record f { postgres = rest_of f.postgres })
next_fault kafka f = (head_or_pass f.kafka, record f { kafka = rest_of f.kafka })
next_fault sui f = (head_or_pass f.sui, record f { sui = rest_of f.sui })

abbrev pub meet :
    {A : Type 0} → Fault → (State → Result A × State) → Faults → State → Result A × World
meet pass f fs s = let (r, s') = f s in (r, record { faults = fs; st = s' })
meet (lost_request text) f fs s = (err (driver text), record { faults = fs; st = s })
meet (lost_reply text) f fs s =
    let (r, s') = f s in (err (driver text), record { faults = fs; st = s' })

-- A call of a backend.
unfoldable pub call : {A : Type 0} → Backend → (State → Result A × State) → M A
unfolding next_fault
call b f w = let (fault, fs) = next_fault b w.faults in meet fault f fs w.st

-- No call fails from here on.
abbrev pub calm : State → World
calm s = record { faults = record { redis = []; postgres = []; kafka = []; sui = [] }; st = s }
