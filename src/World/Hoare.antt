-- ===== src/World/Hoare.antt =====
-- Rules for what actions guarantee, under every schedule of faults.
use theme_park_nftengine.Prelude.{subst, String, Bool, true, false, if◌then◌else◌, ◌≡◌, refl}
use theme_park_nftengine.Errors.{Error, driver}
use theme_park_nftengine.World.Defs.{State}
use theme_park_nftengine.World.Actions.{
  Backend, World, Result, ok, err, M, Fault, pass, lost_request, lost_reply, Faults, pure, raise,
  reads, continue, ◌>>=◌, handled, catch, meet, next_fault, wrapping, call,
}

-- What holds of a result and the state that it leaves.
abbrev pub Post :
    {A : Type 0} → (A → State → Type 0) → (Error → State → Type 0) → Result A → State → Type 0
Post Q E (ok a) s = Q a s
Post Q E (err e) s = E e s

-- From a state with `P`, a result leaves `Q` and an error leaves `E`, whatever faults are met.
pub record Hoare {A : Type 0} (P : State → Type 0) (m : M A) (Q : A → State → Type 0)
    (E : Error → State → Type 0) : Type 0 where
  pub run : (w : World) → P w.st → Post Q E (m w).0 (m w).1.st

meet-Post :
    {A : Type 0} (Q : A → State → Type 0) (E : Error → State → Type 0) (fault : Fault)
    (f : State → Result A × State) (fs : Faults) (s : State)
    → Post Q E (f s).0 (f s).1
    → ((text : String) → E (driver text) s)
    → ((text : String) → E (driver text) (f s).1)
    → Post Q E (meet fault f fs s).0 (meet fault f fs s).1.st
meet-Post Q E pass f fs s h request reply = h
meet-Post Q E (lost_request text) f fs s h request reply = request text
meet-Post Q E (lost_reply text) f fs s h request reply = reply text

module _ {A : Type 0} {P : State → Type 0} {Q : A → State → Type 0}
    {E : Error → State → Type 0} where
  pub Hoare-pure : (a : A) → ((s : State) → P s → Q a s) → Hoare P (pure a) Q E
  Hoare-pure a h = record { run = λ w p. h w.st p }

  pub Hoare-raise : (e : Error) → ((s : State) → P s → E e s) → Hoare P (raise e) Q E
  Hoare-raise e h = record { run = λ w p. h w.st p }

  pub Hoare-reads : (f : State → A) → ((s : State) → P s → Q (f s) s) → Hoare P (reads f) Q E
  Hoare-reads f h = record { run = λ w p. h w.st p }

  -- A caller that has tested a Boolean.
  pub Hoare-if :
      (b : Bool) (m n : M A)
      → (b ≡ true → Hoare P m Q E)
      → (b ≡ false → Hoare P n Q E)
      → Hoare P (if b then m else n) Q E
  Hoare-if true m n hm hn = hm refl
  Hoare-if false m n hm hn = hn refl

  -- A call answers, is lost before its effect, or is lost after it.
  pub Hoare-call :
      (b : Backend) (f : State → Result A × State)
      → ((s : State) → P s → Post Q E (f s).0 (f s).1)
      → ((s : State) (text : String) → P s → E (driver text) s)
      → ((s : State) (text : String) → P s → E (driver text) (f s).1)
      → Hoare P (call b f) Q E
  unfolding call
  Hoare-call b f h request reply = record {
    run = λ w p.
        meet-Post Q E (next_fault b w.faults).0 f (next_fault b w.faults).1 w.st (h w.st p)
          (λ text. request w.st text p) (λ text. reply w.st text p);
  }

  pub Hoare-weaken :
      {P' : State → Type 0} (m : M A) → Hoare P' m Q E → ((s : State) → P s → P' s) → Hoare P m Q E
  Hoare-weaken m h up = record { run = λ w p. h.run w (up w.st p) }

Post-weaken :
    {A : Type 0} (Q Q' : A → State → Type 0) (E E' : Error → State → Type 0) (r : Result A)
    (s : State)
    → ((a : A) (s : State) → Q a s → Q' a s)
    → ((e : Error) (s : State) → E e s → E' e s)
    → Post Q E r s
    → Post Q' E' r s
Post-weaken Q Q' E E' (ok a) s q e h = q a s h
Post-weaken Q Q' E E' (err x) s q e h = e x s h

continue-Post :
    {A B : Type 0} (R : A → State → Type 0) (Q : B → State → Type 0) (E : Error → State → Type 0)
    (r : Result A) (f : A → M B) (w : World)
    → ((a : A) → Hoare (R a) (f a) Q E)
    → Post R E r w.st
    → Post Q E (continue r f w).0 (continue r f w).1.st
continue-Post R Q E (ok a) f w hf p = (hf a).run w p
continue-Post R Q E (err e) f w hf p = p

handled-Post :
    {A B : Type 0} (R : A → State → Type 0) (F : Error → State → Type 0) (Q : B → State → Type 0)
    (E : Error → State → Type 0) (r : Result A) (f : A → M B) (g : Error → M B) (w : World)
    → ((a : A) → Hoare (R a) (f a) Q E)
    → ((e : Error) → Hoare (F e) (g e) Q E)
    → Post R F r w.st
    → Post Q E (handled r f g w).0 (handled r f g w).1.st
handled-Post R F Q E (ok a) f g w hf hg p = (hf a).run w p
handled-Post R F Q E (err e) f g w hf hg p = (hg e).run w p

module _ {A : Type 0} {P : State → Type 0} where
  -- What is guaranteed may be weakened.
  pub Hoare-consequence :
      {Q Q' : A → State → Type 0} {E E' : Error → State → Type 0} (m : M A)
      → Hoare P m Q E
      → ((a : A) (s : State) → Q a s → Q' a s)
      → ((e : Error) (s : State) → E e s → E' e s)
      → Hoare P m Q' E'
  Hoare-consequence m h q e = record {
    run = λ w p. Post-weaken _ _ _ _ (m w).0 (m w).1.st q e (h.run w p);
  }

module _ {A B : Type 0} {P : State → Type 0} {E : Error → State → Type 0} where
  pub Hoare-bind :
      {R : A → State → Type 0} {Q : B → State → Type 0} (m : M A) (f : A → M B)
      → Hoare P m R E
      → ((a : A) → Hoare (R a) (f a) Q E)
      → Hoare P (m >>= f) Q E
  unfolding ◌>>=◌
  Hoare-bind {R} {Q} m f hm hf = record {
    run = λ w p. continue-Post R Q E (m w).0 f (m w).1 hf (hm.run w p);
  }

  pub Hoare-catch :
      {R : A → State → Type 0} {F : Error → State → Type 0} {Q : B → State → Type 0} (m : M A)
      (f : A → M B) (g : Error → M B)
      → Hoare P m R F
      → ((a : A) → Hoare (R a) (f a) Q E)
      → ((e : Error) → Hoare (F e) (g e) Q E)
      → Hoare P (catch m f g) Q E
  unfolding catch
  Hoare-catch {R} {F} {Q} m f g hm hf hg = record {
    run = λ w p. handled-Post R F Q E (m w).0 f g (m w).1 hf hg (hm.run w p);
  }

Post-any : {A : Type 0} (r : Result A) (s : State) → Post (λ _ _. Unit {0}) (λ _ _. Unit {0}) r s
Post-any (ok a) s = tt
Post-any (err e) s = tt

-- Nothing is asked.
pub Hoare-any :
    {A : Type 0} {P : State → Type 0} (m : M A) → Hoare P m (λ _ _. Unit {0}) (λ _ _. Unit {0})
Hoare-any m = record { run = λ w _. Post-any (m w).0 (m w).1.st }

-- A fact that no state changes.
pub Hoare-fact :
    {A F : Type 0} {P : State → Type 0} {Q : A → State → Type 0} {E : Error → State → Type 0}
    (m : M A)
    → (F → Hoare P m Q E)
    → Hoare (λ s. F × P s) m Q E
Hoare-fact m h = record { run = λ w p. (h p.0).run w p.1 }

-- An error that gets a context.
pub Hoare-wrapping :
    {A : Type 0} {P : State → Type 0} {Q : A → State → Type 0} {E : State → Type 0} (c : String)
    (m : M A)
    → Hoare P m Q (λ _. E)
    → Hoare P (wrapping c m) Q (λ _. E)
Hoare-wrapping c m h =
    Hoare-catch m _ _ h (λ a. Hoare-pure a (λ s q. q)) (λ e. Hoare-raise _ (λ s p. p))

-- `m` keeps `I`, whether it returns or fails.
pub record Keeps {A : Type 0} (I : State → Type 0) (m : M A) : Type 0 where
  pub at : (w : World) → I w.st → I (m w).1.st

pub Post-both :
    {A : Type 0} (I : State → Type 0) (s : State) (r : Result A) → Post (λ _. I) (λ _. I) r s → I s
Post-both I s (ok a) h = h
Post-both I s (err e) h = h

both-Post :
    {A : Type 0} (I : State → Type 0) (s : State) (r : Result A) → I s → Post (λ _. I) (λ _. I) r s
both-Post I s (ok a) h = h
both-Post I s (err e) h = h

module _ {A : Type 0} {I : State → Type 0} where
  pub Keeps-of : (m : M A) → Hoare I m (λ _. I) (λ _. I) → Keeps I m
  Keeps-of m h = record { at = λ w p. Post-both I (m w).1.st (m w).0 (h.run w p) }

  pub of_Keeps : (m : M A) → Keeps I m → Hoare I m (λ _. I) (λ _. I)
  of_Keeps m h = record { run = λ w p. both-Post I (m w).1.st (m w).0 (h.at w p) }

  pub Keeps-pure : (a : A) → Keeps I (pure a)
  Keeps-pure a = record { at = λ w p. p }

  pub Keeps-raise : (e : Error) → Keeps I (raise {A = A} e)
  Keeps-raise e = record { at = λ w p. p }

  pub Keeps-reads : (f : State → A) → Keeps I (reads f)
  Keeps-reads f = record { at = λ w p. p }

  pub Keeps-if : (b : Bool) (m n : M A) → Keeps I m → Keeps I n → Keeps I (if b then m else n)
  Keeps-if true m n hm hn = hm
  Keeps-if false m n hm hn = hn

  pub Keeps-call :
      (b : Backend) (f : State → Result A × State)
      → ((s : State) → I s → I (f s).1)
      → Keeps I (call b f)
  Keeps-call b f h =
      Keeps-of (call b f)
        (Hoare-call b f (λ s p. both-Post I (f s).1 (f s).0 (h s p)) (λ s _ p. p) (λ s _ p. h s p))

module _ {A B : Type 0} {I : State → Type 0} where
  pub Keeps-bind :
      (m : M A) (f : A → M B) → Keeps I m → ((a : A) → Keeps I (f a)) → Keeps I (m >>= f)
  Keeps-bind m f hm hf =
      Keeps-of (m >>= f) (Hoare-bind m f (of_Keeps m hm) (λ a. of_Keeps (f a) (hf a)))

  pub Keeps-catch :
      (m : M A) (f : A → M B) (g : Error → M B)
      → Keeps I m
      → ((a : A) → Keeps I (f a))
      → ((e : Error) → Keeps I (g e))
      → Keeps I (catch m f g)
  Keeps-catch m f g hm hf hg =
      Keeps-of (catch m f g) (
        Hoare-catch m f g (of_Keeps m hm) (λ a. of_Keeps (f a) (hf a)) (λ e. of_Keeps (g e) (hg e)))

-- An action that keeps `I`, where nothing is asked of its errors.
pub keeping :
    {A : Type 0} {I : State → Type 0} (m : M A) → Keeps I m → Hoare I m (λ _. I) (λ _ _. Unit {0})
keeping m h = Hoare-consequence m (of_Keeps m h) (λ a s i. i) (λ e s i. tt)

Post-and :
    {A : Type 0} (I : State → Type 0) (Q : A → State → Type 0) (E : Error → State → Type 0)
    (r : Result A) (s : State)
    → I s
    → Post Q E r s
    → Post (λ a s. I s × Q a s) (λ e s. I s × E e s) r s
Post-and I Q E (ok a) s i h = (i, h)
Post-and I Q E (err e) s i h = (i, h)

-- What is kept holds beside what is guaranteed.
pub Hoare-and :
    {A : Type 0} {I P : State → Type 0} {Q : A → State → Type 0} {E : Error → State → Type 0}
    (m : M A)
    → Keeps I m
    → Hoare P m Q E
    → Hoare (λ s. I s × P s) m (λ a s. I s × Q a s) (λ e s. I s × E e s)
Hoare-and {I} {Q} {E} m k h = record {
  run = λ w p. Post-and I Q E (m w).0 (m w).1.st (k.at w p.0) (h.run w p.1);
}

-- What a result guarantees about its value.
pub Hoare-value :
    {A : Type 0} {P : State → Type 0} {Q : A → State → Type 0} {E : Error → State → Type 0}
    (m : M A)
    → Hoare P m Q E
    → (w : World) (a : A) → P w.st
    → (m w).0 ≡ ok a
    → Q a (m w).1.st
Hoare-value {Q} {E} m h w a p e = subst (λ r. Post Q E r (m w).1.st) e (h.run w p)

answered :
    {A : Type 0} (Q : A → State → Type 0) (r : Result A) (s : State)
    → Post Q (λ _ _. ⊥) r s
    → (a : A) × (r ≡ ok a) × Q a s
answered Q (ok a) s q = (a, refl, q)
answered Q (err e) s q = absurd q

-- An action that does not fail.
pub Hoare-answered :
    {A : Type 0} {P : State → Type 0} {Q : A → State → Type 0} (m : M A)
    → Hoare P m Q (λ _ _. ⊥)
    → (w : World) → P w.st
    → (a : A) × ((m w).0 ≡ ok a) × Q a (m w).1.st
Hoare-answered {Q} m h w p = answered Q (m w).0 (m w).1.st (h.run w p)

pub ruleset keeps_rules = (Keeps-pure, Keeps-raise, Keeps-reads, Keeps-if, Keeps-bind, Keeps-catch)

Post-pair :
    {A : Type 0} (Q Q' : A → State → Type 0) (E E' : Error → State → Type 0) (r : Result A)
    (s : State)
    → Post Q E r s
    → Post Q' E' r s
    → Post (λ a s. Q a s × Q' a s) (λ e s. E e s × E' e s) r s
Post-pair Q Q' E E' (ok a) s h h' = (h, h')
Post-pair Q Q' E E' (err e) s h h' = (h, h')

-- Two guarantees hold together.
pub Hoare-pair :
    {A : Type 0} {P P' : State → Type 0} {Q Q' : A → State → Type 0} {E E' : Error → State → Type 0}
    {m : M A}
    → Hoare P m Q E
    → Hoare P' m Q' E'
    → Hoare (λ s. P s × P' s) m (λ a s. Q a s × Q' a s) (λ e s. E e s × E' e s)
Hoare-pair {Q} {Q'} {E} {E'} {m} h k = record {
  run = λ w p. Post-pair Q Q' E E' (m w).0 (m w).1.st (h.run w p.0) (k.run w p.1);
}
