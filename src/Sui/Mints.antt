-- ===== src/Sui/Mints.antt =====
-- The answer of a batch mint: internal/sui/client.go.
use theme_park_nftengine.Prelude.{
  ℕ, zero, suc, String, ◌≡◌, refl, true, false, List, [], ◌∷◌, Bool-cases, inl, inr, str_eq, ◌↔◌,
  fun_ext,
}
use theme_park_nftengine.World.{Result, ok, err}
use theme_park_nftengine.Sui.Client.{
  Client, Sdk, mint_batch_attendance, submit_mint, mint_labels, mint_request,
}
use theme_park_nftengine.Sui.Retry.{
  Event, acquired, released, prepared, executed, Logged, Phase, preparing, executing, Context,
  Executed, Labels, failed, after_execute, after_prepare, attempts,
}
use theme_park_nftengine.Sui.Answers.{Answer, attempts-Answer, Answer-attempts}

-- A context that is not done during the call.
pub record IsPatient (ctx : Context) : Type 0 where
  pub gets : (n : ℕ) (p : Phase) → ctx.gets n p ≡ true
  pub sleeps : (n : ℕ) → ctx.sleeps n ≡ true

mint_attempts :
    (sdk : Sdk) (ctx : Context) (c : Client) (address ride date : String)
    (rides names urls : List String)
    → str_eq c.package_id "" ≡ false
    → str_eq c.mint_cap_id "" ≡ false
    → mint_batch_attendance sdk ctx c address (ride ∷ rides) date names urls
      ≡ attempts ctx mint_labels
          (sdk.move_call (mint_request sdk ctx c address (ride ∷ rides) date names urls))
          (sdk.sign_and_execute c.signer.key)
          5
          0
unfolding mint_batch_attendance
mint_attempts sdk ctx c address ride date rides names urls configured cap =
    rw (configured, cap) refl

-- A client with a package and a mint capability, in a context that is not done during the call, answers a
-- mint of one ride or more with a digest exactly where, among the first 5 attempts, the first that the SDK
-- does not throttle is answered that digest.
pub mint_answers :
    (sdk : Sdk) (ctx : Context) (c : Client) (address ride date d : String)
    (rides names urls : List String) (t : List Event)
    → IsPatient ctx
    → str_eq c.package_id "" ≡ false
    → str_eq c.mint_cap_id "" ≡ false
    → ((mint_batch_attendance sdk ctx c address (ride ∷ rides) date names urls t).0 ≡ ok d)
      ↔ Answer
          (sdk.move_call (mint_request sdk ctx c address (ride ∷ rides) date names urls))
          (sdk.sign_and_execute c.signer.key)
          5
          0
          d
mint_answers sdk ctx c address ride date d rides names urls t patient configured cap =
    rw (mint_attempts sdk ctx c address ride date rides names urls configured cap) (
      λ done. attempts-Answer _ _ ctx mint_labels 5 0 t d done,
      λ (k, below, first).
          Answer-attempts _ _ ctx mint_labels patient.gets patient.sleeps 5 0 k t d below first,
    )

-- The same reply, but for the status of the execution.
abbrev pub with_status : String → Result Executed → Result Executed
with_status status (ok r) = ok (record r { status = status })
with_status status (err e) = err e

abbrev pub sdk_with_status : String → Sdk → Sdk
sdk_with_status status sdk = record sdk {
  sign_and_execute = λ key meta n. with_status status (sdk.sign_and_execute key meta n);
}

module _ (ctx : Context) (l : Labels) (prepare : ℕ → Result String)
    (execute : String → ℕ → Result Executed) (status : String) where
  abbrev restated : String → ℕ → Result Executed
  restated meta n = with_status status (execute meta n)

  execute_same :
      (next : Logged String) (n : ℕ) (r : Result Executed) (t : List Event)
      → after_execute ctx l prepare restated next n (with_status status r) t
        ≡ after_execute ctx l prepare execute next n r t
  unfolding failed
  execute_same next n (ok r) t = refl
  execute_same next n (err e) t = refl

  prepare_same :
      (next : Logged String) (n : ℕ) (r : Result String) (t : List Event)
      → after_prepare ctx l prepare restated next n r t
        ≡ after_prepare ctx l prepare execute next n r t
  unfolding failed
  prepare_same next n (err e) t = refl
  prepare_same next n (ok meta) t = elim (Bool-cases (ctx.gets n executing)) [
    | inl got ↦
        rw got (execute_same next n (execute meta n) (released ∷ executed meta ∷ acquired ∷ t))
    | inr over ↦ rw over refl
  ]

  attempts_same :
      (left n : ℕ) → attempts ctx l prepare restated left n ≡ attempts ctx l prepare execute left n
  unfolding attempts
  attempts_same zero n = refl
  attempts_same (suc left) n = fun_ext λ t. elim (Bool-cases (ctx.gets n preparing)) [
    | inl got ↦
        rw (got, attempts, attempts_same left (suc n))
          (prepare_same (attempts ctx l prepare execute left (suc n)) n (prepare n)
            (released ∷ prepared ∷ acquired ∷ t))
    | inr over ↦ rw (over, attempts) refl
  ]

submit_same :
    (sdk : Sdk) (ctx : Context) (c : Client) (address date status : String)
    (rides names urls : List String)
    → submit_mint (sdk_with_status status sdk) ctx c address rides date names urls
      ≡ submit_mint sdk ctx c address rides date names urls
submit_same sdk ctx c address date status [] names urls = refl
submit_same sdk ctx c address date status (r ∷ rs) names urls =
    attempts_same ctx mint_labels _ (sdk.sign_and_execute c.signer.key) status 5 0

-- A mint does not look at the execution status of its transaction: with every status replaced by any other,
-- a failure among them, it has the same result and does the same. So a transaction that the chain has
-- aborted is answered as minted, with its digest.
mint_ignores_status :
    (sdk : Sdk) (ctx : Context) (c : Client) (address date status : String)
    (rides names urls : List String)
    → mint_batch_attendance (sdk_with_status status sdk) ctx c address rides date names urls
      ≡ mint_batch_attendance sdk ctx c address rides date names urls
unfolding mint_batch_attendance
mint_ignores_status sdk ctx c address date status rides names urls =
    rw (submit_same sdk ctx c address date status rides names urls) refl
