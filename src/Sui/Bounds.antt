-- ===== src/Sui/Bounds.antt =====
-- What a transaction of internal/sui may do at most: its calls, its slots, and its sleeps.
use theme_park_nftengine.Prelude.{
  ℕ, zero, suc, ◌+◌, ◌^◌, ◌≤◌, String, ◌≡◌, refl, Bool, true, false, List, [], ◌∷◌, arith,
  Bool-cases, inl, inr, if◌then◌else◌, str_eq, ◌||◌,
}
use theme_park_nftengine.Errors.{Error}
use theme_park_nftengine.World.{Result, ok, err}
use theme_park_nftengine.Sui.Client.{
  Client, Sdk, mint_batch_attendance, mint_labels, submit_mint, transfer_nft, transfer_labels,
  transfer_request, refused,
}
use theme_park_nftengine.Sui.Reader.{
  Queries, transfer_sui_probe, probe_labels, probe_with, or_default,
}
use theme_park_nftengine.Sui.Retry.{
  Event, acquired, released, prepared, executed, slept, Logged, preparing, executing, Context,
  Executed, Labels, is_throttled, failed, after_execute, after_prepare, attempts,
}

-- The slots that a log takes and frees, the transactions that it has executed, and its seconds of sleep.
unfoldable pub taken : List Event → ℕ
taken [] = 0
taken (acquired ∷ es) = taken es + 1
taken (_ ∷ es) = taken es

unfoldable pub freed : List Event → ℕ
freed [] = 0
freed (released ∷ es) = freed es + 1
freed (_ ∷ es) = freed es

unfoldable pub executions : List Event → ℕ
executions [] = 0
executions (executed _ ∷ es) = executions es + 1
executions (_ ∷ es) = executions es

unfoldable pub slept_for : List Event → ℕ
slept_for [] = 0
slept_for (slept n ∷ es) = slept_for es + n
slept_for (_ ∷ es) = slept_for es

-- From one log to a later one, every slot that is taken is freed, at most `k` transactions are executed, and
-- the sleeps take less than `seconds`.
abbrev pub Within : ℕ → ℕ → List Event → List Event → Type 0
Within k seconds t t' =
    (taken t' + freed t ≡ freed t' + taken t)
    × (executions t' ≤ executions t + k)
    × (slept_for t' ≤ slept_for t + seconds)

-- The sleeps of the attempts that are left, from number `n` on.
unfoldable pub budget : ℕ → ℕ → ℕ
budget zero n = 0
budget (suc left) n = 2 ^ n + budget left (suc n)

module _ (ctx : Context) (l : Labels) (prepare : ℕ → Result String)
    (execute : String → ℕ → Result Executed) where
  failed-Within :
      (left n k : ℕ) (label : String) (e : Error) (t t' : List Event) (next : Logged String)
      → ((u : List Event) → Within left (budget left (suc n)) u (next u).1)
      → Within k 0 t t'
      → Within (left + k) (budget (suc left) n) t (failed ctx l prepare execute next n label e t').1
  unfolding failed taken freed executions slept_for budget
  failed-Within left n k label e t t' next rest h = elim (Bool-cases (is_throttled e)) [
    | inr final ↦ rw (final, failed) (omega (arith, h.0), omega (arith, h.1), omega (arith, h.2))
    | inl throttled ↦
        rw (throttled, failed)
          (elim (Bool-cases (ctx.sleeps n)) [
            | inr over ↦ rw over (omega (arith, h.0), omega (arith, h.1), omega (arith, h.2))
            | inl awake ↦ rw awake (
              omega (arith, h.0, (rest (slept (2 ^ n) ∷ t')).0),
              omega (arith, h.1, (rest (slept (2 ^ n) ∷ t')).1),
              omega (arith, h.2, (rest (slept (2 ^ n) ∷ t')).2),
            )
          ])
  ]

  execute-Within :
      (left n : ℕ) (r : Result Executed) (meta : String) (t t' : List Event) (next : Logged String)
      → ((u : List Event) → Within left (budget left (suc n)) u (next u).1)
      → Within 1 0 t t'
      → Within
          (suc left)
          (budget (suc left) n)
          t
          (after_execute ctx l prepare execute next n r t').1
  execute-Within left n (ok r) meta t t' next rest h = (h.0, omega (arith, h.1), omega (arith, h.2))
  execute-Within left n (err e) meta t t' next rest h =
      let f = failed-Within left n 1 l.execute_failed e t t' next rest h in
      (f.0, omega (arith, f.1), f.2)

  prepare-Within :
      (left n : ℕ) (r : Result String) (t t' : List Event) (next : Logged String)
      → ((u : List Event) → Within left (budget left (suc n)) u (next u).1)
      → Within 0 0 t t'
      → Within
          (suc left)
          (budget (suc left) n)
          t
          (after_prepare ctx l prepare execute next n r t').1
  unfolding taken freed executions slept_for
  prepare-Within left n (err e) t t' next rest h =
      let f = failed-Within left n 0 l.prepare_failed e t t' next rest h in
      (f.0, omega (arith, f.1), f.2)
  prepare-Within left n (ok meta) t t' next rest h = elim (Bool-cases (ctx.gets n executing)) [
    | inr over ↦ rw over (h.0, omega (arith, h.1), omega (arith, h.2))
    | inl got ↦ rw got (
        execute-Within left n (execute meta n) meta t (released ∷ executed meta ∷ acquired ∷ t')
          next rest (omega (arith, h.0), omega (arith, h.1), omega (arith, h.2)))
  ]

  pub attempts-Within :
      (left n : ℕ) (t : List Event)
      → Within left (budget left n) t (attempts ctx l prepare execute left n t).1
  unfolding attempts taken freed executions slept_for
  attempts-Within zero n t = (omega arith, omega arith, omega arith)
  attempts-Within (suc left) n t = elim (Bool-cases (ctx.gets n preparing)) [
    | inr over ↦ rw (over, attempts) (omega arith, omega arith, omega arith)
    | inl got ↦
        rw (got, attempts)
          (prepare-Within left n (prepare n) t (released ∷ prepared ∷ acquired ∷ t)
            (attempts ctx l prepare execute left (suc n)) (attempts-Within left (suc n))
            (omega arith, omega arith, omega arith))
  ]

-- Of a whole call, from an empty log.
abbrev pub Bounded : List Event → Type 0
Bounded t = (taken t ≡ freed t) × (executions t ≤ 5) × (slept_for t ≤ 31)

quiet-Bounded : Bounded []
unfolding taken freed executions slept_for
quiet-Bounded = (refl, omega arith, omega arith)

attempts-Bounded :
    (ctx : Context) (l : Labels) (prepare : ℕ → Result String)
    (execute : String → ℕ → Result Executed)
    → Bounded (attempts ctx l prepare execute 5 0 []).1
unfolding budget taken freed executions slept_for
attempts-Bounded ctx l prepare execute =
    let w = attempts-Within ctx l prepare execute 5 0 [] in
    (omega (arith, w.0), omega (arith, w.1), omega (arith, w.2))

if-Bounded :
    (b : Bool) (f g : Logged String)
    → Bounded (f []).1
    → Bounded (g []).1
    → Bounded ((if b then f else g) []).1
if-Bounded true f g hf hg = hf
if-Bounded false f g hf hg = hg

module _ (sdk : Sdk) (ctx : Context) (c : Client) where
  submit-Bounded :
      (address : String) (rides : List String) (date : String) (names urls : List String)
      → Bounded (submit_mint sdk ctx c address rides date names urls []).1
  submit-Bounded address [] date names urls = quiet-Bounded
  submit-Bounded address (r ∷ rs) date names urls = attempts-Bounded ctx mint_labels _ _

  probe-Bounded :
      (q : Queries) (recipient amount : String) (coins : Result (List String))
      → Bounded (probe_with sdk ctx q c recipient amount coins []).1
  probe-Bounded q recipient amount (err e) = quiet-Bounded
  probe-Bounded q recipient amount (ok []) = quiet-Bounded
  probe-Bounded q recipient amount (ok (coin ∷ _)) = attempts-Bounded ctx probe_labels _ _

-- A mint, a custody transfer and a probe each free every slot of the semaphore that they take, have at most
-- 5 transactions executed, and sleep 31 seconds at most, whatever the SDK answers and whenever the context
-- ends, on success and on every error.
pub transactions-Bounded :
    (sdk : Sdk) (ctx : Context) (q : Queries) (c : Client)
    (address date object recipient amount : String) (rides names urls : List String)
    → Bounded (mint_batch_attendance sdk ctx c address rides date names urls []).1
      × Bounded (transfer_nft sdk ctx c object recipient []).1
      × Bounded (transfer_sui_probe sdk ctx q c recipient amount []).1
unfolding mint_batch_attendance transfer_nft transfer_sui_probe
transactions-Bounded sdk ctx q c address date object recipient amount rides names urls = (
  if-Bounded (str_eq c.package_id "") (refused "SUI_PACKAGE_ID not configured")
      (if str_eq c.mint_cap_id ""
        then refused "SUI_MINTCAP_ID not configured"
        else submit_mint sdk ctx c address rides date names urls)
      quiet-Bounded
      (if-Bounded (str_eq c.mint_cap_id "") (refused "SUI_MINTCAP_ID not configured")
        (submit_mint sdk ctx c address rides date names urls) quiet-Bounded
        (submit-Bounded sdk ctx c address rides date names urls)),
  if-Bounded (str_eq object "" || str_eq recipient "")
      (refused "nft_object_id and to_address required for custody transfer")
      (attempts ctx transfer_labels
        (sdk.transfer_object (transfer_request sdk ctx c object recipient))
        (sdk.sign_and_execute c.signer.key) 5 0)
      quiet-Bounded
      (attempts-Bounded ctx transfer_labels
        (sdk.transfer_object (transfer_request sdk ctx c object recipient))
        (sdk.sign_and_execute c.signer.key)),
  if-Bounded (str_eq recipient "") (refused "recipient address required for probe transfer")
      (probe_with sdk ctx q c recipient (or_default amount) (q.get_coins c.signer.address))
      quiet-Bounded
      (probe-Bounded sdk ctx c q recipient (or_default amount) (q.get_coins c.signer.address)),
)
