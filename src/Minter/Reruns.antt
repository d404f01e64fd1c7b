-- ===== src/Minter/Reruns.antt =====
-- A batch that runs again: internal/minter/batch_mint.go.
use theme_park_nftengine.Prelude.{
  ℕ, String, ◌≡◌, refl, ap, ◌∙◌, Bool, true, false, List, [], ◌∷◌, map, length, arith,
  if◌then◌else◌, ◌==◌,
}
use theme_park_nftengine.World.{
  State, World, MintTx, M, Result, ok, err, calm, catch, call, handled, pure, ◌>>=◌,
}
use theme_park_nftengine.Errors.{error_text}
use Prim.Native.String.{◌++◌}
use theme_park_nftengine.Minter.Transactions.{minted_count}
use theme_park_nftengine.Postgres.Accounts.{owner_user_id_for_participant}
use theme_park_nftengine.Postgres.Mints.{
  record_mint_for_participant, record_for_owner, record_mint, put_log,
}
use theme_park_nftengine.Minter.Batch.{
  MintLive, MintResult, tx_of, pin_all, submit, record_all, mint_pinned, mint_one, run, result,
}

-- Where no call fails, `m` returns so and leaves the chain.
abbrev Leaves : {A : Type 0} → M A → State → Type 0
Leaves {A} m s = (r : Result A) × (t : State) × (m (calm s) ≡ (r, calm t)) × (t.chain ≡ s.chain)

if-Leaves :
    {A : Type 0} (b : Bool) (m n : M A) (s : State)
    → Leaves m s
    → Leaves n s
    → Leaves (if b then m else n) s
if-Leaves true m n s h k = h
if-Leaves false m n s h k = k

recorded :
    (id : ℕ) (ride date digest : String) (s : State)
    → Leaves (record_mint_for_participant id ride date digest) s
unfolding record_mint_for_participant owner_user_id_for_participant record_mint put_log catch call
    ◌>>=◌
recorded id ride date digest s = for_owner _
  where
    for_owner : (owner : ℕ) → Leaves (record_for_owner id ride date digest owner) s
    for_owner owner = if-Leaves (owner == 0) _ _ s (_, _, refl, refl) (_, _, refl, refl)

-- A result that reports a mint, from a chain to a chain.
abbrev Mints : M MintResult → State → List MintTx → Type 0
Mints m s chain =
    (r : MintResult) × (t : State) × (m (calm s) ≡ (ok r, calm t))
    × (t.chain ≡ chain)
    × (r.minted ≡ true)

-- The metadata provider answers a text for each ride and date.
module _ (get_or_pin : String → String → M String) (digest_of : List MintTx → MintTx → String)
    (uri : String → String → String)
    (pins : (ride date : String) (w : World)
      → get_or_pin ride date w ≡ (ok (uri ride date), w)) where
  -- The transaction of a participant.
  abbrev pub mint_tx : MintLive → MintTx
  mint_tx l = tx_of l (map (λ ride. uri ride l.date) l.ride_ids)

  -- A chain that has taken the transactions of a batch.
  abbrev pub submitted : List MintLive → List MintTx → List MintTx
  submitted [] chain = chain
  submitted (l ∷ ls) chain = submitted ls (mint_tx l ∷ chain)

  pin_all_done :
      (date : String) (rides : List String) (w : World)
      → pin_all get_or_pin digest_of date rides w ≡ (ok (map (λ ride. uri ride date) rides), w)
  unfolding pin_all catch ◌>>=◌
  pin_all_done date [] w = refl
  pin_all_done date (ride ∷ rides) w = rw (pins ride date w, pin_all_done date rides w) refl

  recorded_all :
      (l : MintLive) (digest : String) (rides : List String) (s : State)
      → Mints (record_all get_or_pin digest_of l digest rides) s s.chain
  unfolding record_all catch
  recorded_all l digest [] s = (_, s, refl, refl, refl)
  recorded_all l digest (ride ∷ rides) s =
      let (r, t, done, same) = recorded l.participant_id ride l.date digest s in
      let (x, u, e, c, m) = after (recorded_all l digest rides) r t in
      (x, u, rw done e, c ∙ same, m)
    where
      after :
          ((t : State) → Mints (record_all get_or_pin digest_of l digest rides) t t.chain)
          → (r : Result (Unit {0})) (t : State)
          → Mints
              (handled r
                (λ _. record_all get_or_pin digest_of l digest rides)
                (λ e.
                  pure (result l digest true ("record mint " ++ (ride ++ (": " ++ error_text e))))))
              t
              t.chain
      after next (ok _) t = next t
      after next (err e) t = (_, t, refl, refl, refl)

  minted_one :
      (l : MintLive) (s : State) → Mints (mint_one get_or_pin digest_of l) s (mint_tx l ∷ s.chain)
  unfolding mint_one mint_pinned submit catch call
  minted_one l s =
      let tx = mint_tx l in
      let (r, t, done, same, m) =
        recorded_all l (digest_of s.chain tx) l.ride_ids (record s { chain = tx ∷ s.chain }) in
      (r, t, rw (pin_all_done l.date l.ride_ids (calm s), done) refl, same, m)

  -- What a batch leaves, where no call fails.
  abbrev Ran : List MintLive → State → Type 0
  Ran ls s =
      (rs : List MintResult) × (t : State) × (run get_or_pin digest_of ls (calm s)
        ≡ (ok rs, calm t))
      × (t.chain ≡ submitted ls s.chain)
      × (minted_count rs ≡ length ls)

  ran : (ls : List MintLive) (s : State) → Ran ls s
  unfolding run ◌>>=◌
  ran [] s = ([], s, refl, refl, refl)
  ran (l ∷ ls) s =
      let (r, t, done, same, m) = minted_one l s in
      let (rs, u, rest, chain, count) = ran ls t in
      (r ∷ rs, u, rw (done, rest) refl, chain ∙ ap (submitted ls) same, rw m (omega (arith, count)))

  -- A rerun of a batch mints again. Where no call fails and the metadata provider answers, two runs of one
  -- batch both report a mint for every participant, and put the transactions of the batch, in their order
  -- and with the same recipients, rides and metadata, on the chain twice.
  pub rerun_submits_again :
      (ls : List MintLive) (s : State)
      → (rs rs' : List MintResult) × (t : State) × (run get_or_pin digest_of ls (calm s)
          ≡ (ok rs, calm t))
        × ((run get_or_pin digest_of ls (calm t)).0 ≡ ok rs')
        × (minted_count rs ≡ length ls)
        × (minted_count rs' ≡ length ls)
        × ((run get_or_pin digest_of ls (calm t)).1.st.chain ≡ submitted ls (submitted ls s.chain))
  rerun_submits_again ls s =
      let (rs, t, first, chain, count) = ran ls s in
      let (rs', u, second, chain', count') = ran ls t in
      (
        rs,
        rs',
        t,
        first,
        ap (λ x. x.0) second,
        count,
        count',
        ap (λ x. x.1.st.chain) second ∙ chain' ∙ ap (submitted ls) chain,
      )
