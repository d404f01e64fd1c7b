-- ===== src/Minter/Transactions.antt =====
-- The transactions of a batch: internal/minter/batch_mint.go.
use theme_park_nftengine.Prelude.{
  ℕ, suc, ◌+◌, ◌≤◌, String, ◌≡◌, refl, List, [], ◌∷◌, arith, if◌then◌else◌, length, ap,
}
use theme_park_nftengine.World.{State, World, MintTx, M, ok, Backend}
use theme_park_nftengine.World.Hoare.{
  Hoare, Hoare-bind, Hoare-call, Hoare-catch, Hoare-pure, Hoare-answered, Keeps, of_Keeps,
}
use theme_park_nftengine.Postgres.Mints.{record_mint_for_participant, put_log}
use theme_park_nftengine.Minter.Batch.{
  MintLive, MintResult, submit, record_all, mint_pinned, mint_one, run,
}
use theme_park_nftengine.Minter.Batches.{record_mint-Kept, pin_all-Kept}

-- The chain has taken so many transactions, or more.
abbrev pub Taken : ℕ → State → Type 0
Taken n s = n ≤ length s.chain

abbrev pub weight : MintResult → ℕ
weight r = if r.minted then 1 else 0

-- The results that report a mint.
abbrev pub minted_count : List MintResult → ℕ
minted_count [] = 0
minted_count (r ∷ rs) = weight r + minted_count rs

record_mint-Taken :
    (n id : ℕ) (ride date digest : String)
    → Keeps (Taken n) (record_mint_for_participant id ride date digest)
unfolding put_log
record_mint-Taken n = record_mint-Kept (Taken n) (λ row s h. h)

module _ (get_or_pin : String → String → M String) (digest_of : List MintTx → MintTx → String)
    (pins_keep : (ride date : String) (n : ℕ) → Keeps (Taken n) (get_or_pin ride date)) where
  record_all-Taken :
      (n : ℕ) (l : MintLive) (digest : String) (rides : List String)
      → Hoare
          (Taken (suc n))
          (record_all get_or_pin digest_of l digest rides)
          (λ r. Taken (weight r + n))
          (λ _ _. ⊥)
  unfolding record_all
  record_all-Taken n l digest [] = Hoare-pure _ (λ s h. omega arith)
  record_all-Taken n l digest (ride ∷ rides) =
      Hoare-catch _ _ _ (of_Keeps _ (record_mint-Taken (suc n) l.participant_id ride l.date digest))
        (λ _. record_all-Taken n l digest rides) (λ e. Hoare-pure _ (λ s h. omega arith))

  mint_pinned-Taken :
      (n : ℕ) (l : MintLive) (urls : List String)
      → Hoare
          (Taken n)
          (mint_pinned get_or_pin digest_of l urls)
          (λ r. Taken (weight r + n))
          (λ _ _. ⊥)
  unfolding mint_pinned submit
  mint_pinned-Taken n l urls =
      Hoare-catch {R = λ _. Taken (suc n)} {F = λ _. Taken n} _ _ _
        (Hoare-call Backend.sui _ (λ s h. omega arith) (λ s _ h. h) (λ s _ h. omega arith))
        (λ digest. record_all-Taken n l digest l.ride_ids) (λ e. Hoare-pure _ (λ s h. omega arith))

  mint_one-Taken :
      (n : ℕ) (l : MintLive)
      → Hoare (Taken n) (mint_one get_or_pin digest_of l) (λ r. Taken (weight r + n)) (λ _ _. ⊥)
  unfolding mint_one
  mint_one-Taken n l =
      Hoare-catch _ _ _
        (of_Keeps _
          (pin_all-Kept get_or_pin digest_of (Taken n) (λ r d. pins_keep r d n) l.date l.ride_ids))
        (λ urls. mint_pinned-Taken n l urls) (λ e. Hoare-pure _ (λ s h. omega arith))

  pub run-Taken :
      (n : ℕ) (ls : List MintLive)
      → Hoare
          (Taken n)
          (run get_or_pin digest_of ls)
          (λ rs s. (length rs ≡ length ls) × Taken (minted_count rs + n) s)
          (λ _ _. ⊥)
  unfolding run
  run-Taken n [] = Hoare-pure _ (λ s h. (refl, omega (arith, h)))
  run-Taken n (l ∷ ls) = Hoare-bind _ _ (mint_one-Taken n l) λ r.
      Hoare-bind _ _ (run-Taken (weight r + n) ls)
        (λ rs. Hoare-pure _ (λ s h. (ap suc h.0, omega (arith, h.1))))

  -- A batch always returns, with one result for each participant, whatever calls of the metadata, the
  -- chain and Postgres fail before or after their effect; and every result that reports a mint has a
  -- transaction of its own on the chain. The metadata provider must not take transactions away.
  pub run_submits :
      (ls : List MintLive) (w : World)
      → (rs : List MintResult) × ((run get_or_pin digest_of ls w).0 ≡ ok rs)
        × (length rs ≡ length ls)
        × (minted_count rs + length w.st.chain ≤ length (run get_or_pin digest_of ls w).1.st.chain)
  run_submits ls w =
      let (rs, done, (same, counted)) =
        Hoare-answered _ (run-Taken (length w.st.chain) ls) w (omega arith) in
      (rs, done, same, counted)
