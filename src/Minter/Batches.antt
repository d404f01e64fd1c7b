-- ===== src/Minter/Batches.antt =====
-- What a batch of internal/minter/batch_mint.go keeps: it adds transactions to the chain and rows to
-- `mint_logs`.
use theme_park_nftengine.Prelude.{ℕ, String, List, [], ◌∷◌}
use theme_park_nftengine.Models.{MintLog}
use theme_park_nftengine.World.{State, MintTx, M, Backend}
use theme_park_nftengine.World.Hoare.{
  Keeps, Keeps-call, Keeps-bind, Keeps-catch, Keeps-pure, Keeps-raise, Keeps-if,
}
use theme_park_nftengine.Postgres.Accounts.{owner_user_id_for_participant}
use theme_park_nftengine.Postgres.Mints.{record_mint_for_participant, record_mint, put_log}
use theme_park_nftengine.Minter.Batch.{
  MintLive, pin_all, submit, record_all, mint_pinned, mint_one, run,
}

module _ (I : State → Type 0) (logs : (row : MintLog) (s : State) → I s → I (put_log row s).1) where
  pub record_mint-Kept :
      (id : ℕ) (ride date digest : String)
      → Keeps I (record_mint_for_participant id ride date digest)
  unfolding record_mint_for_participant owner_user_id_for_participant record_mint
  record_mint-Kept id ride date digest =
      Keeps-bind _ _
        (Keeps-catch _ _ _ (Keeps-call Backend.postgres _ (λ s h. h)) (λ a. Keeps-pure a)
          (λ e. Keeps-raise _))
        (λ owner. Keeps-if _ _ _ (Keeps-raise _) (Keeps-call Backend.postgres _ (logs _)))

module _ (get_or_pin : String → String → M String) (digest_of : List MintTx → MintTx → String)
    (I : State → Type 0) (pins : (ride date : String) → Keeps I (get_or_pin ride date)) where
  pub pin_all-Kept :
      (date : String) (rides : List String) → Keeps I (pin_all get_or_pin digest_of date rides)
  unfolding pin_all
  pin_all-Kept date [] = Keeps-pure _
  pin_all-Kept date (ride ∷ rides) =
      Keeps-bind _ _ (Keeps-catch _ _ _ (pins ride date) (λ a. Keeps-pure a) (λ e. Keeps-raise _))
        (λ url. Keeps-bind _ _ (pin_all-Kept date rides) (λ urls. Keeps-pure _))

  module _ (logs : (row : MintLog) (s : State) → I s → I (put_log row s).1)
      (submits : (tx : MintTx) (s : State) → I s → I (submit get_or_pin digest_of tx s).1) where
    record_all-Kept :
        (l : MintLive) (digest : String) (rides : List String)
        → Keeps I (record_all get_or_pin digest_of l digest rides)
    unfolding record_all
    record_all-Kept l digest [] = Keeps-pure _
    record_all-Kept l digest (ride ∷ rides) =
        Keeps-catch _ _ _ (record_mint-Kept I logs l.participant_id ride l.date digest)
          (λ _. record_all-Kept l digest rides) (λ e. Keeps-pure _)

    mint_one-Kept : (l : MintLive) → Keeps I (mint_one get_or_pin digest_of l)
    unfolding mint_one mint_pinned
    mint_one-Kept l =
        Keeps-catch _ _ _ (pin_all-Kept l.date l.ride_ids)
          (λ urls.
            Keeps-catch _ _ _ (Keeps-call Backend.sui _ (submits _))
              (λ digest. record_all-Kept l digest l.ride_ids) (λ e. Keeps-pure _))
          (λ e. Keeps-pure _)

    pub run-Kept : (ls : List MintLive) → Keeps I (run get_or_pin digest_of ls)
    unfolding run
    run-Kept [] = Keeps-pure _
    run-Kept (l ∷ ls) =
        Keeps-bind _ _ (mint_one-Kept l) (λ r. Keeps-bind _ _ (run-Kept ls) (λ rs. Keeps-pure _))
