-- ===== src/Minter/Passes.antt =====
-- What a pass of internal/minter/resolver.go keeps: it reads the tables, and writes the ledger of pending
-- mints alone.
use theme_park_nftengine.Prelude.{String, ◌≡◌, refl, Option, none, some, List, [], ◌∷◌}
use theme_park_nftengine.Models.{PendingMint, Participant, RecordPendingMintRequest}
use theme_park_nftengine.World.{State, M, Backend, wrapping}
use theme_park_nftengine.World.Hoare.{
  Keeps, Keeps-call, Keeps-bind, Keeps-catch, Keeps-pure, Keeps-raise, Keeps-if,
}
use theme_park_nftengine.Postgres.Accounts.{get_participant, list_participants}
use theme_park_nftengine.Postgres.Mints.{put_pending, upsert_pending_mint}
use theme_park_nftengine.Postgres.Rides.{
  RideScan, rides_for_participant, by_email, by_participant_id,
}
use theme_park_nftengine.Voucher.Service.{
  pending_of, record_for, record_pending_mint, resolve_mint_wallet,
}
use theme_park_nftengine.Minter.Resolver.{resolve_with, resolve_one, resolve_each, resolve_day}

-- `puts` is asked of the one statement of a pass that writes.
module _ (I : State → Type 0)
    (puts : (pm : PendingMint) (s : State) → I s → I (put_pending pm s).1) where
  wrapping-Kept : {A : Type 0} (c : String) (m : M A) → Keeps I m → Keeps I (wrapping c m)
  wrapping-Kept c m h = Keeps-catch m _ _ h (λ a. Keeps-pure a) (λ e. Keeps-raise _)

  record_for-Kept :
      (req : RecordPendingMintRequest) (o : Option Participant) → Keeps I (record_for req o)
  unfolding upsert_pending_mint
  record_for-Kept req none = Keeps-raise _
  record_for-Kept req (some p) =
      wrapping-Kept _ _ (Keeps-call Backend.postgres _ (puts (pending_of req p)))

  record_pending_mint-Kept : (req : RecordPendingMintRequest) → Keeps I (record_pending_mint req)
  unfolding record_pending_mint get_participant
  record_pending_mint-Kept req =
      Keeps-bind _ _ (wrapping-Kept _ _ (Keeps-call Backend.postgres _ (λ s h. h)))
        (λ o. record_for-Kept req o)

  resolve_with-Kept :
      (p : Participant) (d : String) (rides : List RideScan) → Keeps I (resolve_with p d rides)
  resolve_with-Kept p d [] = Keeps-pure _
  resolve_with-Kept p d (r ∷ rs) =
      Keeps-if (resolve_mint_wallet p).pending _ _
        (Keeps-bind _ _ (wrapping-Kept _ _ (record_pending_mint-Kept _)) (λ _. Keeps-pure _))
        (Keeps-pure _)

  rides-Kept :
      (p : Participant) (d : String) (o : Option String)
      → p.account_email ≡ o
      → Keeps I (rides_for_participant p d)
  unfolding rides_for_participant by_email by_participant_id
  rides-Kept p d none q =
      rw (q, rides_for_participant) (wrapping-Kept _ _ (Keeps-call Backend.postgres _ (λ s h. h)))
  rides-Kept p d (some email) q =
      rw (q, rides_for_participant)
        (Keeps-if _ _ _ (wrapping-Kept _ _ (Keeps-call Backend.postgres _ (λ s h. h)))
          (wrapping-Kept _ _ (Keeps-call Backend.postgres _ (λ s h. h))))

  pub resolve_one-Kept : (d : String) (p : Participant) → Keeps I (resolve_one d p)
  unfolding resolve_one
  resolve_one-Kept d p =
      Keeps-bind _ _ (wrapping-Kept _ _ (rides-Kept p d p.account_email refl))
        (λ rides. resolve_with-Kept p d rides)

  pub resolve_each-Kept : (d : String) (ps : List Participant) → Keeps I (resolve_each d ps)
  unfolding resolve_each
  resolve_each-Kept d [] = Keeps-pure _
  resolve_each-Kept d (p ∷ ps) =
      Keeps-catch _ _ _ (resolve_one-Kept d p)
        (λ o. Keeps-bind _ _ (resolve_each-Kept d ps) (λ rest. Keeps-pure _)) (λ e. Keeps-pure _)

  pub resolve_day-Kept : (d : String) → Keeps I (resolve_day d)
  unfolding resolve_day list_participants
  resolve_day-Kept d =
      Keeps-bind _ _
        (wrapping-Kept _ _ (wrapping-Kept _ _ (Keeps-call Backend.postgres _ (λ s h. h))))
        (resolve_each-Kept d)
