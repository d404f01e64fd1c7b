-- ===== src/Minter/Unchecked.antt =====
-- A request for custody that the voucher service refuses: cmd/minter/main.go, internal/voucher/voucher.go.
use Prim.Native.String.{◌++◌}
use theme_park_nftengine.Prelude.{
  str_eq, not, ◌&&◌, arith, ℕ, String, ◌≡◌, refl, Bool, true, false, Option, none, some, List, [],
  ◌∷◌, find_by, if◌then◌else◌,
}
use theme_park_nftengine.Models.{Participant}
use theme_park_nftengine.Errors.{Error, error_text}
use theme_park_nftengine.World.{State, World, M, Transfer, ok, err, raise, calm, call, catch, ◌>>=◌}
use theme_park_nftengine.Http.{failure}
use theme_park_nftengine.Postgres.Accounts.{has_id, get_participant}
use theme_park_nftengine.Voucher.Service.{claim_by, claim_custody, is_custodial, not_found}
use theme_park_nftengine.Minter.Routes.{
  CustodyRequest, is_complete, take_transfer, transfer, transfer_all, serve_custody, post_to_sui,
}
use theme_park_nftengine.Minter.Custody.{moved, posted}

abbrev pub has_custody : Option Participant → Bool
has_custody none = false
has_custody (some p) = is_custodial p.wallet_state

-- The state after the transfers of some objects.
abbrev pub after_moves : String → List String → State → State
after_moves wallet os s = record s { transfers = moved wallet os s.transfers }

-- No object of the list is the empty text.
abbrev pub all_named : List String → Bool
all_named [] = true
all_named (o ∷ os) = not (str_eq o "") && all_named os

transfers_done :
    (digest_of : List Transfer → Transfer → String) (wallet : String) (os : List String) (s : State)
    → str_eq wallet "" ≡ false
    → all_named os ≡ true
    → (ds : List String) × (transfer_all digest_of wallet os (calm s)
        ≡ (ok ds, calm (after_moves wallet os s)))
unfolding transfer_all transfer take_transfer catch call ◌>>=◌
transfers_done digest_of wallet [] s to named = ([], refl)
transfers_done digest_of wallet (o ∷ os) s to named =
    let t : Transfer = record { object = o; recipient = wallet } in
    let object : str_eq o "" ≡ false = ground arith in
    let (ds, done) =
      transfers_done digest_of wallet os (record s { transfers = t ∷ s.transfers }) to
        (ground arith) in
    (digest_of s.transfers t ∷ ds, rw (object, to, done) refl)

raised :
    {A : Type 0} (b : Bool) (m : M A) (e : Error) (w : World)
    → b ≡ false
    → (x : Error) × ((if b then m else raise e) w ≡ (err x, w))
raised b m e w h = (e, rw h refl)

claim_by_refused :
    (id : ℕ) (wallet : String) (o : Option Participant) (w : World)
    → has_custody o ≡ false
    → (e : Error) × (claim_by id wallet o w ≡ (err e, w))
claim_by_refused id wallet none w h = (not_found id, refl)
claim_by_refused id wallet (some p) w h = raised (is_custodial p.wallet_state) _ _ w h

claim_refused :
    (id : ℕ) (wallet : String) (s : State)
    → has_custody (find_by (has_id id) s.tables.participants) ≡ false
    → (e : Error) × (claim_custody id wallet (calm s) ≡ (err e, calm s))
unfolding claim_custody get_participant catch call ◌>>=◌
claim_refused id wallet s refused =
    claim_by_refused id wallet (find_by (has_id id) s.tables.participants) (calm s) refused

-- The route of the transfers of custody moves the objects before anyone asks whose they are: where a
-- complete request, whose objects all have ids, names a participant who has no custodial wallet, or is not
-- there, and no call fails, the answer is 500, every object of the request has moved to the wallet, and
-- nothing else has changed.
pub custody_moves_unchecked :
    (digest_of : List Transfer → Transfer → String) (req : CustodyRequest) (s : State)
    → is_complete req ≡ true
    → all_named req.nft_object_ids ≡ true
    → has_custody (find_by (has_id req.participant_id) s.tables.participants) ≡ false
    → (text : String) × (serve_custody digest_of true (posted "POST" req) (calm s)
        ≡ (ok (failure 500 text), calm (after_moves req.own_wallet req.nft_object_ids s)))
unfolding serve_custody post_to_sui catch
custody_moves_unchecked digest_of req s complete named refused =
    let (ds, done) =
      transfers_done digest_of req.own_wallet req.nft_object_ids s (ground arith) named in
    let (e, failed) =
      claim_refused req.participant_id req.own_wallet
        (after_moves req.own_wallet req.nft_object_ids s) refused in
    ("claim-custody state update failed: " ++ error_text e, rw (complete, done, failed) refl)
