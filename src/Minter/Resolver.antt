-- ===== src/Minter/Resolver.antt =====
-- internal/minter/resolver.go: the resolution of the participants with rides on a date. The participants
-- and rides come from internal/postgres, the wallets from internal/voucher.
use Prim.Native.String.{◌++◌}
use theme_park_nftengine.Prelude.{ℕ, String, Option, none, some, List, [], ◌∷◌, if◌then◌else◌, map}
use theme_park_nftengine.Models.{Participant, ParticipantWalletState, RecordPendingMintRequest}
use theme_park_nftengine.Errors.{Error}
use theme_park_nftengine.Text.{itoa}
use theme_park_nftengine.World.{M, pure, catch, wrapping, ◌>>=◌, ◌>>◌}
use theme_park_nftengine.Postgres.Accounts.{list_participants}
use theme_park_nftengine.Postgres.Rides.{RideScan, rides_for_participant}
use theme_park_nftengine.Voucher.Service.{resolve_mint_wallet, record_pending_mint}

pub data Outcome : Type 0 where
  pending mint_ready : Outcome

pub record Resolution : Type 0 where
  pub participant_id : ℕ
  pub mint_date : String
  pub ride_ids : List String
  pub wallet_state : ParticipantWalletState
  pub wallet_address : String
  pub outcome : Outcome

abbrev pub resolution : Participant → String → List String → Outcome → Resolution
resolution p date rides outcome = record {
  participant_id = p.id;
  mint_date = date;
  ride_ids = rides;
  wallet_state = (resolve_mint_wallet p).wallet_state;
  wallet_address = (resolve_mint_wallet p).wallet_address;
  outcome = outcome;
}

abbrev pub pending_request : Participant → String → List RideScan → RecordPendingMintRequest
pending_request p date rides = record {
  participant_id = p.id;
  mint_date = date;
  ride_ids = map (λ (r : RideScan). r.ride_id) rides;
  scanned_ats = map (λ (r : RideScan). r.scanned_at) rides;
}

-- `none` is a participant without attendance.
abbrev pub resolve_with : Participant → String → List RideScan → M (Option Resolution)
resolve_with p date [] = pure none
resolve_with p date (r ∷ rs) =
    if (resolve_mint_wallet p).pending
    then wrapping ("record pending mint for participant " ++ itoa p.id)
        (record_pending_mint (pending_request p date (r ∷ rs)))
      >> pure (some (resolution p date (map (λ (x : RideScan). x.ride_id) (r ∷ rs)) pending))
    else pure (some (resolution p date (map (λ (x : RideScan). x.ride_id) (r ∷ rs)) mint_ready))

unfoldable pub resolve_one : String → Participant → M (Option Resolution)
resolve_one date p =
    wrapping ("rides for participant " ++ itoa p.id) (rides_for_participant p date)
    >>= resolve_with p date

abbrev pub with_resolution : Option Resolution → List Resolution → List Resolution
with_resolution none rest = rest
with_resolution (some r) rest = r ∷ rest

-- The resolutions up to the first error, and that error.
unfoldable pub resolve_each : String → List Participant → M (List Resolution × Option Error)
resolve_each date [] = pure ([], none)
resolve_each date (p ∷ ps) =
    catch (resolve_one date p)
      (λ o. resolve_each date ps >>= λ rest. pure (with_resolution o rest.0, rest.1))
      (λ e. pure ([], some e))

unfoldable pub resolve_day : String → M (List Resolution × Option Error)
resolve_day date = wrapping "list participants" list_participants >>= resolve_each date
