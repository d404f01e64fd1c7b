-- ===== src/Minter/Batch.antt =====
-- internal/minter/batch_mint.go: the mints of a day. The metadata of a ride and the digest that the
-- chain answers to a transaction are parameters.
use Prim.Native.String.{◌++◌}
use theme_park_nftengine.Prelude.{
  ℕ, String, Bool, true, false, List, [], ◌∷◌, str_eq, if◌then◌else◌, map,
}
use theme_park_nftengine.Errors.{error_text}
use theme_park_nftengine.World.{
  State, MintTx, Result, ok, M, Backend, call, pure, catch, wrapping, ◌>>=◌,
}
use theme_park_nftengine.Postgres.Mints.{record_mint_for_participant}

pub record MintLive : Type 0 where
  pub participant_id : ℕ
  pub wallet_address : String
  pub ride_ids : List String
  pub date : String

pub record MintResult : Type 0 where
  pub participant_id : ℕ
  pub wallet_address : String
  pub ride_ids : List String
  pub tx_digest : String
  pub minted : Bool
  pub error : String

unfoldable pub ride_name : String → String
ride_name ride_id = if str_eq ride_id "" then "Ride" else "Ride " ++ ride_id

-- The fields of a result that the loop fills, the others from `l`.
abbrev pub result : MintLive → String → Bool → String → MintResult
result l digest minted error = record {
  participant_id = l.participant_id;
  wallet_address = l.wallet_address;
  ride_ids = l.ride_ids;
  tx_digest = digest;
  minted = minted;
  error = error;
}

abbrev pub tx_of : MintLive → List String → MintTx
tx_of l urls = record {
  recipient = l.wallet_address;
  ride_ids = l.ride_ids;
  date = l.date;
  names = map ride_name l.ride_ids;
  urls = urls;
}

module _ (get_or_pin : String → String → M String) (digest_of : List MintTx → MintTx → String) where
  -- The metadata of the rides, up to the first that cannot be pinned.
  unfoldable pub pin_all : String → List String → M (List String)
  pin_all date [] = pure []
  pin_all date (ride ∷ rides) = wrapping ("pin metadata " ++ ride) (get_or_pin ride date) >>= λ url.
      pin_all date rides >>= λ urls. pure (url ∷ urls)

  -- `MintBatchAttendance`: the chain takes the transaction.
  unfoldable pub submit : MintTx → State → Result String × State
  submit tx s = (ok (digest_of s.chain tx), record s { chain = tx ∷ s.chain })

  -- The rows of the rides, up to the first that cannot be written.
  unfoldable pub record_all : MintLive → String → List String → M MintResult
  record_all l digest [] = pure (result l digest true "")
  record_all l digest (ride ∷ rides) =
      catch (record_mint_for_participant l.participant_id ride l.date digest)
        (λ _. record_all l digest rides)
        (λ e. pure (result l digest true ("record mint " ++ (ride ++ (": " ++ error_text e)))))

  unfoldable pub mint_pinned : MintLive → List String → M MintResult
  mint_pinned l urls =
      catch (call Backend.sui (submit (tx_of l urls))) (λ digest. record_all l digest l.ride_ids)
        (λ e. pure (result l "" false ("mint: " ++ error_text e)))

  unfoldable pub mint_one : MintLive → M MintResult
  mint_one l =
      catch (pin_all l.date l.ride_ids) (λ urls. mint_pinned l urls)
        (λ e. pure (result l "" false (error_text e)))

  unfoldable pub run : List MintLive → M (List MintResult)
  run [] = pure []
  run (l ∷ ls) = mint_one l >>= λ r. run ls >>= λ rs. pure (r ∷ rs)
