-- ===== src/Examples/MinterRuns.antt =====
-- Runs of the minter and of the asset cache.
use Prim.Native.String.{◌++◌}
use theme_park_nftengine.Prelude.{
  ℕ, ◌≡◌, refl, ◌+◌, ◌≤◌, Bool, true, false, none, some, List, [], ◌∷◌, String, length,
}
use theme_park_nftengine.Models.{none_yet}
use theme_park_nftengine.World.{State, calm, World, MintTx, M, ok, Result, pure, call, ◌>>=◌, catch}
use theme_park_nftengine.World.Hoare.{Keeps, Keeps-pure}
use theme_park_nftengine.Minter.Resolver.{Resolution, pending, resolve_day}
use theme_park_nftengine.Minter.Days.{AllLedgered, resolve_day_ledgers}
use theme_park_nftengine.Minter.Batch.{MintLive, MintResult, run}
use theme_park_nftengine.Minter.Transactions.{Taken, minted_count, run_submits}
use theme_park_nftengine.Minter.Reruns.{mint_tx, rerun_submits_again}
use theme_park_nftengine.Storage.Cache.{
  RideAssets, Pin, Pinned, CidCache, new_cid_cache, get_or_pin,
}
use theme_park_nftengine.Storage.Reuse.{AssetRequest, requests, get_or_pin_once}
use theme_park_nftengine.Examples.Fixtures.{world}

abbrev ana_pending : Resolution
ana_pending = record {
  participant_id = 1;
  mint_date = "1970-01-01";
  ride_ids = "ride-001" ∷ [];
  wallet_state = none_yet;
  wallet_address = "";
  outcome = pending;
}

day_runs : (resolve_day "1970-01-01" world).0 ≡ ok (ana_pending ∷ [], none)
unfolding resolve_day ◌>>=◌ catch theme_park_nftengine.Postgres.Accounts.list_participants call
    theme_park_nftengine.Minter.Resolver.resolve_each
    theme_park_nftengine.Minter.Resolver.resolve_one
    theme_park_nftengine.Postgres.Rides.rides_for_participant
    theme_park_nftengine.Postgres.Rides.by_email theme_park_nftengine.Postgres.Rides.in_order
    theme_park_nftengine.Postgres.Rides.distinct theme_park_nftengine.Postgres.Rides.selected
    theme_park_nftengine.Prelude.find_by theme_park_nftengine.Calendar.date_of
    theme_park_nftengine.Postgres.Rides.placed
    theme_park_nftengine.Voucher.Service.resolve_mint_wallet
    theme_park_nftengine.Voucher.Service.record_pending_mint
    theme_park_nftengine.Postgres.Accounts.get_participant
    theme_park_nftengine.Postgres.Mints.put_pending
    theme_park_nftengine.Postgres.Mints.upsert_pending_mint
day_runs = refl

resolve_day_ledgers_example : AllLedgered (ana_pending ∷ []) (resolve_day "1970-01-01" world).1.st
resolve_day_ledgers_example =
    resolve_day_ledgers "1970-01-01" world (ana_pending ∷ []) none day_runs

-- A metadata provider that always answers, and a chain whose digests are all one text.
abbrev pinning : String → String → M String
pinning ride date = pure ("ipfs://" ++ ride)

abbrev uri : String → String → String
uri ride date = "ipfs://" ++ ride

abbrev digest_of : List MintTx → MintTx → String
digest_of _ _ = "0xd"

pinning-Taken : (ride date : String) (n : ℕ) → Keeps (Taken n) (pinning ride date)
pinning-Taken ride date n = Keeps-pure _

abbrev live : MintLive
live = record {
  participant_id = 1;
  wallet_address = "0xa";
  ride_ids = "ride-001" ∷ [];
  date = "1970-01-01";
}

abbrev minted : MintResult
minted = record {
  participant_id = 1;
  wallet_address = "0xa";
  ride_ids = "ride-001" ∷ [];
  tx_digest = "0xd";
  minted = true;
  error = "";
}

abbrev first_run : World
first_run = (run pinning digest_of (live ∷ []) world).1

run_submits_example :
    (rs : List MintResult) × ((run pinning digest_of (live ∷ []) world).0 ≡ ok rs)
    × (length rs ≡ 1)
    × (minted_count rs + 0 ≤ length first_run.st.chain)
run_submits_example = run_submits pinning digest_of pinning-Taken (live ∷ []) world

rerun_submits_again_example :
    (rs rs' : List MintResult) × (t : State) × (run pinning digest_of (live ∷ []) (calm world.st)
      ≡ (ok rs, calm t))
    × ((run pinning digest_of (live ∷ []) (calm t)).0 ≡ ok rs')
    × (minted_count rs ≡ 1)
    × (minted_count rs' ≡ 1)
    × ((run pinning digest_of (live ∷ []) (calm t)).1.st.chain
        ≡ mint_tx pinning digest_of uri (λ _ _ _. refl) live
          ∷ (mint_tx pinning digest_of uri (λ _ _ _. refl) live ∷ []))
rerun_submits_again_example =
    rerun_submits_again pinning digest_of uri (λ _ _ _. refl) (live ∷ []) world.st

abbrev svg : String → String → String
svg ride date = ride

abbrev metadata : String → String → String → String
metadata ride date uri = date ++ uri

abbrev answer : List Pin → Pin → Result Pinned
answer _ p = ok (record { cid = p.name; uri = "ipfs://" ++ p.name })

abbrev assets : RideAssets
assets = record {
  artwork_cid = "r1-d1.svg";
  artwork_uri = "ipfs://r1-d1.svg";
  metadata_cid = "r1-metadata-d1";
  metadata_uri = "ipfs://r1-metadata-d1";
}

abbrev other : AssetRequest
other = record { ride = "r2"; date = "d1" }

pin_runs : (get_or_pin svg metadata answer new_cid_cache "r1" "d1").0 ≡ ok assets
unfolding get_or_pin new_cid_cache theme_park_nftengine.Storage.Cache.pin_assets
pin_runs = refl

abbrev later : CidCache
later =
    requests svg metadata answer (other ∷ [])
      (get_or_pin svg metadata answer new_cid_cache "r1" "d1").1

get_or_pin_once_example : get_or_pin svg metadata answer later "r1" "d2" ≡ (ok assets, later)
get_or_pin_once_example =
    get_or_pin_once svg metadata answer new_cid_cache "r1" "d1" "d2" (other ∷ []) assets pin_runs
