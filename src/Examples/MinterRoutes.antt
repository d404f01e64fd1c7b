-- ===== src/Examples/MinterRoutes.antt =====
-- Runs of the minter's routes.
use Prim.Native.String.{◌++◌}
use theme_park_nftengine.Prelude.{
  ℕ, String, ◌≡◌, refl, Bool, true, Option, none, some, List, [], ◌∷◌, length,
}
use theme_park_nftengine.Models.{
  Participant, ParticipantWalletState, none_yet, own_non_custodial, custodial_proxy,
}
use theme_park_nftengine.World.{State, Transfer, MintTx, M, ok, calm, pure}
use theme_park_nftengine.World.Hoare.{Keeps-pure}
use theme_park_nftengine.Http.{HttpRequest, HttpResponse, failure}
use theme_park_nftengine.Auth.{
  no_audience, many, GoogleClaims, GooglePayload, TokenReader, google_issuer, verify_token,
}
use theme_park_nftengine.Auth.Tokens.{Accepted, verify_token_lem}
use theme_park_nftengine.Minter.Routes.{
  DayRun, CustodyRequest, CustodyTransfer, serve_run_day, serve_custody,
}
use theme_park_nftengine.Minter.DayRuns.{Accounted, day_run_accounts}
use theme_park_nftengine.Minter.Custody.{posted, Told, custody_moves}
use theme_park_nftengine.Minter.Unchecked.{after_moves, custody_moves_unchecked}
use theme_park_nftengine.Examples.Fixtures.{tables, world}

abbrev pinning : String → String → M String
pinning ride date = pure ("ipfs://" ++ ride)

abbrev mint_digest : List MintTx → MintTx → String
mint_digest _ _ = "0xd"

abbrev transfer_digest : List Transfer → Transfer → String
transfer_digest _ t = "0xt" ++ t.object

-- Ana, with a wallet.
abbrev ana_with : ParticipantWalletState → Participant
ana_with state = record {
  id = 1;
  name = "Ana";
  account_email = some "ana@park";
  guardian_id = none;
  wallet_state = state;
  custodial_wallet_address = some "0xa";
}

abbrev state_of : ParticipantWalletState → State
state_of state = record world.st { tables = record tables { participants = ana_with state ∷ [] } }

abbrev day : HttpRequest String
day = record { method = "POST"; body = some "1970-01-01" }

day_run_accounts_example :
    (answer : HttpResponse DayRun) × ((serve_run_day pinning mint_digest true day
        (calm (state_of own_non_custodial))).0
      ≡ ok answer)
    × Accounted pinning mint_digest
        (λ _ _ _. Keeps-pure _)
        0
        answer
        (serve_run_day pinning mint_digest true day (calm (state_of own_non_custodial))).1.st
day_run_accounts_example =
    day_run_accounts pinning mint_digest (λ _ _ _. Keeps-pure _) true day
      (calm (state_of own_non_custodial))

abbrev custody : CustodyRequest
custody = record { participant_id = 1; own_wallet = "0xown"; nft_object_ids = "0x1" ∷ "0x2" ∷ [] }

custody_moves_example :
    (answer : HttpResponse CustodyTransfer) × ((serve_custody transfer_digest true
        (posted "POST" custody)
        (calm (state_of custodial_proxy))).0
      ≡ ok answer)
    × Told custody []
        (state_of custodial_proxy).tables
        answer
        (serve_custody transfer_digest true
          (posted "POST" custody)
          (calm (state_of custodial_proxy))).1.st
custody_moves_example =
    custody_moves transfer_digest true "POST" custody (calm (state_of custodial_proxy))

custody_moves_unchecked_example :
    (text : String) × (serve_custody transfer_digest true
        (posted "POST" custody)
        (calm (state_of none_yet))
      ≡ (
        ok (failure 500 text),
        calm (after_moves "0xown" ("0x1" ∷ "0x2" ∷ []) (state_of none_yet)),
      ))
unfolding theme_park_nftengine.Prelude.find_by
custody_moves_unchecked_example =
    custody_moves_unchecked transfer_digest custody (state_of none_yet) refl refl refl

abbrev claims : GoogleClaims
claims = record {
  iss = google_issuer;
  exp = some 100;
  aud = many (none ∷ some "app" ∷ []);
  email = "ana@park";
  sub = "7";
}

abbrev reader : TokenReader
reader = record { read = λ _. ok (some claims); quote = λ s. s }

abbrev payload : GooglePayload
payload = record { email = "ana@park"; sub = "7" }

token_accepted : verify_token reader "app" 100000 "t" ≡ ok payload
unfolding verify_token theme_park_nftengine.Auth.verified theme_park_nftengine.Auth.is_expired
    theme_park_nftengine.Auth.accepts theme_park_nftengine.Auth.matches
    theme_park_nftengine.Auth.has_client
token_accepted = refl

verify_token_lem_example :
    (c : GoogleClaims) × (reader.read "t" ≡ ok (some c)) × Accepted "app" 100000 c payload
verify_token_lem_example = verify_token_lem reader "app" 100000 "t" payload token_accepted
