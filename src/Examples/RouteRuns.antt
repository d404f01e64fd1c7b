-- ===== src/Examples/RouteRuns.antt =====
-- Runs of the routes of the gate and of the voucher service.
use theme_park_nftengine.Prelude.{
  ℕ, suc, ◌≡◌, ◌≢◌, refl, ◌*◌, ◌<◌, String, Bool, true, false, Option, none, some, List, [], ◌∷◌,
  arith, inl, str_eq, ltb, if◌then◌else◌, eq_iff, ◌&&◌,
}
use theme_park_nftengine.Errors.{Error, message, link_error, link_expired}
use theme_park_nftengine.Keyspace.{empty}
use theme_park_nftengine.World.{Result, ok, err, call, ◌>>=◌, catch}
use theme_park_nftengine.Http.{HttpRequest, reply}
use theme_park_nftengine.Gate.Binding.{BindRequest}
use theme_park_nftengine.Gate.Routes.{
  RideScanRequest, serve_bind, serve_nfc_check, serve_reset, serve_scan,
}
use theme_park_nftengine.Gate.Refusals.{Answers, refusals_write_nothing}
use theme_park_nftengine.Gate.History.{binds}
use theme_park_nftengine.Gate.Overlap.{serves, sends, to_delete, overlapped}
use theme_park_nftengine.Gate.Abstract.{Follows}
use theme_park_nftengine.Gate.LinkMoves.{links_of}
use theme_park_nftengine.Gate.Refines.{overlapped_refines}
use theme_park_nftengine.Redis.Keeps.{HasLinks}
use theme_park_nftengine.Voucher.Link.{
  Jwt, Claims, Duration, ahead, expired, refused, parsed, Parsed, lifetime, expiry, sign_magic_link,
  verify_magic_link,
}
use theme_park_nftengine.Voucher.Links.{IsHs256, magic_link_roundtrip}
use theme_park_nftengine.Voucher.Routes.{serve_claim}
use theme_park_nftengine.Voucher.Service.{delegate}
use theme_park_nftengine.Voucher.Claims.{after_claim, claim_once}
use theme_park_nftengine.Voucher.Purchases.{Nothing, after_purchase, repurchase_fails}
use theme_park_nftengine.Postgres.Mints.{create_vouchers}
use theme_park_nftengine.Examples.Fixtures.{gate, world, request_with}
use theme_park_nftengine.Examples.VoucherRuns.{for_child, child_given}

abbrev post_bind : HttpRequest BindRequest
post_bind = record { method = "POST"; body = some (request_with "w1") }

abbrev get_check : HttpRequest String
get_check = record { method = "GET"; body = some "w1" }

abbrev post_reset : HttpRequest String
post_reset = record { method = "POST"; body = some "w9" }

abbrev post_nothing : HttpRequest RideScanRequest
post_nothing = record { method = "POST"; body = none }

refusals_write_nothing_example :
    Answers (serve_bind gate.hmac gate.settings gate.redis post_bind) world
    × Answers (serve_nfc_check gate.check gate.redis get_check) world
    × Answers (serve_reset post_reset) world
    × Answers (serve_scan true "e9" post_nothing) world
refusals_write_nothing_example =
    refusals_write_nothing gate "e9" post_bind get_check post_reset post_nothing world

no_links : HasLinks world.st
unfolding theme_park_nftengine.Keyspace.peek
no_links = record { forward = λ uid e p. absurd (cc p); backward = λ t e p. absurd (cc p) }

overlapped_refines_example :
    let events = serves (binds (request_with "w1")) ∷ sends (to_delete "w1") ∷ [] in
    Follows events (links_of world.st) (links_of (overlapped gate events world).st)
overlapped_refines_example =
    overlapped_refines gate (serves (binds (request_with "w1")) ∷ sends (to_delete "w1") ∷ []) world
      no_links

-- A library that knows one secret, and one token of it for each expiry and voucher.
abbrev claims_of : ℕ → Claims
claims_of exp = record { voucher_id = some "v1"; exp = some exp }

abbrev is_issued : String → Claims → Bool
is_issued secret c =
    str_eq secret "s"
    && (elim c.voucher_id [ none ↦ false | some id ↦ str_eq id "v1" ]
        && elim c.exp [ none ↦ false | some exp ↦ ltb exp 86501 && ltb 86499 exp ])

-- A library that leaves an expired token to the code.
abbrev parsed_under : Result String → Parsed
parsed_under (err _) = refused
parsed_under (ok key) = if str_eq key "s" then parsed true (claims_of 86500) else refused

abbrev one_token : Jwt
one_token = record {
  sign = λ secret c. if is_issued secret c then ok "tok" else err (message "no token");
  parse = λ key now token. if str_eq token "tok" then parsed_under (key true) else refused;
}

-- What the library has signed.
issued :
    (secret token : String) (c : Claims)
    → one_token.sign secret c ≡ ok token
    → (token ≡ "tok") × (secret ≡ "s") × (c.voucher_id ≡ some "v1") × (c.exp ≡ some 86500)
issued secret token c h = by_claims c.voucher_id c.exp refl refl
  where
    by_claims :
        (v : Option String) (x : Option ℕ)
        → c.voucher_id ≡ v
        → c.exp ≡ x
        → (token ≡ "tok") × (secret ≡ "s") × (c.voucher_id ≡ some "v1") × (c.exp ≡ some 86500)
    by_claims none x p q = absurd (ground arith)
    by_claims (some v) none p q = absurd (ground arith)
    by_claims (some v) (some x) p q = ground (arith, eq_iff secret "s", eq_iff v "v1")

same_claims : (c : Claims) → c.voucher_id ≡ some "v1" → c.exp ≡ some 86500 → c ≡ claims_of 86500
same_claims c v x = λ i. record { voucher_id = v i; exp = x i }

one_token-IsHs256 : IsHs256 one_token
one_token-IsHs256 = record {
  not_empty = λ secret token c s. rw (issued secret token c s).0 refl;
  reads = λ secret token c exp now s e positive.
      let (t, k, v, x) = issued secret token c s in inl (rw (t, k, same_claims c v x) refl);
}

signed : sign_magic_link one_token "s" "v1" (ahead 0) 100000 ≡ ok "tok"
unfolding sign_magic_link lifetime expiry
signed = refl

magic_link_roundtrip_example :
    verify_magic_link one_token "s" "tok" 90000000
    ≡ (if ltb 90000 86500 then ok "v1" else err (link_error link_expired))
magic_link_roundtrip_example =
    magic_link_roundtrip one_token "s" "v1" "tok" 0 100000 90000000 one_token-IsHs256 signed
      (λ h. absurd (cc h))

verified : verify_magic_link one_token "s" "tok" world.st.now ≡ ok "v1"
unfolding verify_magic_link theme_park_nftengine.Voucher.Link.checked
    theme_park_nftengine.Voucher.Link.is_over
verified = refl

claim_runs : (serve_claim one_token "s" "tok" "bo@park" world).0 ≡ ok (reply 200 "bo@park")
unfolding call serve_claim ◌>>=◌ verify_magic_link theme_park_nftengine.Voucher.Link.checked
    theme_park_nftengine.Voucher.Link.is_over catch
    theme_park_nftengine.Postgres.Accounts.create_user
    theme_park_nftengine.Postgres.Accounts.upsert_user theme_park_nftengine.Prelude.find_by
    theme_park_nftengine.Postgres.Mints.claim_voucher
    theme_park_nftengine.Postgres.Mints.update_vouchers
claim_runs = refl

verified_later :
    verify_magic_link one_token "s" "tok"
      (after_claim one_token "s" "tok" "bo@park" [] world).st.now
    ≡ ok "v1"
unfolding call verify_magic_link theme_park_nftengine.Voucher.Link.checked
    theme_park_nftengine.Voucher.History.history serve_claim ◌>>=◌
    theme_park_nftengine.Voucher.Link.is_over catch
    theme_park_nftengine.Postgres.Accounts.create_user
    theme_park_nftengine.Postgres.Accounts.upsert_user theme_park_nftengine.Prelude.find_by
    theme_park_nftengine.Postgres.Mints.claim_voucher
    theme_park_nftengine.Postgres.Mints.update_vouchers
verified_later = refl

claim_once_example :
    ((serve_claim one_token "s" "tok" "ana@park"
        (after_claim one_token "s" "tok" "bo@park" [] world)).0
      ≢ ok (reply 200 "ana@park"))
    × ((delegate for_child (after_claim one_token "s" "tok" "bo@park" [] world)).0 ≢ ok child_given)
claim_once_example =
    claim_once one_token "s" "s" "tok" "tok" "bo@park" "ana@park" "bo@park" "ana@park" "v1" 200 200
      for_child child_given [] world verified claim_runs verified_later refl

purchase_runs : (create_vouchers 1 1 world).0 ≡ ok ("voucher-1-0" ∷ [], none)
unfolding call create_vouchers theme_park_nftengine.Postgres.Mints.create_from catch
    theme_park_nftengine.Postgres.Mints.insert_voucher theme_park_nftengine.Prelude.find_by
    theme_park_nftengine.Postgres.Mints.voucher_name theme_park_nftengine.Text.itoa ◌>>=◌
purchase_runs = refl

repurchase_fails_example :
    (r : List String × Option Error) × ((create_vouchers 1 2 (after_purchase 1 0 [] world)).0
      ≡ ok r)
    × Nothing 1
        (after_purchase 1 0 [] world).st.tables.ticket_vouchers
        r
        (create_vouchers 1 2 (after_purchase 1 0 [] world)).1.st
repurchase_fails_example = repurchase_fails 1 0 1 ("voucher-1-0" ∷ []) [] world purchase_runs
