-- ===== src/Voucher/Links.antt =====
-- Round trips of magic links: internal/voucher/link.go.
use theme_park_nftengine.Prelude.{
  ℕ, zero, suc, ◌+◌, ◌*◌, ◌/◌, ◌≤◌, ◌<◌, ◌≡◌, ◌≢◌, refl, String, true, false, some, str_eq, ltb,
  if◌then◌else◌, arith, str_ne, ◌⊎◌, inl, inr, ap, ◌∙◌,
}
use theme_park_nftengine.Errors.{link_error, link_expired}
use theme_park_nftengine.World.{ok, err}
use theme_park_nftengine.Voucher.Link.{
  Jwt, Claims, Duration, ahead, expired, parsed, key_of, lifetime, expiry, is_over, checked,
  sign_magic_link, verify_magic_link,
}

-- What the JWT library documents of HS256: a token is not empty; under the key of its signature it
-- parses to the claims that were signed, or, from their `exp` on, it may parse as expired. A zero `exp`
-- counts as none, and is left out.
pub record IsHs256 (jwt : Jwt) : Type 0 where
  pub not_empty :
      (secret token : String) (c : Claims) → jwt.sign secret c ≡ ok token → str_eq token "" ≡ false
  pub reads :
      (secret token : String) (c : Claims) (exp now : ℕ)
      → jwt.sign secret c ≡ ok token
      → c.exp ≡ some exp
      → 0 < exp
      → (jwt.parse (key_of secret) now token ≡ parsed true c)
        ⊎ (jwt.parse (key_of secret) now token ≡ expired) × (exp * 1000 ≤ now)

-- A lifetime of whole seconds, and the seconds that it lasts.
abbrev pub seconds : ℕ → Duration
seconds n = ahead (n * 1000000000)

abbrev pub lasts : ℕ → ℕ
lasts zero = 86400
lasts (suc n) = suc n

lifetime-ahead : (n : ℕ) → 0 < n → lifetime (ahead n) ≡ ahead n
unfolding lifetime
lifetime-ahead zero h = absurd (ground arith)
lifetime-ahead (suc n) h = refl

expiry-lifetime : (now n : ℕ) → expiry now (lifetime (seconds n)) ≡ now / 1000 + lasts n
unfolding expiry lifetime
expiry-lifetime now zero = omega arith
expiry-lifetime now (suc n) = rw (lifetime-ahead (suc n * 1000000000) (omega arith)) (omega arith)

-- The answer to the claims of a link, where the library has accepted it.
checked_read :
    (id : String) (exp now : ℕ)
    → str_eq id "" ≡ false
    → checked now (parsed true (record { voucher_id = some id; exp = some exp }))
      ≡ (if ltb (now / 1000) exp then ok id else err (link_error link_expired))
unfolding checked is_over
checked_read id exp now named = ground arith

checked_expired :
    (id : String) (exp now : ℕ)
    → exp * 1000 ≤ now
    → checked now expired ≡ (if ltb (now / 1000) exp then ok id else err (link_error link_expired))
unfolding checked
checked_expired id exp now late = ground arith

-- A magic link that was signed for a voucher, which has a name, with a lifetime of whole seconds, answers
-- that voucher under the same secret while the second of the clock is below the second of the signing and
-- the lifetime together, and is rejected as expired from then on; a zero lifetime is a day. The JWT library
-- signs and parses as HS256 documents; it may leave an expired token to the code.
pub magic_link_roundtrip :
    (jwt : Jwt) (secret id token : String) (n now later : ℕ)
    → IsHs256 jwt
    → sign_magic_link jwt secret id (seconds n) now ≡ ok token
    → id ≢ ""
    → verify_magic_link jwt secret token later
      ≡ (if ltb (later / 1000) (now / 1000 + lasts n) then ok id else err (link_error link_expired))
unfolding sign_magic_link verify_magic_link
magic_link_roundtrip jwt secret id token n now later law signed named =
    rw (law.not_empty secret token claims signed)
      (elim (law.reads secret token claims (now / 1000 + lasts n) later signed
        (ap some (expiry-lifetime now n)) (positive n)) [
          | inl whole ↦ rw whole (
              ap (λ x. checked later (parsed true (record { voucher_id = some id; exp = some x })))
                (expiry-lifetime now n)
              ∙ checked_read id (now / 1000 + lasts n) later (str_ne id "" named))
          | inr (over, late) ↦ rw over (checked_expired id (now / 1000 + lasts n) later late)
        ])
  where
    claims : Claims
    claims = record { voucher_id = some id; exp = some (expiry now (lifetime (seconds n))) }

    positive : (n : ℕ) → 0 < now / 1000 + lasts n
    positive zero = omega arith
    positive (suc n) = omega arith
