-- ===== src/Voucher/Link.antt =====
-- internal/voucher/link.go: the magic links of vouchers. The JWT library is a parameter.
use theme_park_nftengine.Prelude.{
  ℕ, zero, ◌+◌, ◌-◌, ◌*◌, ◌/◌, String, Bool, true, false, Option, none, some, str_eq, ltb,
  if◌then◌else◌,
}
use theme_park_nftengine.Errors.{link_error, invalid_link, link_expired, message}
use theme_park_nftengine.World.{Result, ok, err}

-- A `time.Duration`, in nanoseconds.
pub data Duration : Type 0 where
  ahead behind : ℕ → Duration

-- The claims of a token: `voucher_id` where it is a text, and `exp` in Unix seconds where it is there.
pub record Claims : Type 0 where
  pub voucher_id : Option String
  pub exp : Option ℕ

-- What `jwt.Parse` answers: its error, or a token with its `Valid` and its claims.
pub data Parsed : Type 0 where
  expired refused : Parsed
  parsed : Bool → Claims → Parsed

-- The library: HS256 signing, and parsing at a time in milliseconds under a function that gives the key
-- for a token that is signed by HMAC or otherwise.
pub record Jwt : Type 0 where
  pub sign : String → Claims → Result String
  pub parse : (Bool → Result String) → ℕ → String → Parsed

abbrev pub a_day : ℕ
a_day = 86400000000000

-- A zero ttl is a day.
unfoldable pub lifetime : Duration → Duration
lifetime (ahead zero) = ahead a_day
lifetime (behind zero) = ahead a_day
lifetime ttl = ttl

-- `time.Now().Add(ttl).Unix()`, at or after the epoch.
unfoldable pub expiry : ℕ → Duration → ℕ
expiry now (ahead n) = (now * 1000000 + n) / 1000000000
expiry now (behind n) = (now * 1000000 - n) / 1000000000

-- The function that gives the key.
abbrev pub key_of : String → Bool → Result String
key_of secret true = ok secret
key_of secret false = err (message "unexpected signing method")

-- The explicit check of the expiry.
unfoldable pub is_over : Option ℕ → ℕ → Bool
is_over none now = false
is_over (some exp) now = if ltb now (exp * 1000) then false else true

abbrev pub voucher_of : Option String → Result String
voucher_of none = err (link_error invalid_link)
voucher_of (some id) = if str_eq id "" then err (link_error invalid_link) else ok id

unfoldable pub checked : ℕ → Parsed → Result String
checked now expired = err (link_error link_expired)
checked now refused = err (link_error invalid_link)
checked now (parsed false claims) = err (link_error invalid_link)
checked now (parsed true claims) =
    if is_over claims.exp now then err (link_error link_expired) else voucher_of claims.voucher_id

module _ (jwt : Jwt) where
  -- At a time in milliseconds.
  unfoldable pub sign_magic_link : String → String → Duration → ℕ → Result String
  sign_magic_link secret voucher_id ttl now =
      jwt.sign secret
        (record { voucher_id = some voucher_id; exp = some (expiry now (lifetime ttl)) })

  unfoldable pub verify_magic_link : String → String → ℕ → Result String
  verify_magic_link secret token now =
      if str_eq token ""
      then err (link_error invalid_link)
      else checked now (jwt.parse (key_of secret) now token)
