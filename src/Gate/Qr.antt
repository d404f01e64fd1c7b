-- ===== src/Gate/Qr.antt =====
-- internal/gate/qr.go: the rotating QR tokens. `hmac` is `hmacSHA256` over the standard library's
-- HMAC: a function of the secret and the payload. A timestamp is an int64, held as its 64-bit pattern.
use Prim.Native.String.{◌++◌}
use theme_park_nftengine.Prelude.{
  ℕ, ◌+◌, ◌-◌, ◌/◌, ◌%◌, ◌^◌, String, Bool, true, false, ltb, leb, str_eq, if◌then◌else◌,
}
use theme_park_nftengine.Errors.{message}
use theme_park_nftengine.Config.{GateConfig}
use theme_park_nftengine.Text.{itoa, itoa_64}
use theme_park_nftengine.World.{Result, ok, err}

pub record QrToken : Type 0 where
  pub ticket_id : String
  pub uuid : String
  pub timestamp : ℕ
  pub signature : String

-- The text that is signed: `ticketID|uuid|timestamp`.
unfoldable pub payload : String → String → ℕ → String
payload ticket_id uuid timestamp = ticket_id ++ ("|" ++ (uuid ++ ("|" ++ itoa_64 timestamp)))

-- int64 subtraction and negation.
abbrev pub sub_64 : ℕ → ℕ → ℕ
sub_64 a b = (a + 2 ^ 64 - b) % 2 ^ 64

abbrev pub is_negative : ℕ → Bool
is_negative a = leb (2 ^ 63) a

-- `age := now - ts; if age < 0 { age = -age }`.
unfoldable pub age_of : ℕ → ℕ → ℕ
age_of now timestamp =
    let age = sub_64 now timestamp in if is_negative age then sub_64 0 age else age

-- `age > rotation`, signed.
unfoldable pub is_stale : ℕ → ℕ → Bool
is_stale age rotation = if is_negative age then false else ltb rotation age

module _ (hmac : String → String → String) where
  -- A token for a ticket, at a time in Unix milliseconds, under a fresh uuid.
  unfoldable pub generate_qr_otp : GateConfig → ℕ → String → String → QrToken
  generate_qr_otp cfg now uuid ticket_id =
      let ts = now / 1000 in
      record {
        ticket_id = ticket_id;
        uuid = uuid;
        timestamp = ts;
        signature = hmac cfg.hmac_secret (payload ticket_id uuid ts);
      }

  unfoldable pub verify_qr_otp : GateConfig → ℕ → QrToken → Result Bool
  verify_qr_otp cfg now token =
      if str_eq (hmac cfg.hmac_secret (payload token.ticket_id token.uuid token.timestamp))
        token.signature
      then (let age = age_of (now / 1000) token.timestamp in
          if is_stale age cfg.qr_rotation_seconds
          then err (
              message (
                "QR code expired ("
                ++ (itoa_64 age ++ ("s old, max " ++ (itoa cfg.qr_rotation_seconds ++ "s)")))))
          else ok true)
      else err (message "invalid HMAC signature")
