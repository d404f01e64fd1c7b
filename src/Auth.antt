-- ===== src/Auth.antt =====
-- internal/auth/google.go: the check of Google's tokens. The JWT library, which reads a token without a
-- check of its signature, and the quoting of a text by `%q` are parameters.
pub mod Tokens
use Prim.Native.String.{◌++◌}
use theme_park_nftengine.Prelude.{
  ℕ, ◌/◌, String, Bool, true, false, Option, none, some, List, [], ◌∷◌, str_eq, ltb, ◌&&◌,
  if◌then◌else◌,
}
use theme_park_nftengine.Errors.{Error, error_text, message}
use theme_park_nftengine.World.{Result, ok, err}

-- The claim `aud`: missing, or of another shape; one text; or a list, whose members may be no texts.
pub data Audience : Type 0 where
  no_audience : Audience
  one_text : String → Audience
  many : List (Option String) → Audience

-- The claims of a token. One that is missing, or no text, reads as the empty text. `exp` is whole seconds.
pub record GoogleClaims : Type 0 where
  pub iss : String
  pub exp : Option ℕ
  pub aud : Audience
  pub email : String
  pub sub : String

-- What the verified claims give.
pub record GooglePayload : Type 0 where
  pub email : String
  pub sub : String

pub record TokenReader : Type 0 where
  -- `ParseUnverified`: claims of another type than a map are `none`.
  pub read : String → Result (Option GoogleClaims)
  pub quote : String → String

abbrev pub google_issuer : String
google_issuer = "https://accounts.google.com"

-- `fmt.Errorf("%w: …", ErrInvalidGoogleToken)`.
abbrev pub invalid_token : String → Error
invalid_token detail = message ("invalid google token: " ++ detail)

unfoldable pub is_expired : Option ℕ → ℕ → Bool
is_expired none now = false
is_expired (some exp) now = ltb exp (now / 1000)

abbrev pub is_text : String → Option String → Bool
is_text client none = str_eq "" client
is_text client (some a) = str_eq a client

-- The loop over the list of audiences.
unfoldable pub has_client : String → List (Option String) → Bool
has_client client [] = false
has_client client (a ∷ auds) = if is_text client a then true else has_client client auds

unfoldable pub matches : String → Audience → Bool
matches client (many auds) = has_client client auds
matches client _ = false

-- No configured client asks for no audience.
unfoldable pub accepts : String → Audience → Bool
accepts client aud = if str_eq client "" then true else matches client aud

module _ (reader : TokenReader) (client_id : String) where
  unfoldable pub verified : ℕ → GoogleClaims → Result GooglePayload
  verified now c =
      if str_eq c.iss google_issuer
      then if is_expired c.exp now
        then err (invalid_token "token expired")
        else if accepts client_id c.aud
        then if str_eq c.email "" && str_eq c.sub ""
          then err (invalid_token "missing email/sub claims")
          else ok (record { email = c.email; sub = c.sub })
        else err (invalid_token "aud does not match configured client id")
      else err (invalid_token ("issuer " ++ (reader.quote c.iss ++ (" != " ++ google_issuer))))

  abbrev pub claims_of : ℕ → Result (Option GoogleClaims) → Result GooglePayload
  claims_of now (err e) = err (invalid_token (error_text e))
  claims_of now (ok none) = err (invalid_token "unparsable claims")
  claims_of now (ok (some c)) = verified now c

  -- At a time in milliseconds.
  unfoldable pub verify_token : ℕ → String → Result GooglePayload
  verify_token now token =
      if str_eq token ""
      then err (invalid_token "empty token")
      else claims_of now (reader.read token)
