-- ===== src/Http.antt =====
-- The requests and responses of cmd/gate/main.go and cmd/voucher/main.go.
use theme_park_nftengine.Prelude.{ℕ, String, Option, none, some, if◌then◌else◌, str_eq}
use theme_park_nftengine.Errors.{Error}
use theme_park_nftengine.World.{M, pure, catch}

-- A request with the value that its JSON body decodes to, if it does.
pub record HttpRequest (A : Type 0) : Type 0 where
  pub method : String
  pub body : Option A

-- A response with a body in JSON, or with the text of an error.
pub data HttpResponse (A : Type 0) : Type 0 where
  reply : ℕ → A → HttpResponse A
  failure : ℕ → String → HttpResponse A

abbrev pub code_of : {A : Type 0} → HttpResponse A → ℕ
code_of (reply code _) = code
code_of (failure code _) = code

abbrev pub not_allowed : {A : Type 0} → HttpResponse A
not_allowed = failure 405 "method not allowed"

abbrev pub invalid_json : {A : Type 0} → HttpResponse A
invalid_json = failure 400 "invalid json"

-- The response to what an action returns or fails with.
abbrev pub respond :
    {A B : Type 0} → M A → (A → HttpResponse B) → (Error → HttpResponse B) → M (HttpResponse B)
respond m f g = catch m (λ a. pure (f a)) (λ e. pure (g e))

abbrev pub with_body : {A B : Type 0} → Option A → (A → M (HttpResponse B)) → M (HttpResponse B)
with_body none serve = pure invalid_json
with_body (some a) serve = serve a

-- A handler that takes the JSON of a POST.
unfoldable pub post : {A B : Type 0} → HttpRequest A → (A → M (HttpResponse B)) → M (HttpResponse B)
post r serve = if str_eq r.method "POST" then with_body r.body serve else pure not_allowed
