-- ===== src/Auth/Tokens.antt =====
-- The tokens that internal/auth/google.go accepts.
use theme_park_nftengine.Prelude.{
  ℕ, ◌/◌, ◌≤◌, String, ◌≡◌, refl, sym, ap, ◌≢◌, true, false, Option, none, some, List, [], ◌∷◌,
  ◌++◌, str_eq, eq_iff, Bool-cases, ◌⊎◌, inl, inr, arith,
}
use theme_park_nftengine.World.{Result, ok, err}
use theme_park_nftengine.Auth.{
  Audience, no_audience, one_text, many, GoogleClaims, GooglePayload, TokenReader, google_issuer,
  is_expired, is_text, has_client, matches, accepts, verified, claims_of, verify_token,
}

-- The time, in milliseconds, is not past the second of the expiry, where there is one.
abbrev pub InTime : Option ℕ → ℕ → Type 0
InTime none now = Unit {0}
InTime (some exp) now = now / 1000 ≤ exp

-- A list that has the client among its texts.
abbrev pub Lists : String → Audience → Type 0
Lists client aud = (xs ys : List (Option String)) × (aud ≡ many (xs ++ some client ∷ ys))

-- What the check of the claims asks.
abbrev pub Accepted : String → ℕ → GoogleClaims → GooglePayload → Type 0
Accepted client now c p =
    (c.iss ≡ google_issuer)
    × InTime c.exp now
    × ((client ≡ "") ⊎ Lists client c.aud)
    × (p ≡ record { email = c.email; sub = c.sub })

in_time : (o : Option ℕ) (now : ℕ) → is_expired o now ≡ false → InTime o now
unfolding is_expired
in_time none now h = tt
in_time (some exp) now h = ground arith

listed :
    (client : String) (auds : List (Option String))
    → client ≢ ""
    → has_client client auds ≡ true
    → (xs ys : List (Option String)) × (auds ≡ xs ++ some client ∷ ys)
unfolding has_client
listed client [] named h = absurd (cc h)
listed client (a ∷ auds) named h = elim (Bool-cases (is_text client a)) [
  | inl hit ↦ ([], auds, ap (λ x. x ∷ auds) (same a hit))
  | inr miss ↦
      let (xs, ys, e) = listed client auds named (ground arith) in (a ∷ xs, ys, ap (λ l. a ∷ l) e)
]
  where
    same : (a : Option String) → is_text client a ≡ true → a ≡ some client
    same none hit = absurd (named (sym ((eq_iff "" client).0 hit)))
    same (some x) hit = ap some ((eq_iff x client).0 hit)

matches-Lists :
    (client : String) (aud : Audience) → client ≢ "" → matches client aud ≡ true → Lists client aud
unfolding matches
matches-Lists client no_audience named h = absurd (cc h)
matches-Lists client (one_text _) named h = absurd (cc h)
matches-Lists client (many auds) named h =
    let (xs, ys, e) = listed client auds named h in (xs, ys, ap many e)

accepted_audience :
    (client : String) (aud : Audience)
    → accepts client aud ≡ true
    → (client ≡ "") ⊎ Lists client aud
unfolding accepts
accepted_audience client aud h = elim (Bool-cases (str_eq client "")) [
  | inl free ↦ inl ((eq_iff client "").0 free)
  | inr pinned ↦
      inr (matches-Lists client aud (λ e. cc (pinned, (eq_iff client "").1 e)) (ground arith))
]

verified_lem :
    (reader : TokenReader) (client : String) (now : ℕ) (c : GoogleClaims) (p : GooglePayload)
    → verified reader client now c ≡ ok p
    → (str_eq c.iss google_issuer ≡ true)
      × (is_expired c.exp now ≡ false)
      × (accepts client c.aud ≡ true)
      × (p ≡ record { email = c.email; sub = c.sub })
unfolding verified
verified_lem reader client now c p h = ground arith

claims_of-Accepted :
    (reader : TokenReader) (client : String) (now : ℕ) (r : Result (Option GoogleClaims))
    (p : GooglePayload)
    → claims_of reader client now r ≡ ok p
    → (c : GoogleClaims) × (r ≡ ok (some c)) × Accepted client now c p
claims_of-Accepted reader client now (err e) p h = absurd (cc h)
claims_of-Accepted reader client now (ok none) p h = absurd (cc h)
claims_of-Accepted reader client now (ok (some c)) p h =
    let (issuer, fresh, audience, fields) = verified_lem reader client now c p h in
    (
      c,
      refl,
      (
        (eq_iff c.iss google_issuer).0 issuer,
        in_time c.exp now fresh,
        accepted_audience client c.aud audience,
        fields,
      ),
    )

-- A token that is accepted was read, without a check of its signature, as claims with Google's issuer, an
-- expiry that is not past where there is one, and, where a client is configured, an `aud` that is a list
-- with the client; one text as `aud` is not accepted then. The payload has the email and the subject of
-- the claims.
pub verify_token_lem :
    (reader : TokenReader) (client : String) (now : ℕ) (token : String) (p : GooglePayload)
    → verify_token reader client now token ≡ ok p
    → (c : GoogleClaims) × (reader.read token ≡ ok (some c)) × Accepted client now c p
unfolding verify_token
verify_token_lem reader client now token p h = elim (Bool-cases (str_eq token "")) [
  | inl empty ↦ absurd (ground arith)
  | inr present ↦ claims_of-Accepted reader client now (reader.read token) p (ground arith)
]
