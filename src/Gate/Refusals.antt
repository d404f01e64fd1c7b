-- ===== src/Gate/Refusals.antt =====
-- The refusals of the gate's routes: cmd/gate/main.go over internal/gate.
use theme_park_nftengine.Prelude.{
  String, ◌≡◌, refl, Bool, false, not, ◌&&◌, ◌==◌, Option, none, some, ◌⊎◌, inl, inr, str_eq, arith,
}
use theme_park_nftengine.Errors.{
  Error, qr_invalid, qr_replay, ticket_invalid, no_binding, not_bound,
}
use theme_park_nftengine.World.{State, World, ok, M}
use theme_park_nftengine.World.Hoare.{Hoare-answered, Hoare, Hoare-catch, Hoare-pure, Hoare-if}
use theme_park_nftengine.Gate.Late.{Late}
use theme_park_nftengine.Gate.Binding.{BindRequest}
use theme_park_nftengine.Gate.Routes.{
  RideScanRequest, serve_bind, serve_nfc_check, serve_reset, serve_scan, bind_failed,
  wristband_failed, scan_failed,
}
use theme_park_nftengine.Gate.History.{Gate}
use theme_park_nftengine.Http.{HttpRequest, HttpResponse, reply, failure, post, respond, with_body}
use theme_park_nftengine.Gate.Stages.{
  Early, Same, bind-Early, nfc_check-Early, reset-Early, scan-Early,
}

-- A response that refuses: it is neither a success, nor an internal error, nor the answer that the
-- wristband or the ticket is bound.
abbrev pub is_refusal : {A : Type 0} → HttpResponse A → Bool
is_refusal (reply _ _) = false
is_refusal (failure code text) =
    not (code == 500) && not (str_eq text "wristband or ticket already bound")

-- There is a response, and where it refuses the state is as it was.
abbrev pub Answers : {A : Type 0} → M (HttpResponse A) → World → Type 0
Answers m w =
    (r : HttpResponse _) × ((m w).0 ≡ ok r) × ((is_refusal r ≡ false) ⊎ ((m w).1.st ≡ w.st))

abbrev pub Silent : {A : Type 0} → State → HttpResponse A → State → Type 0
Silent s₀ r s = (is_refusal r ≡ false) ⊎ (s ≡ s₀)

module _ (s₀ : State) where
  respond-Silent :
      {A : Type 0} (m : M A) (g : Error → HttpResponse A)
      → Hoare (Same s₀) m (λ _ _. Unit {0}) (Early s₀)
      → ((e : Error) → Late e → is_refusal (g e) ≡ false)
      → Hoare (Same s₀) (respond m (reply 200) g) (Silent s₀) (λ _ _. ⊥)
  respond-Silent m g h late_reply =
      Hoare-catch _ _ _ h (λ a. Hoare-pure _ (λ _ _. inl refl))
        λ e. Hoare-pure _ λ s q. elim q [ inl same ↦ inr same | inr late ↦ inl (late_reply e late) ]

  body-Silent :
      {A B : Type 0} (o : Option A) (serve : A → M (HttpResponse B))
      → ((a : A) → Hoare (Same s₀) (serve a) (Silent s₀) (λ _ _. ⊥))
      → Hoare (Same s₀) (with_body o serve) (Silent s₀) (λ _ _. ⊥)
  body-Silent none serve h = Hoare-pure _ (λ s same. inr same)
  body-Silent (some a) serve h = h a

  post-Silent :
      {A B : Type 0} (r : HttpRequest A) (serve : A → M (HttpResponse B))
      → ((a : A) → Hoare (Same s₀) (serve a) (Silent s₀) (λ _ _. ⊥))
      → Hoare (Same s₀) (post r serve) (Silent s₀) (λ _ _. ⊥)
  unfolding post
  post-Silent r serve h =
      Hoare-if (str_eq r.method "POST") _ _ (λ _. body-Silent r.body serve h)
        (λ _. Hoare-pure _ (λ s same. inr same))

bind_failed-Late : (e : Error) → Late e → is_refusal (bind_failed e) ≡ false
unfolding bind_failed
bind_failed-Late e late =
    ground (arith, late qr_invalid refl, late qr_replay refl, late ticket_invalid refl)

wristband_failed-Late : (e : Error) → Late e → is_refusal (wristband_failed e) ≡ false
unfolding wristband_failed
wristband_failed-Late e late = ground (arith, late no_binding refl)

scan_failed-Late : (e : Error) → Late e → is_refusal (scan_failed e) ≡ false
unfolding scan_failed
scan_failed-Late e late = ground (arith, late no_binding refl, late not_bound refl)

answers :
    {A : Type 0} (m : M (HttpResponse A)) (w : World)
    → Hoare (Same w.st) m (Silent w.st) (λ _ _. ⊥)
    → Answers m w
answers m w h = Hoare-answered m h w refl

-- Each route that takes a POST always answers. An answer other than 200, 500 and the 409 of a link that
-- exists leaves Redis, the tables, the topics, the chain and the time as they were: a wrong method, a
-- body that does not parse, a token that is invalid or used, a ticket that is not bindable, a wristband
-- without a binding or not yet BOUND. Calls of the backends may fail before or after their effect.
pub refusals_write_nothing :
    (g : Gate) (trace : String) (binds : HttpRequest BindRequest)
    (checks resets : HttpRequest String) (scans : HttpRequest RideScanRequest) (w : World)
    → Answers (serve_bind g.hmac g.settings g.redis binds) w
      × Answers (serve_nfc_check g.check g.redis checks) w
      × Answers (serve_reset resets) w
      × Answers (serve_scan g.has_db trace scans) w
unfolding serve_bind serve_nfc_check serve_reset serve_scan
refusals_write_nothing g trace binds checks resets scans w = (
  answers _ w (
      post-Silent w.st binds _ λ req.
        respond-Silent w.st _ bind_failed (bind-Early w.st g.hmac g.settings g.redis req)
          bind_failed-Late),
  answers _ w (
      post-Silent w.st checks _ λ uid.
        respond-Silent w.st _ wristband_failed (nfc_check-Early w.st g.check g.redis uid)
          wristband_failed-Late),
  answers _ w (
      post-Silent w.st resets _
        λ uid. respond-Silent w.st _ wristband_failed (reset-Early w.st uid) wristband_failed-Late),
  answers _ w (
      post-Silent w.st scans _ λ req.
        respond-Silent w.st _ scan_failed
          (scan-Early w.st g.has_db trace req.wristband_uid req.ride_id) scan_failed-Late),
)
