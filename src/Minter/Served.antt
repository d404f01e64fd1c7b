-- ===== src/Minter/Served.antt =====
-- What the handlers of cmd/minter/main.go guarantee that need the client of the chain.
use theme_park_nftengine.Prelude.{String, Bool, ℕ, Option, none, some, str_eq}
use theme_park_nftengine.Errors.{Error}
use theme_park_nftengine.World.{State, M}
use theme_park_nftengine.World.Hoare.{Hoare, Hoare-pure, Hoare-if}
use theme_park_nftengine.Http.{HttpRequest, HttpResponse, failure, with_body}
use theme_park_nftengine.Minter.Routes.{post_to_sui}

module _ {A B : Type 0} {P : State → Type 0} {Q : HttpResponse B → State → Type 0}
    {E : Error → State → Type 0} (serve : A → M (HttpResponse B))
    (fails : (code : ℕ) (text : String) (s : State) → P s → Q (failure code text) s)
    (serves : (a : A) → Hoare P (serve a) Q E) where
  with_body-Hoare : (body : Option A) → Hoare P (with_body body serve) Q E
  with_body-Hoare none = Hoare-pure _ (fails _ _)
  with_body-Hoare (some a) = serves a

  pub post_to_sui-Hoare :
      (has_sui : Bool) (r : HttpRequest A) → Hoare P (post_to_sui has_sui r serve) Q E
  unfolding post_to_sui
  post_to_sui-Hoare has_sui r =
      Hoare-if (str_eq r.method "POST") _ _
        (λ _. Hoare-if has_sui _ _ (λ _. with_body-Hoare r.body) (λ _. Hoare-pure _ (fails _ _)))
        (λ _. Hoare-pure _ (fails _ _))
