-- ===== src/Voucher/Claims.antt =====
-- Claims by magic link: cmd/voucher/main.go over internal/postgres/repository.go.
use theme_park_nftengine.Prelude.{
  ℕ, String, ◌≡◌, ◌≢◌, refl, true, false, none, some, List, [], ◌∷◌, ◌++◌, str_eq, arith,
  Bool-cases, Option-cases, inl, inr, find_by, update_where, eq_iff, find_by-update_other,
  find_by-update_none, find_by-update_all, find_by-update_made, find_by-append_other,
}
use theme_park_nftengine.Models.{TicketVoucher, claimed, DelegateRequest, DelegateResponse}
use theme_park_nftengine.World.{State, World, Backend, ok}
use theme_park_nftengine.World.Hoare.{
  Hoare, Hoare-bind, Hoare-call, Hoare-catch, Hoare-pure, Hoare-raise, Hoare-if, Hoare-reads,
  Hoare-fact, Hoare-value, keeping, Keeps, Keeps-call, Keeps-catch, Keeps-pure, Keeps-raise,
}
use theme_park_nftengine.Http.{HttpResponse, reply, failure}
use theme_park_nftengine.Postgres.Accounts.{has_row, create_user, upsert_user, has_email}
use theme_park_nftengine.Postgres.Mints.{
  names_voucher, new_voucher, is_claimable, is_open, update_vouchers, claim_voucher, given_to,
}
use theme_park_nftengine.Voucher.Service.{delegate}
use theme_park_nftengine.Voucher.Keeps.{Of}
use theme_park_nftengine.Voucher.History.{ServiceRequest, history, history-Of}
use theme_park_nftengine.Voucher.Once.{Taken, delegate-refused, no_row}
use theme_park_nftengine.Voucher.Link.{Jwt, verify_magic_link}
use theme_park_nftengine.Voucher.Routes.{serve_claim, claim_for}

-- The voucher is there, and no row of it can be claimed.
abbrev pub IsClaimed : String → List TicketVoucher → Type 0
IsClaimed vid vs =
    ((v : TicketVoucher) × (find_by (names_voucher vid) vs ≡ some v))
    × (find_by (is_claimable vid) vs ≡ none)

given-Claimed :
    (vid other : String) (p : ℕ) (vs : List TicketVoucher)
    → IsClaimed vid vs
    → IsClaimed vid (update_where (is_open other) (given_to p) vs)
given-Claimed vid other p vs ((v, found), closed) = (
  find_by-update_other (names_voucher vid) (is_open other) (given_to p) vs v (λ _. refl) found,
  find_by-update_none (is_claimable vid) (is_open other) (given_to p) vs (λ x h. h) closed,
)

claimed-Claimed :
    (vid other : String) (o : ℕ) (vs : List TicketVoucher)
    → IsClaimed vid vs
    → IsClaimed vid (
        update_where
          (is_claimable other)
          (λ v. record v { owner_id = some o; status = claimed })
          vs)
claimed-Claimed vid other o vs ((v, found), closed) = (
  find_by-update_other (names_voucher vid) (is_claimable other) _ vs v (λ _. refl) found,
  find_by-update_none (is_claimable vid) (is_claimable other) _ vs (λ x h. ground arith) closed,
)

inserted-Claimed :
    (vid other : String) (purchaser : ℕ) (vs : List TicketVoucher)
    → find_by (names_voucher other) vs ≡ none
    → IsClaimed vid vs
    → IsClaimed vid (vs ++ new_voucher other purchaser ∷ [])
inserted-Claimed vid other purchaser vs absent ((v, found), closed) =
    elim (Bool-cases (str_eq other vid)) [
      | inl same ↦ absurd (ground (arith, eq_iff other vid))
      | inr differ ↦ (
        (
          v,
          rw (find_by-append_other (names_voucher vid) vs (new_voucher other purchaser) differ)
              found,
        ),
        rw (find_by-append_other (is_claimable vid) vs (new_voucher other purchaser) (ground arith))
            closed,
      )
    ]

-- What cannot be claimed is not open to a delegation.
claimed_closed :
    (vid : String) (vs : List TicketVoucher)
    → find_by (is_claimable vid) vs ≡ none
    → find_by (is_open vid) vs ≡ none
unfolding find_by
claimed_closed vid [] h = refl
claimed_closed vid (v ∷ vs) h = ground (arith, claimed_closed vid vs)

update-Claimed :
    (vid : String) (o : ℕ) (vs : List TicketVoucher)
    → has_row (is_claimable vid) vs ≡ true
    → IsClaimed vid
        (update_where (is_claimable vid) (λ v. record v { owner_id = some o; status = claimed }) vs)
update-Claimed vid o vs h = elim (Option-cases (find_by (is_claimable vid) vs)) [
  | inl absent ↦ absurd (cc)
  | inr (v, present) ↦ (
    find_by-update_made (names_voucher vid) (is_claimable vid) _ vs v (λ x q. ground arith) present,
    find_by-update_all (is_claimable vid) _ vs (λ x. ground arith),
  )
]

abbrev Claimed : String → State → Type 0
Claimed vid = Of (IsClaimed vid)

claim_voucher-Claimed :
    (vid : String) (o : ℕ)
    → Hoare (λ _. Unit {0}) (claim_voucher vid o) (λ _. Claimed vid) (λ _ _. Unit {0})
unfolding claim_voucher update_vouchers
claim_voucher-Claimed vid o =
    Hoare-bind {R = λ b s. b ≡ true → Claimed vid s} _ _
      (Hoare-call Backend.postgres _ (λ s _ b. update-Claimed vid o s.tables.ticket_vouchers b)
        (λ _ _ _. tt) (λ _ _ _. tt))
      (λ b. Hoare-if b _ _ (λ q. Hoare-pure tt (λ s h. h q)) (λ _. Hoare-raise _ (λ _ _. tt)))

claim_voucher-refused :
    (vid : String) (o : ℕ) → Hoare (Claimed vid) (claim_voucher vid o) (λ _ _. ⊥) (λ _ _. Unit {0})
unfolding claim_voucher update_vouchers
claim_voucher-refused vid o =
    Hoare-bind {R = λ b _. b ≡ false} _ _
      (Hoare-call Backend.postgres _ (λ s h. no_row (is_claimable vid) s.tables.ticket_vouchers h.1)
        (λ _ _ _. tt) (λ _ _ _. tt))
      (λ b. Hoare-if b _ _ (λ q. Hoare-pure tt (λ s h. cc)) (λ _. Hoare-raise _ (λ _ _. tt)))

create_user-Of :
    (Φ : List TicketVoucher → Type 0) (email : String) → Keeps (Of Φ) (create_user email)
unfolding create_user upsert_user
create_user-Of Φ email =
    Keeps-catch _ _ _
      (Keeps-call Backend.postgres _ λ s h.
        elim (Option-cases (find_by (has_email email) s.tables.users)) [
          | inl absent ↦ rw (absent, upsert_user) h
          | inr (u, present) ↦ rw (present, upsert_user) h
        ])
      (λ u. Keeps-pure u) (λ e. Keeps-raise _)

-- What a response of 200 guarantees.
abbrev IfWon : (State → Type 0) → HttpResponse String → State → Type 0
IfWon P (reply code _) s = P s
IfWon P (failure code _) s = Unit

module _ (vid : String) (P Q : State → Type 0)
    (kept : (email : String) → Keeps P (create_user email))
    (claims : (o : ℕ) → Hoare P (claim_voucher vid o) (λ _. Q) (λ _ _. Unit {0})) where
  claim_for-Hoare : (email : String) → Hoare P (claim_for vid email) (IfWon Q) (λ _ _. Unit {0})
  claim_for-Hoare email =
      Hoare-if (str_eq email "") _ _ (λ _. Hoare-pure _ (λ _ _. tt))
        λ _.
          Hoare-catch _ _ _ (keeping _ (kept email))
            (λ user.
              Hoare-catch _ _ _ (claims user.id) (λ _. Hoare-pure _ (λ _ q. q))
                (λ e. Hoare-pure _ (λ _ _. tt)))
            (λ e. Hoare-pure _ (λ _ _. tt))

  serve_claim-Hoare :
      (jwt : Jwt) (secret token email : String) (n : ℕ)
      → verify_magic_link jwt secret token n ≡ ok vid
      → Hoare
          (λ s. (s.now ≡ n) × P s)
          (serve_claim jwt secret token email)
          (IfWon Q)
          (λ _ _. Unit {0})
  unfolding serve_claim
  serve_claim-Hoare jwt secret token email n verified =
      Hoare-bind {R = λ r s. (r ≡ ok vid) × P s} _ _ (Hoare-reads _ (λ s h. (rw h.0 verified, h.1)))
        (λ r. Hoare-fact _ (λ e. rw e (claim_for-Hoare email)))

-- A claim, and the requests after it.
abbrev pub after_claim : Jwt → String → String → String → List ServiceRequest → World → World
after_claim jwt secret token email rs w = history rs (serve_claim jwt secret token email w).1

-- A magic link wins its voucher once. After a claim that was answered with a success, and any history of
-- requests under any faults, no claim with a link that verifies to the same voucher is answered with a
-- success, for whatever e-mail and secret, and no delegation of that voucher succeeds.
pub claim_once :
    (jwt : Jwt) (secret secret' token token' email email' e e' vid : String) (code code' : ℕ)
    (req : DelegateRequest) (d : DelegateResponse) (rs : List ServiceRequest) (w : World)
    → verify_magic_link jwt secret token w.st.now ≡ ok vid
    → (serve_claim jwt secret token email w).0 ≡ ok (reply code e)
    → verify_magic_link jwt secret' token' (after_claim jwt secret token email rs w).st.now ≡ ok vid
    → req.voucher_id ≡ vid
    → ((serve_claim jwt secret' token' email' (after_claim jwt secret token email rs w)).0
        ≢ ok (reply code' e'))
      × ((delegate req (after_claim jwt secret token email rs w)).0 ≢ ok d)
claim_once jwt secret secret' token token' email email' e e' vid code code' req d rs w verified won
      verified' named =
    (
      λ again.
          Hoare-value _
            (serve_claim-Hoare vid (Claimed vid) (λ _. ⊥) (create_user-Of (IsClaimed vid))
              (claim_voucher-refused vid) jwt secret' token' email' later.st.now verified')
            later (reply code' e') (refl, kept) again,
      λ again. Hoare-value _ (delegate-refused req) later d (rw named closed) again,
    )
  where
    later : World
    later = after_claim jwt secret token email rs w

    kept : Claimed vid later.st
    kept =
        history-Of (IsClaimed vid) (given-Claimed vid) (claimed-Claimed vid) (inserted-Claimed vid)
          rs (serve_claim jwt secret token email w).1
          (Hoare-value _
            (serve_claim-Hoare vid (λ _. Unit {0}) (Claimed vid)
              (λ email. record { at = λ _ _. tt }) (claim_voucher-Claimed vid) jwt secret token
              email w.st.now verified)
            w (reply code e) (refl, tt) won)

    closed : Taken vid later.st
    closed = (kept.0, claimed_closed vid later.st.tables.ticket_vouchers kept.1)
