-- ===== src/Voucher/History.antt =====
-- cmd/voucher/main.go: the voucher service as it runs, a history of requests. A request that fails
-- leaves behind what it had written.
use theme_park_nftengine.Prelude.{
  ℕ, String, ◌≡◌, none, some, List, [], ◌∷◌, ◌++◌, find_by, update_where,
}
use theme_park_nftengine.Models.{TicketVoucher, DelegateRequest, RecordPendingMintRequest, claimed}
use theme_park_nftengine.World.{World}
use theme_park_nftengine.Postgres.Mints.{
  names_voucher, new_voucher, create_vouchers, is_claimable, is_open, claim_voucher, given_to,
}
use theme_park_nftengine.Voucher.Service.{delegate, record_pending_mint, claim_custody}
use theme_park_nftengine.Voucher.Keeps.{
  Of, delegate-Of, claim_voucher-Of, create_vouchers-Of, record_pending_mint-Of, claim_custody-Of,
}

pub data ServiceRequest : Type 0 where
  delegates : DelegateRequest → ServiceRequest
  records : RecordPendingMintRequest → ServiceRequest
  claims_custody : ℕ → String → ServiceRequest
  -- A purchaser and a quantity.
  purchases : ℕ → ℕ → ServiceRequest
  -- A voucher and its new owner.
  claims : String → ℕ → ServiceRequest

unfoldable pub step : ServiceRequest → World → World
step (delegates req) w = (delegate req w).1
step (records req) w = (record_pending_mint req w).1
step (claims_custody id wallet) w = (claim_custody id wallet w).1
step (purchases purchaser quantity) w = (create_vouchers purchaser quantity w).1
step (claims vid owner) w = (claim_voucher vid owner w).1

unfoldable pub history : List ServiceRequest → World → World
history [] w = w
history (r ∷ rs) w = history rs (step r w)

-- A property of the vouchers that each statement on them keeps holds after any history.
module _ (Φ : List TicketVoucher → Type 0)
    (by_delegate : (vid : String) (p : ℕ) (vs : List TicketVoucher)
      → Φ vs
      → Φ (update_where (is_open vid) (given_to p) vs))
    (by_claim : (vid : String) (o : ℕ) (vs : List TicketVoucher)
      → Φ vs
      → Φ (
          update_where
            (is_claimable vid)
            (λ v. record v { owner_id = some o; status = claimed })
            vs))
    (by_insert : (vid : String) (purchaser : ℕ) (vs : List TicketVoucher)
      → find_by (names_voucher vid) vs ≡ none
      → Φ vs
      → Φ (vs ++ new_voucher vid purchaser ∷ [])) where
  step-Of : (r : ServiceRequest) (w : World) → Of Φ w.st → Of Φ (step r w).st
  unfolding step
  step-Of (delegates req) w h = (delegate-Of Φ by_delegate by_claim by_insert req).at w h
  step-Of (records req) w h = (record_pending_mint-Of Φ req).at w h
  step-Of (claims_custody id wallet) w h = (claim_custody-Of Φ id wallet).at w h
  step-Of (purchases purchaser n) w h =
      (create_vouchers-Of Φ by_delegate by_claim by_insert purchaser n).at w h
  step-Of (claims v owner) w h = (claim_voucher-Of Φ by_delegate by_claim by_insert v owner).at w h

  pub history-Of : (rs : List ServiceRequest) (w : World) → Of Φ w.st → Of Φ (history rs w).st
  unfolding history
  history-Of [] w h = h
  history-Of (r ∷ rs) w h = history-Of rs (step r w) (step-Of r w h)
