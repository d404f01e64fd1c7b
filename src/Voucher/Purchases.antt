-- ===== src/Voucher/Purchases.antt =====
-- Purchases of one purchaser: internal/postgres/repository.go over the requests of cmd/voucher/main.go.
use theme_park_nftengine.Prelude.{
  ℕ, suc, String, ◌≡◌, refl, Option, none, some, List, [], ◌∷◌, ◌++◌, arith, eq_refl, find_by,
  update_where, find_by-update_other, find_by-append, find_by-append_found, Bool-cases, inl, inr,
}
use theme_park_nftengine.Models.{TicketVoucher, claimed}
use theme_park_nftengine.Errors.{Error, driver}
use theme_park_nftengine.World.{State, World, Backend, ok, err}
use theme_park_nftengine.World.Hoare.{
  Hoare, Hoare-bind, Hoare-call, Hoare-catch, Hoare-pure, Hoare-value, Hoare-answered, of_Keeps,
  Hoare-consequence, Post,
}
use theme_park_nftengine.Postgres.Accounts.{has_row}
use theme_park_nftengine.Postgres.Mints.{
  names_voucher, new_voucher, voucher_name, insert_voucher, create_from, create_vouchers,
  is_claimable, is_open, given_to,
}
use theme_park_nftengine.Voucher.Keeps.{Of, has_row-absent, create_from-Of}
use theme_park_nftengine.Voucher.History.{ServiceRequest, history, history-Of}

abbrev IsPresent : String → List TicketVoucher → Type 0
IsPresent vid vs = (v : TicketVoucher) × (find_by (names_voucher vid) vs ≡ some v)

given-Present :
    (vid other : String) (p : ℕ) (vs : List TicketVoucher)
    → IsPresent vid vs
    → IsPresent vid (update_where (is_open other) (given_to p) vs)
given-Present vid other p vs (v, found) =
    find_by-update_other (names_voucher vid) (is_open other) (given_to p) vs v (λ _. refl) found

claimed-Present :
    (vid other : String) (o : ℕ) (vs : List TicketVoucher)
    → IsPresent vid vs
    → IsPresent vid (
        update_where
          (is_claimable other)
          (λ v. record v { owner_id = some o; status = claimed })
          vs)
claimed-Present vid other o vs (v, found) =
    find_by-update_other (names_voucher vid) (is_claimable other) _ vs v (λ _. refl) found

inserted-Present :
    (vid other : String) (purchaser : ℕ) (vs : List TicketVoucher)
    → find_by (names_voucher other) vs ≡ none
    → IsPresent vid vs
    → IsPresent vid (vs ++ new_voucher other purchaser ∷ [])
inserted-Present vid other purchaser vs absent (v, found) =
    (v, find_by-append_found (names_voucher vid) vs (new_voucher other purchaser ∷ []) v found)

abbrev Present : String → State → Type 0
Present vid = Of (IsPresent vid)

insert-Present :
    (vid : String) (purchaser : ℕ) (s : State)
    → Post
        (λ _. Present vid)
        (λ _ _. Unit {0})
        (insert_voucher vid purchaser s).0
        (insert_voucher vid purchaser s).1
unfolding insert_voucher
insert-Present vid purchaser s =
    elim (Bool-cases (has_row (names_voucher vid) s.tables.ticket_vouchers)) [
      | inl present ↦ rw (present, insert_voucher) tt
      | inr absent ↦
          rw (absent, insert_voucher)
            (
              new_voucher vid purchaser,
              find_by-append (names_voucher vid) s.tables.ticket_vouchers
                  (new_voucher vid purchaser)
                  (has_row-absent (names_voucher vid) s.tables.ticket_vouchers absent)
                  (eq_refl vid),
            )
    ]

-- A voucher that is there is not inserted again.
insert_taken :
    (vid : String) (purchaser : ℕ) (s : State) (v : TicketVoucher)
    → find_by (names_voucher vid) s.tables.ticket_vouchers ≡ some v
    → insert_voucher vid purchaser s
      ≡ (err (driver "duplicate key value violates unique constraint"), s)
unfolding insert_voucher
insert_taken vid purchaser s v found = ground arith

-- The row stands where the loop ended without an error.
abbrev IfDone : String → List String × Option Error → State → Type 0
IfDone vid (ids, none) s = Present vid s
IfDone vid (ids, some e) s = Unit

done_of :
    (vid : String) (r : List String × Option Error) (s : State) → Present vid s → IfDone vid r s
done_of vid (ids, none) s h = h
done_of vid (ids, some e) s h = tt

create-Present :
    (purchaser n : ℕ)
    → Hoare
        (λ _. Unit {0})
        (create_vouchers purchaser (suc n))
        (IfDone (voucher_name purchaser 0))
        (λ _ _. Unit {0})
unfolding create_vouchers create_from
create-Present purchaser n =
    Hoare-catch {F = λ _ _. Unit {0}} _ _ _
      (Hoare-call Backend.postgres _ (λ s _. insert-Present _ purchaser s) (λ _ _ _. tt)
        (λ _ _ _. tt))
      (λ _.
        Hoare-bind _ _
          (Hoare-consequence {E' = λ _ _. Unit {0}} _
            (of_Keeps _ (
              create_from-Of (IsPresent (voucher_name purchaser 0))
                (given-Present (voucher_name purchaser 0))
                (claimed-Present (voucher_name purchaser 0))
                (inserted-Present (voucher_name purchaser 0)) purchaser 1 n))
            (λ _ s h. h) (λ _ _ _. tt))
          (λ rest. Hoare-pure _ (λ s h.
            done_of (voucher_name purchaser 0) (voucher_name purchaser 0 ∷ rest.0, rest.1) s h)))
      (λ e. Hoare-pure _ (λ _ _. tt))

module _ (purchaser : ℕ) (vs : List TicketVoucher) where
  abbrev Stuck : State → Type 0
  Stuck s = (s.tables.ticket_vouchers ≡ vs) × IsPresent (voucher_name purchaser 0) vs

  -- No id, an error, and no change of the vouchers.
  abbrev pub Nothing : List String × Option Error → State → Type 0
  Nothing r s = (r.0 ≡ []) × ((e : Error) × (r.1 ≡ some e)) × (s.tables.ticket_vouchers ≡ vs)

  create-Stuck : (m : ℕ) → Hoare Stuck (create_vouchers purchaser (suc m)) Nothing (λ _ _. ⊥)
  unfolding create_vouchers create_from
  create-Stuck m =
      Hoare-catch {R = λ _ _. ⊥} {F = λ _. Stuck} _ _ _
        (Hoare-call Backend.postgres _ (λ s h. rw (taken s h) h) (λ s _ h. h)
          (λ s _ h. rw (taken s h) h))
        (λ _. record { run = λ w no. absurd no })
        (λ e. Hoare-pure _ (λ s h. (refl, (_, refl), h.0)))
    where
      taken :
          (s : State)
          → Stuck s
          → insert_voucher (voucher_name purchaser 0) purchaser s
            ≡ (err (driver "duplicate key value violates unique constraint"), s)
      taken s (same, (v, found)) =
          insert_taken (voucher_name purchaser 0) purchaser s v (rw same found)

-- A purchase, and the requests after it.
abbrev pub after_purchase : ℕ → ℕ → List ServiceRequest → World → World
after_purchase purchaser n rs w = history rs (create_vouchers purchaser (suc n) w).1

-- A purchaser buys once. After a purchase of one voucher or more that succeeded, and any history of requests
-- under any faults, every later purchase of that purchaser, of one voucher or more, ends with an error,
-- makes no voucher, and leaves the vouchers as they were.
pub repurchase_fails :
    (purchaser n m : ℕ) (ids : List String) (rs : List ServiceRequest) (w : World)
    → (create_vouchers purchaser (suc n) w).0 ≡ ok (ids, none)
    → let later = after_purchase purchaser n rs w in
      (r : List String × Option Error) × ((create_vouchers purchaser (suc m) later).0 ≡ ok r)
      × Nothing purchaser later.st.tables.ticket_vouchers r
          (create_vouchers purchaser (suc m) later).1.st
repurchase_fails purchaser n m ids rs w done =
    Hoare-answered _ (create-Stuck purchaser later.st.tables.ticket_vouchers m) later (
      refl,
      history-Of (IsPresent vid) (given-Present vid) (claimed-Present vid) (inserted-Present vid) rs
          (create_vouchers purchaser (suc n) w).1
          (Hoare-value _ (create-Present purchaser n) w (ids, none) tt done),
    )
  where
    later : World
    later = after_purchase purchaser n rs w

    vid : String
    vid = voucher_name purchaser 0
