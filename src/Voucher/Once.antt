-- ===== src/Voucher/Once.antt =====
-- The allocation of vouchers: internal/voucher/voucher.go, over the requests of cmd/voucher/main.go.
use theme_park_nftengine.Prelude.{
  ℕ, String, ◌≡◌, ◌≢◌, refl, Bool, true, false, none, some, List, [], ◌∷◌, ◌++◌, ◌==◌, ◌&&◌, str_eq,
  arith, Bool-cases, Option-cases, inl, inr, find_by, update_where, eq_iff, subst, sym,
  find_by-update_other, find_by-update_none, find_by-update_all, find_by-update_made,
  find_by-append_other,
}
use theme_park_nftengine.Models.{TicketVoucher, DelegateRequest, DelegateResponse, claimed}
use theme_park_nftengine.World.{State, World, Backend, ok}
use theme_park_nftengine.World.Hoare.{
  Hoare, Hoare-bind, Hoare-call, Hoare-catch, Hoare-pure, Hoare-raise, Hoare-if, Hoare-wrapping,
  Hoare-value, Hoare-any, keeping,
}
use theme_park_nftengine.Postgres.Accounts.{has_row}
use theme_park_nftengine.Postgres.Mints.{
  names_voucher, new_voucher, is_claimable, is_open, update_vouchers, given_to, delegate_voucher,
}
use theme_park_nftengine.Voucher.Service.{delegate}
use theme_park_nftengine.Voucher.History.{ServiceRequest, history, history-Of}
use theme_park_nftengine.Voucher.Keeps.{Of, participant_of-Of}

-- The voucher is there, and not open to a delegation.
abbrev pub IsTaken : String → List TicketVoucher → Type 0
IsTaken vid vs =
    ((v : TicketVoucher) × (find_by (names_voucher vid) vs ≡ some v))
    × (find_by (is_open vid) vs ≡ none)

-- A row of the voucher names the participant.
abbrev pub is_given : String → ℕ → TicketVoucher → Bool
is_given vid p v = names_voucher vid v && elim v.participant_id [ none ↦ false | some q ↦ q == p ]

abbrev pub IsGiven : String → ℕ → List TicketVoucher → Type 0
IsGiven vid p vs = (v : TicketVoucher) × (find_by (is_given vid p) vs ≡ some v)

given-Taken :
    (vid other : String) (p : ℕ) (vs : List TicketVoucher)
    → IsTaken vid vs
    → IsTaken vid (update_where (is_open other) (given_to p) vs)
given-Taken vid other p vs ((v, found), closed) = (
  find_by-update_other (names_voucher vid) (is_open other) (given_to p) vs v (λ _. refl) found,
  find_by-update_none (is_open vid) (is_open other) (given_to p) vs (λ x h. ground arith) closed,
)

claimed-Taken :
    (vid other : String) (o : ℕ) (vs : List TicketVoucher)
    → IsTaken vid vs
    → IsTaken vid (
        update_where
          (is_claimable other)
          (λ v. record v { owner_id = some o; status = claimed })
          vs)
claimed-Taken vid other o vs ((v, found), closed) = (
  find_by-update_other (names_voucher vid) (is_claimable other) _ vs v (λ _. refl) found,
  find_by-update_none (is_open vid) (is_claimable other) _ vs (λ x h. ground arith) closed,
)

inserted-Taken :
    (vid other : String) (purchaser : ℕ) (vs : List TicketVoucher)
    → find_by (names_voucher other) vs ≡ none
    → IsTaken vid vs
    → IsTaken vid (vs ++ new_voucher other purchaser ∷ [])
inserted-Taken vid other purchaser vs absent ((v, found), closed) =
    elim (Bool-cases (str_eq other vid)) [
      | inl same ↦ absurd (ground (arith, eq_iff other vid))
      | inr differ ↦ (
        (
          v,
          rw (find_by-append_other (names_voucher vid) vs (new_voucher other purchaser) differ)
              found,
        ),
        rw (find_by-append_other (is_open vid) vs (new_voucher other purchaser) (ground arith))
            closed,
      )
    ]

abbrev pub Taken : String → State → Type 0
Taken vid = Of (IsTaken vid)

pub history-Taken :
    (vid : String) (rs : List ServiceRequest) (w : World)
    → Taken vid w.st
    → Taken vid (history rs w).st
history-Taken vid =
    history-Of (IsTaken vid) (given-Taken vid) (claimed-Taken vid) (inserted-Taken vid)

abbrev Delegated : String → ℕ → State → Type 0
Delegated vid p s = Taken vid s × Of (IsGiven vid p) s

update-Delegated :
    (vid : String) (p : ℕ) (vs : List TicketVoucher)
    → has_row (is_open vid) vs ≡ true
    → IsTaken vid (update_where (is_open vid) (given_to p) vs)
      × IsGiven vid p (update_where (is_open vid) (given_to p) vs)
update-Delegated vid p vs h = elim (Option-cases (find_by (is_open vid) vs)) [
  | inl absent ↦ absurd (cc)
  | inr (v, present) ↦ (
    (
      find_by-update_made (names_voucher vid) (is_open vid) (given_to p) vs v (λ x q. ground arith)
          present,
      find_by-update_all (is_open vid) (given_to p) vs (λ x. ground arith),
    ),
    find_by-update_made (is_given vid p) (is_open vid) (given_to p) vs v (λ x q. ground arith)
        present,
  )
]

delegate_voucher-Delegated :
    (vid : String) (p : ℕ)
    → Hoare (λ _. Unit {0}) (delegate_voucher vid p) (λ _. Delegated vid p) (λ _ _. Unit {0})
unfolding delegate_voucher update_vouchers
delegate_voucher-Delegated vid p =
    Hoare-bind {R = λ b s. b ≡ true → Delegated vid p s} _ _
      (Hoare-wrapping {E = λ _. Unit {0}} _ _ (
        Hoare-call Backend.postgres _ (λ s _ b. update-Delegated vid p s.tables.ticket_vouchers b)
          (λ _ _ _. tt) (λ _ _ _. tt)))
      (λ b. Hoare-if b _ _ (λ q. Hoare-pure tt (λ s h. h q)) (λ _. Hoare-raise _ (λ _ _. tt)))

delegate-Delegated :
    (req : DelegateRequest)
    → Hoare
        (λ _. Unit {0})
        (delegate req)
        (λ r. Delegated req.voucher_id r.participant_id)
        (λ _ _. Unit {0})
unfolding delegate
delegate-Delegated req = Hoare-bind {R = λ _ _. Unit {0}} _ _ (Hoare-any _) λ p.
    Hoare-catch _ _ _ (delegate_voucher-Delegated req.voucher_id p.id)
      (λ _. Hoare-pure _ (λ s h. h)) (λ e. Hoare-raise _ (λ _ _. tt))

pub no_row {ℓ} :
    {A : Type ℓ} (named : A → Bool) (rows : List A)
    → find_by named rows ≡ none
    → has_row named rows ≡ false
no_row named rows h = ground arith

delegate_voucher-refused :
    (vid : String) (p : ℕ) → Hoare (Taken vid) (delegate_voucher vid p) (λ _ _. ⊥) (λ _ _. Unit {0})
unfolding delegate_voucher update_vouchers
delegate_voucher-refused vid p =
    Hoare-bind {R = λ b _. b ≡ false} _ _
      (Hoare-wrapping {E = λ _. Unit {0}} _ _ (
        Hoare-call Backend.postgres _ (λ s h. no_row (is_open vid) s.tables.ticket_vouchers h.1)
          (λ _ _ _. tt) (λ _ _ _. tt)))
      (λ b. Hoare-if b _ _ (λ q. Hoare-pure tt (λ s h. cc)) (λ _. Hoare-raise _ (λ _ _. tt)))

pub delegate-refused :
    (req : DelegateRequest)
    → Hoare (Taken req.voucher_id) (delegate req) (λ _ _. ⊥) (λ _ _. Unit {0})
unfolding delegate
delegate-refused req =
    Hoare-bind {R = λ _. Taken req.voucher_id} _ _
      (keeping _ (participant_of-Of (IsTaken req.voucher_id) req))
      λ p.
        Hoare-catch _ _ _ (delegate_voucher-refused req.voucher_id p.id)
          (λ _. Hoare-pure _ (λ s h. absurd h)) (λ e. Hoare-raise _ (λ _ _. tt))

-- A delegation that returns has given the voucher to the participant of its response, whatever
-- repository calls fail: a row of the voucher names that participant.
pub delegate_gives :
    (req : DelegateRequest) (r : DelegateResponse) (w : World)
    → (delegate req w).0 ≡ ok r
    → IsGiven req.voucher_id r.participant_id (delegate req w).1.st.tables.ticket_vouchers
delegate_gives req r w done = (Hoare-value _ (delegate-Delegated req) w r tt done).1

-- A voucher is delegated at most once: after a delegation that succeeded, and any history of requests
-- after it under any faults, no delegation of the same voucher succeeds.
pub delegate_once :
    (req req' : DelegateRequest) (r r' : DelegateResponse) (rs : List ServiceRequest) (w : World)
    → (delegate req w).0 ≡ ok r
    → req'.voucher_id ≡ req.voucher_id
    → (delegate req' (history rs (delegate req w).1)).0 ≢ ok r'
delegate_once req req' r r' rs w done same again =
    Hoare-value _ (delegate-refused req') (history rs (delegate req w).1) r'
      (subst (λ v. Taken v (history rs (delegate req w).1).st) (sym same)
        (history-Taken req.voucher_id rs (delegate req w).1
          (Hoare-value _ (delegate-Delegated req) w r tt done).0))
      again
