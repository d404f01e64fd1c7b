-- ===== src/Voucher/Keeps.antt =====
-- What the operations of internal/voucher/voucher.go do to `ticket_vouchers`.
use theme_park_nftengine.Prelude.{
  ℕ, zero, suc, ◌+◌, String, ◌≡◌, Bool, false, Option, none, some, List, [], ◌∷◌, ◌++◌, subst, sym,
  arith, Bool-cases, Option-cases, inl, inr, find_by, update_where,
}
use theme_park_nftengine.Models.{
  TicketVoucher, DelegateRequest, DelegationMode, account, dependent, unknown, Participant, claimed,
  ParticipantWalletState, RecordPendingMintRequest,
}
use theme_park_nftengine.Errors.{Error}
use theme_park_nftengine.World.{State, M, Backend, call, wrapping}
use theme_park_nftengine.World.Hoare.{
  Keeps, Keeps-call, Keeps-bind, Keeps-catch, Keeps-pure, Keeps-raise, Keeps-if,
}
use theme_park_nftengine.Postgres.Accounts.{
  insert_participant, create_participant, get_participant, get_participant_by_email,
  set_participant_wallet, update_wallet, has_row,
}
use theme_park_nftengine.Postgres.Mints.{
  names_voucher, new_voucher, insert_voucher, create_from, create_vouchers, is_claimable, is_open,
  update_vouchers, claim_voucher, given_to, delegate_voucher, require_affected, put_pending,
  upsert_pending_mint,
}
use theme_park_nftengine.Voucher.Service.{
  or_created, account_participant, dependent_of, dependent_participant, participant_of,
  participant_by, delegate, record_for, record_pending_mint, claim_by, claim_custody,
}

pub has_row-absent {ℓ} :
    {A : Type ℓ} (named : A → Bool) (rows : List A)
    → has_row named rows ≡ false
    → find_by named rows ≡ none
has_row-absent named rows h = elim (Option-cases (find_by named rows)) [
  | inl absent ↦ absent
  | inr (a, present) ↦ absurd (cc)
]

insert_participant_vouchers :
    (name : String) (email : Option String) (guardian : Option ℕ) (s : State)
    → (insert_participant name email guardian s).1.tables.ticket_vouchers ≡ s.tables.ticket_vouchers
unfolding insert_participant
insert_participant_vouchers name email guardian s = ground arith

module _ (Φ : List TicketVoucher → Type 0) where
  abbrev pub Of : State → Type 0
  Of s = Φ s.tables.ticket_vouchers

  wrapping-Of : {A : Type 0} (c : String) (m : M A) → Keeps Of m → Keeps Of (wrapping c m)
  wrapping-Of c m h = Keeps-catch m _ _ h (λ a. Keeps-pure a) (λ e. Keeps-raise _)

  create_participant-Of :
      (name : String) (email : Option String) (guardian : Option ℕ)
      → Keeps Of (create_participant name email guardian)
  unfolding create_participant
  create_participant-Of name email guardian = wrapping-Of _ _ (
      Keeps-call Backend.postgres _
        (λ s h. subst Φ (sym (insert_participant_vouchers name email guardian s)) h))

  get_participant-Of : (id : ℕ) → Keeps Of (get_participant id)
  unfolding get_participant
  get_participant-Of id = wrapping-Of _ _ (Keeps-call Backend.postgres _ (λ s h. h))

  get_participant_by_email-Of : (email : String) → Keeps Of (get_participant_by_email email)
  unfolding get_participant_by_email
  get_participant_by_email-Of email = wrapping-Of _ _ (Keeps-call Backend.postgres _ (λ s h. h))

  set_participant_wallet-Of :
      (id : ℕ) (state : ParticipantWalletState) (addr : String)
      → Keeps Of (set_participant_wallet id state addr)
  unfolding set_participant_wallet update_wallet
  set_participant_wallet-Of id state addr =
      wrapping-Of _ _ (Keeps-call Backend.postgres _ (λ s h. h))

  or_created-Of : (email : String) (o : Option Participant) → Keeps Of (or_created email o)
  or_created-Of email none = create_participant-Of _ _ _
  or_created-Of email (some p) = Keeps-pure p

  dependent_of-Of :
      (name : String) (g : ℕ) (o : Option Participant) → Keeps Of (dependent_of name g o)
  dependent_of-Of name g none = Keeps-raise _
  dependent_of-Of name g (some _) =
      Keeps-bind _ _ (create_participant-Of _ _ _)
        λ p. Keeps-bind _ _ (set_participant_wallet-Of _ _ _) (λ _. Keeps-pure _)

  participant_by-Of :
      (mode : DelegationMode) (req : DelegateRequest) → Keeps Of (participant_by mode req)
  unfolding account_participant dependent_participant
  participant_by-Of account req =
      Keeps-if _ _ _ (Keeps-raise _)
        (Keeps-bind _ _ (get_participant_by_email-Of _) (λ o. or_created-Of _ o))
  participant_by-Of dependent req =
      Keeps-if _ _ _ (Keeps-raise _)
        (Keeps-bind _ _ (get_participant-Of _) (λ o. dependent_of-Of _ _ o))
  participant_by-Of (unknown mode) req = Keeps-raise _

  pub participant_of-Of : (req : DelegateRequest) → Keeps Of (participant_of req)
  unfolding participant_of
  participant_of-Of req = participant_by-Of req.mode req

  require-Of : (e : Error) (b : Bool) → Keeps Of (require_affected e b)
  require-Of e b = Keeps-if b _ _ (Keeps-pure tt) (Keeps-raise e)

  -- The statements that write vouchers.
  module _
      (by_delegate : (vid : String) (p : ℕ) (vs : List TicketVoucher)
        → Φ vs
        → Φ (update_where (is_open vid) (given_to p) vs))
      (by_claim : (vid : String) (o : ℕ) (vs : List TicketVoucher)
        → Φ vs
        → Φ (
            update_where
              (is_claimable vid)
              (λ v. record v { owner_id = some o; status = claimed })
              vs))
      (by_insert : (vid : String) (purchaser : ℕ) (vs : List TicketVoucher)
        → find_by (names_voucher vid) vs ≡ none
        → Φ vs
        → Φ (vs ++ new_voucher vid purchaser ∷ [])) where
    pub delegate-Of : (req : DelegateRequest) → Keeps Of (delegate req)
    unfolding delegate delegate_voucher update_vouchers
    delegate-Of req = Keeps-bind _ _ (participant_of-Of req) λ p.
        Keeps-catch _ _ _
          (Keeps-bind _ _
            (wrapping-Of _ _ (
              Keeps-call Backend.postgres _
                (λ s h. by_delegate req.voucher_id p.id s.tables.ticket_vouchers h)))
            (λ b. require-Of _ b))
          (λ _. Keeps-pure _) (λ e. Keeps-raise _)

    pub claim_voucher-Of : (vid : String) (owner : ℕ) → Keeps Of (claim_voucher vid owner)
    unfolding claim_voucher update_vouchers
    claim_voucher-Of vid owner =
        Keeps-bind _ _
          (Keeps-call Backend.postgres _ (λ s h. by_claim vid owner s.tables.ticket_vouchers h))
          (λ b. require-Of _ b)

    insert_voucher-Of :
        (vid : String) (purchaser : ℕ)
        → Keeps Of (call Backend.postgres (insert_voucher vid purchaser))
    unfolding insert_voucher
    insert_voucher-Of vid purchaser = Keeps-call Backend.postgres _ λ s h.
        elim (Bool-cases (has_row (names_voucher vid) s.tables.ticket_vouchers)) [
          | inl present ↦ rw (present, insert_voucher) h
          | inr absent ↦
              rw (absent, insert_voucher)
                (by_insert vid purchaser s.tables.ticket_vouchers
                  (has_row-absent (names_voucher vid) s.tables.ticket_vouchers absent) h)
        ]

    pub create_from-Of : (purchaser i n : ℕ) → Keeps Of (create_from purchaser i n)
    unfolding create_from
    create_from-Of purchaser i zero = Keeps-pure _
    create_from-Of purchaser i (suc n) =
        Keeps-catch _ _ _ (insert_voucher-Of _ purchaser)
          (λ _. Keeps-bind _ _ (create_from-Of purchaser (i + 1) n) (λ r. Keeps-pure _))
          (λ e. Keeps-pure _)

    pub create_vouchers-Of : (purchaser n : ℕ) → Keeps Of (create_vouchers purchaser n)
    unfolding create_vouchers
    create_vouchers-Of purchaser n = create_from-Of purchaser 0 n

  record_for-Of :
      (req : RecordPendingMintRequest) (o : Option Participant) → Keeps Of (record_for req o)
  unfolding upsert_pending_mint put_pending
  record_for-Of req none = Keeps-raise _
  record_for-Of req (some p) = wrapping-Of _ _ (Keeps-call Backend.postgres _ (λ s h. h))

  pub record_pending_mint-Of : (req : RecordPendingMintRequest) → Keeps Of (record_pending_mint req)
  unfolding record_pending_mint
  record_pending_mint-Of req = Keeps-bind _ _ (get_participant-Of _) (λ o. record_for-Of req o)

  claim_by-Of :
      (id : ℕ) (wallet : String) (o : Option Participant) → Keeps Of (claim_by id wallet o)
  claim_by-Of id wallet none = Keeps-raise _
  claim_by-Of id wallet (some p) =
      Keeps-if _ _ _ (Keeps-bind _ _ (set_participant_wallet-Of _ _ _) (λ _. get_participant-Of id))
        (Keeps-raise _)

  pub claim_custody-Of : (id : ℕ) (wallet : String) → Keeps Of (claim_custody id wallet)
  unfolding claim_custody
  claim_custody-Of id wallet = Keeps-bind _ _ (get_participant-Of id) (λ o. claim_by-Of id wallet o)
