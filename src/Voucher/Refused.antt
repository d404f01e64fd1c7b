-- ===== src/Voucher/Refused.antt =====
-- What a refused delegation leaves behind: internal/voucher/voucher.go.
use theme_park_nftengine.Prelude.{
  String, ap, ◌∙◌, update_where, ℕ, ◌+◌, ◌==◌, ◌≡◌, refl, false, some, none, [], ◌∷◌, ◌++◌, arith,
  find_by, length, length-append, length-update_where,
}
use theme_park_nftengine.Models.{DelegateRequest, dependent, custodial_proxy, Participant}
use theme_park_nftengine.Errors.{voucher_error, voucher_allocated, is_already_allocated}
use theme_park_nftengine.World.{State, calm, ok, err, ◌>>=◌, catch, call}
use theme_park_nftengine.Postgres.Accounts.{
  has_id, get_participant, create_participant, insert_participant, set_participant_wallet,
  update_wallet, with_wallet, new_participant, with_participants, has_row,
}
use theme_park_nftengine.Postgres.Mints.{is_open, delegate_voucher, update_vouchers}
use theme_park_nftengine.Voucher.Service.{
  allocated, delegate, participant_of, dependent_participant, delegate_error, custodial_wallet_for,
}

dependent_inserted :
    (name : String) (guardian : ℕ) (s : State) (g : Participant)
    → find_by (has_id guardian) s.tables.participants ≡ some g
    → insert_participant name none (some guardian) s ≡ (
      ok (new_participant s.tables.next_participant name none (some guardian)),
      with_participants s (s.tables.next_participant + 1) (
          s.tables.participants
          ++ new_participant s.tables.next_participant name none (some guardian) ∷ []),
    )
unfolding insert_participant
dependent_inserted name guardian s g found = ground arith

-- An allocation of a voucher that is not open changes no participant.
allocated_closed :
    (req : DelegateRequest) (p : Participant) (s : State)
    → find_by (is_open req.voucher_id) s.tables.ticket_vouchers ≡ none
    → ((allocated req p (calm s)).0 ≡ err (voucher_error voucher_allocated))
      × ((allocated req p (calm s)).1.st.tables.participants ≡ s.tables.participants)
unfolding delegate_voucher update_vouchers catch call ◌>>=◌ delegate_error is_already_allocated
allocated_closed req p s closed =
    rw (closed, allocated, delegate_voucher, update_vouchers, has_row) (refl, refl)

-- A delegation to a dependent of a voucher that is not open is refused as allocated, but leaves one more
-- participant behind, where its guardian exists and no call fails.
pub refused_leaves_participant :
    (req : DelegateRequest) (s : State) (g : Participant)
    → req.mode ≡ dependent
    → (req.guardian_id == 0) ≡ false
    → find_by (has_id req.guardian_id) s.tables.participants ≡ some g
    → find_by (is_open req.voucher_id) s.tables.ticket_vouchers ≡ none
    → ((delegate req (calm s)).0 ≡ err (voucher_error voucher_allocated))
      × (length (delegate req (calm s)).1.st.tables.participants ≡ length s.tables.participants + 1)
unfolding delegate ◌>>=◌ participant_of dependent_participant get_participant catch call
    create_participant set_participant_wallet update_wallet delegate_voucher update_vouchers
    delegate_error is_already_allocated
refused_leaves_participant req s g mode positive found closed =
    rw (mode, positive, found, dependent_inserted req.name req.guardian_id s g found)
      (let (refused, same) = allocated_closed (record req { mode = dependent }) child left closed in
        (refused, ap length same ∙ rw (length-update_where, length-append) (omega arith)))
  where
    row : Participant
    row = new_participant s.tables.next_participant req.name none (some req.guardian_id)

    child : Participant
    child = with_wallet custodial_proxy (custodial_wallet_for s.tables.next_participant) row

    left : State
    left = with_participants s (s.tables.next_participant + 1) (
        update_where (has_id s.tables.next_participant)
          (with_wallet custodial_proxy (custodial_wallet_for s.tables.next_participant))
          (s.tables.participants ++ row ∷ []))
