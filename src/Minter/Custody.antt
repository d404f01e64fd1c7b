-- ===== src/Minter/Custody.antt =====
-- The transfers of custody of cmd/minter/main.go, with internal/voucher/voucher.go.
use mathlib.Core.Option
use theme_park_nftengine.Prelude.{
  ℕ, suc, String, ◌≡◌, refl, sym, ap, ◌∙◌, Bool, Option, none, some, List, [], ◌∷◌, length, take,
  ◌||◌, find_by, find_by-update_where, str_eq, ◌⊎◌, inl, inr,
}
use theme_park_nftengine.Models.{Participant, own_non_custodial}
use theme_park_nftengine.World.{State, World, Tables, Transfer, Backend, ok}
use theme_park_nftengine.World.Hoare.{
  Hoare, Hoare-bind, Hoare-call, Hoare-catch, Hoare-pure, Hoare-raise, Hoare-if, Hoare-wrapping,
  Hoare-consequence, Hoare-weaken, Hoare-answered, Hoare-fact,
}
use theme_park_nftengine.Http.{HttpRequest, HttpResponse, reply, failure}
use theme_park_nftengine.Postgres.Accounts.{
  has_id, with_wallet, get_participant, update_wallet, set_participant_wallet,
}
use theme_park_nftengine.Voucher.Service.{claim_by, claim_custody, is_custodial}
use theme_park_nftengine.Minter.Routes.{
  CustodyRequest, CustodyTransfer, is_complete, transferred, update_custody, take_transfer,
  transfer, transfer_all, move_custody, serve_custody, post_to_sui,
}

-- The transfers of some objects to a wallet, one after the other.
abbrev pub moved : String → List String → List Transfer → List Transfer
moved wallet [] ts = ts
moved wallet (o ∷ os) ts = moved wallet os (record { object = o; recipient = wallet } ∷ ts)

-- The row of a participant who has taken over the custody.
abbrev pub HasOwnWallet : ℕ → String → State → Participant → Type 0
HasOwnWallet id wallet s p =
    (find_by (has_id id) s.tables.participants ≡ some p)
    × (p.wallet_state ≡ own_non_custodial)
    × (p.custodial_wallet_address ≡ some wallet)

-- The chain stands so; the statements of Postgres leave it.
abbrev Stands : List Transfer → State → Type 0
Stands ts s = s.transfers ≡ ts

abbrev Given : ℕ → String → Option Participant → State → Type 0
Given id wallet o s = (p : Participant) × (o ≡ some p) × HasOwnWallet id wallet s p

module _ (id : ℕ) (wallet : String) (ts : List Transfer) where
  found-Given :
      Hoare
        (λ s. Stands ts s × ((p : Participant) × HasOwnWallet id wallet s p))
        (get_participant id)
        (λ o s. Stands ts s × Given id wallet o s)
        (λ _. Stands ts)
  unfolding get_participant
  found-Given = Hoare-wrapping {E = Stands ts} _ _ (
      Hoare-call Backend.postgres _ (λ s (h, (p, own)). (h, (p, own.0, own))) (λ s _ h. h.0)
        (λ s _ h. h.0))

  set-HasOwnWallet :
      (p : Participant)
      → Hoare
          (λ s. Stands ts s × (some p ≡ find_by (has_id id) s.tables.participants))
          (set_participant_wallet id own_non_custodial wallet)
          (λ _ s. Stands ts s × ((q : Participant) × HasOwnWallet id wallet s q))
          (λ _. Stands ts)
  unfolding set_participant_wallet update_wallet
  set-HasOwnWallet p = Hoare-wrapping {E = Stands ts} _ _ (
      Hoare-call Backend.postgres _
        (λ s (h, found). (
          h,
          (
            with_wallet own_non_custodial wallet p,
            (
              find_by-update_where (has_id id) (with_wallet own_non_custodial wallet)
                    s.tables.participants (λ _. refl)
                  ∙ ap (Option.map (with_wallet own_non_custodial wallet)) (sym found),
              refl,
              refl,
            ),
          ),
        ))
        (λ s _ h. h.0) (λ s _ h. h.0))

  claim_by-Given :
      (o : Option Participant)
      → Hoare
          (λ s. Stands ts s × (o ≡ find_by (has_id id) s.tables.participants))
          (claim_by id wallet o)
          (λ o s. Stands ts s × Given id wallet o s)
          (λ _. Stands ts)
  claim_by-Given none = Hoare-raise _ (λ s h. h.0)
  claim_by-Given (some p) =
      Hoare-if (is_custodial p.wallet_state) _ _
        (λ _. Hoare-bind _ _ (set-HasOwnWallet p) (λ _. found-Given))
        (λ _. Hoare-raise _ (λ s h. h.0))

  claim_custody-Given :
      Hoare
        (Stands ts)
        (claim_custody id wallet)
        (λ o s. Stands ts s × Given id wallet o s)
        (λ _. Stands ts)
  unfolding claim_custody get_participant
  claim_custody-Given =
      Hoare-bind _ _
        (Hoare-wrapping {E = Stands ts} _ _
          (Hoare-call Backend.postgres _ (λ s h. (h, refl)) (λ s _ h. h) (λ s _ h. h)))
        claim_by-Given

module _ (wallet : String) (tables : Tables) where
  -- The first of the objects were moved, and no row has changed.
  abbrev pub PartMoved : List String → List Transfer → State → Type 0
  PartMoved os ts s = (n : ℕ) × (s.transfers ≡ moved wallet (take n os) ts) × (s.tables ≡ tables)

  abbrev Begun : List Transfer → State → Type 0
  Begun ts s = (s.transfers ≡ ts) × (s.tables ≡ tables)

  abbrev AllMoved : List String → List Transfer → List String → State → Type 0
  AllMoved os ts digests s = (length digests ≡ length os) × Begun (moved wallet os ts) s

  transfer_all-Moved :
      (digest_of : List Transfer → Transfer → String) (os : List String) (ts : List Transfer)
      → Hoare (Begun ts) (transfer_all digest_of wallet os) (AllMoved os ts) (λ _. PartMoved os ts)
  unfolding transfer_all transfer take_transfer take
  transfer_all-Moved digest_of [] ts = Hoare-pure _ (λ s h. (refl, h))
  transfer_all-Moved digest_of (o ∷ os) ts =
      let t : Transfer = record { object = o; recipient = wallet } in
      Hoare-catch {R = λ _. Begun (t ∷ ts)} {F = λ _. PartMoved (o ∷ os) ts} _ _ _
        (Hoare-if (str_eq o "" || str_eq wallet "") _ _
          (λ _. Hoare-raise _ (λ s (h, same). (0, h, same)))
          (λ _.
            Hoare-call Backend.sui _ (λ s (h, same). (ap (λ l. t ∷ l) h, same))
              (λ s _ (h, same). (0, h, same)) (λ s _ (h, same). (1, ap (λ l. t ∷ l) h, same))))
        (λ d.
          Hoare-bind _ _
            (Hoare-consequence _ (transfer_all-Moved digest_of os (t ∷ ts)) (λ ds s h. h)
              (λ e s (n, h, same). (suc n, h, same)))
            (λ ds. Hoare-pure _ (λ s (same, h). (ap suc same, h))))
        (λ e. Hoare-raise _ (λ s h. h))

-- A request with a body that decodes.
abbrev pub posted : String → CustodyRequest → HttpRequest CustodyRequest
posted method req = record { method = method; body = some req }

-- What an answer to a request says of the chain and the tables, from a chain and tables before it.
abbrev pub Told :
    CustodyRequest → List Transfer → Tables → HttpResponse CustodyTransfer → State → Type 0
Told req ts tables (reply _ t) s =
    (s.transfers ≡ moved req.own_wallet req.nft_object_ids ts)
    × (length t.tx_digests ≡ length req.nft_object_ids)
    × ((p : Participant) × HasOwnWallet req.participant_id req.own_wallet s p)
Told req ts tables (failure _ _) s =
    PartMoved req.own_wallet tables req.nft_object_ids ts s
    ⊎ (s.transfers ≡ moved req.own_wallet req.nft_object_ids ts)

module _ (digest_of : List Transfer → Transfer → String) (req : CustodyRequest) (ts : List Transfer)
    (tables : Tables) where
  transferred-Told :
      (digests : List String) (o : Option Participant)
      → length digests ≡ length req.nft_object_ids
      → Hoare
          (λ s.
            Stands (moved req.own_wallet req.nft_object_ids ts) s
            × Given req.participant_id req.own_wallet o s)
          (transferred digests o)
          (Told req ts tables)
          (λ _ _. ⊥)
  transferred-Told digests none same = Hoare-raise _ (λ s (h, (p, e, own)). absurd (cc e))
  transferred-Told digests (some p) same = Hoare-pure _ (λ s (h, (q, e, own)). (h, same, (q, own)))

  update_custody-Told :
      (digests : List String)
      → Hoare
          (AllMoved req.own_wallet tables req.nft_object_ids ts digests)
          (update_custody req digests)
          (Told req ts tables)
          (λ _ _. ⊥)
  update_custody-Told digests =
      Hoare-weaken _
        (Hoare-fact _ λ same.
          Hoare-catch _ _ _ (claim_custody-Given req.participant_id req.own_wallet _)
            (λ o. transferred-Told digests o same) (λ e. Hoare-pure _ (λ s h. inr h)))
        (λ s (same, h). (same, h.0))

  move_custody-Told :
      Hoare
        (Begun req.own_wallet tables ts)
        (move_custody digest_of req)
        (Told req ts tables)
        (λ _ _. ⊥)
  unfolding take
  move_custody-Told =
      Hoare-if (is_complete req) _ _
        (λ _.
          Hoare-catch _ _ _
            (transfer_all-Moved req.own_wallet tables digest_of req.nft_object_ids ts)
            update_custody-Told (λ e. Hoare-pure _ (λ s h. inl h)))
        (λ _. Hoare-pure _ (λ s h. inl (0, h.0, h.1)))

  serve_custody-Told :
      (has_sui : Bool) (method : String)
      → Hoare
          (Begun req.own_wallet tables ts)
          (serve_custody digest_of has_sui (record { method = method; body = some req }))
          (Told req ts tables)
          (λ _ _. ⊥)
  unfolding serve_custody post_to_sui take
  serve_custody-Told has_sui method =
      Hoare-if (str_eq method "POST") _ _
        (λ _.
          Hoare-if has_sui _ _ (λ _. move_custody-Told)
            (λ _. Hoare-pure _ (λ s h. inl (0, h.0, h.1))))
        (λ _. Hoare-pure _ (λ s h. inl (0, h.0, h.1)))

-- The route of the transfers of custody always answers a request with a body, whatever calls fail before
-- or after their effect. An answer of 200 has moved every object of the request to the wallet, in order,
-- with one digest for each, and has left the participant with the wallet as its own. Another answer has
-- moved a first part of the objects while no row has changed, or has moved all of them.
pub custody_moves :
    (digest_of : List Transfer → Transfer → String) (has_sui : Bool) (method : String)
    (req : CustodyRequest) (w : World)
    → (answer : HttpResponse CustodyTransfer) × ((serve_custody digest_of has_sui
          (posted method req)
          w).0
        ≡ ok answer)
      × Told req w.st.transfers w.st.tables answer
          (serve_custody digest_of has_sui (posted method req) w).1.st
custody_moves digest_of has_sui method req w =
    Hoare-answered _ (serve_custody-Told digest_of req w.st.transfers w.st.tables has_sui method) w
      (refl, refl)
