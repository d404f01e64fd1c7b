-- ===== src/Voucher/Wallet.antt =====
-- The wallet of a mint: `ResolveMintWallet` of internal/voucher/voucher.go against its comment.
use theme_park_nftengine.Prelude.{
  String, ◌≡◌, refl, Bool, true, false, not, Option, none, some, ◌&&◌, str_eq, Bool-cases, inl, inr,
}
use theme_park_nftengine.Models.{
  Participant, ParticipantWalletState, none_yet, own_non_custodial, custodial_proxy,
}
use theme_park_nftengine.Voucher.Service.{resolve_mint_wallet, is_custodial}

abbrev is_provided : ParticipantWalletState → Bool
is_provided none_yet = false
is_provided _ = true

abbrev has_address : Option String → Bool
has_address none = false
has_address (some addr) = not (str_eq addr "")

-- A wallet state other than NONE, and an address that is not empty.
abbrev has_wallet : Participant → Bool
has_wallet p = is_provided p.wallet_state && has_address p.custodial_wallet_address

wallet_lem :
    (p : Participant) (state : ParticipantWalletState) (addr : Option String)
    → p.wallet_state ≡ state
    → p.custodial_wallet_address ≡ addr
    → ((resolve_mint_wallet p).pending
        ≡ (not (is_custodial state) && not (is_provided state && has_address addr)))
      × ((resolve_mint_wallet p).wallet_state ≡ state)
      × (str_eq (resolve_mint_wallet p).wallet_address ""
          ≡ not (is_provided state && has_address addr))
unfolding resolve_mint_wallet
wallet_lem p none_yet addr q r = rw (q, resolve_mint_wallet) (refl, refl, refl)
wallet_lem p own_non_custodial none q r = rw (q, r, resolve_mint_wallet) (refl, refl, refl)
wallet_lem p custodial_proxy none q r = rw (q, r, resolve_mint_wallet) (refl, refl, refl)
wallet_lem p own_non_custodial (some a) q r = elim (Bool-cases (str_eq a "")) [
  | inl e ↦ rw (q, r, e, resolve_mint_wallet) (refl, refl, refl)
  | inr e ↦ rw (q, r, e, resolve_mint_wallet) (refl, refl, e)
]
wallet_lem p custodial_proxy (some a) q r = elim (Bool-cases (str_eq a "")) [
  | inl e ↦ rw (q, r, e, resolve_mint_wallet) (refl, refl, refl)
  | inr e ↦ rw (q, r, e, resolve_mint_wallet) (refl, refl, e)
]

-- A mint is pending exactly where the participant is no dependent and has no wallet with an address; it
-- keeps the participant's wallet state, and its address is empty exactly where there is no such wallet. So
-- a dependent is never pending, even where its mint has no address to go to.
resolve_mint_wallet_lem :
    (p : Participant)
    → ((resolve_mint_wallet p).pending ≡ (not (is_custodial p.wallet_state) && not (has_wallet p)))
      × ((resolve_mint_wallet p).wallet_state ≡ p.wallet_state)
      × (str_eq (resolve_mint_wallet p).wallet_address "" ≡ not (has_wallet p))
resolve_mint_wallet_lem p = wallet_lem p p.wallet_state p.custodial_wallet_address refl refl
