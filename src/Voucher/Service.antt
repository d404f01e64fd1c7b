-- ===== src/Voucher/Service.antt =====
-- internal/voucher/voucher.go: delegation of vouchers, the wallet of a mint, and the ledger of
-- pending mints. The service's repository is internal/postgres.
use Prim.Native.String.{◌++◌}
use theme_park_nftengine.Prelude.{
  ℕ, String, Bool, true, false, Option, none, some, ◌==◌, str_eq, if◌then◌else◌,
}
use theme_park_nftengine.Models.{
  DelegationMode, account, dependent, unknown, DelegateRequest, DelegateResponse, MintResolution,
  Participant, ParticipantWalletState, none_yet, own_non_custodial, custodial_proxy, PendingMint,
  RecordPendingMintRequest,
}
use theme_park_nftengine.Errors.{
  Error, voucher_error, voucher_allocated, invalid_delegation, participant_not_found, message, wrap,
  is_already_allocated,
}
use theme_park_nftengine.Text.{itoa}
use theme_park_nftengine.World.{M, pure, raise, catch, ◌>>=◌, ◌>>◌}
use theme_park_nftengine.Postgres.Accounts.{
  create_participant, get_participant, get_participant_by_email, set_participant_wallet,
  with_wallet,
}
use theme_park_nftengine.Postgres.Mints.{delegate_voucher, upsert_pending_mint}

-- `fmt.Errorf("%w: …", sentinel)`: the sentinel under a context.
abbrev pub invalid : String → Error
invalid detail = wrap detail (voucher_error invalid_delegation)

abbrev pub not_found : ℕ → Error
not_found id = wrap (itoa id) (voucher_error participant_not_found)

unfoldable pub custodial_wallet_for : ℕ → String
custodial_wallet_for participant_id = "0xguardian-custodial-" ++ itoa participant_id

-- A mint to a wallet that has an address, which `otherwise` settles where it has none.
abbrev pub addressed : ParticipantWalletState → Option String → MintResolution → MintResolution
addressed state none otherwise = otherwise
addressed state (some addr) otherwise =
    if str_eq addr ""
    then otherwise
    else record { wallet_state = state; wallet_address = addr; pending = false }

unfoldable pub resolve_mint_wallet : Participant → MintResolution
resolve_mint_wallet p = elim p.wallet_state [
  | own_non_custodial ↦
      addressed own_non_custodial p.custodial_wallet_address
        (record { wallet_state = own_non_custodial; wallet_address = ""; pending = true })
  | custodial_proxy ↦
      addressed custodial_proxy p.custodial_wallet_address
        (record { wallet_state = custodial_proxy; wallet_address = ""; pending = false })
  | none_yet ↦ record { wallet_state = none_yet; wallet_address = ""; pending = true }
]

abbrev pub or_created : String → Option Participant → M Participant
or_created email none = create_participant email (some email) none
or_created email (some p) = pure p

unfoldable pub account_participant : String → M Participant
account_participant email =
    if str_eq email ""
    then raise (invalid "account_email required for account mode")
    else get_participant_by_email email >>= or_created email

-- The wallet of a new dependent.
abbrev pub provisioned : Participant → M Participant
provisioned p = do
  set_participant_wallet p.id custodial_proxy (custodial_wallet_for p.id)
  pure (with_wallet custodial_proxy (custodial_wallet_for p.id) p)

abbrev pub dependent_of : String → ℕ → Option Participant → M Participant
dependent_of name guardian_id none = raise (wrap "guardian" (not_found guardian_id))
dependent_of name guardian_id (some _) =
    create_participant name none (some guardian_id) >>= provisioned

unfoldable pub dependent_participant : String → ℕ → M Participant
dependent_participant name guardian_id =
    if guardian_id == 0
    then raise (invalid "guardian_id required for dependent mode")
    else get_participant guardian_id >>= dependent_of name guardian_id

abbrev pub participant_by : DelegationMode → DelegateRequest → M Participant
participant_by account req = account_participant req.account_email
participant_by dependent req = dependent_participant req.name req.guardian_id
participant_by (unknown mode) req = raise (invalid ("unknown mode " ++ mode))

unfoldable pub participant_of : DelegateRequest → M Participant
participant_of req = participant_by req.mode req

unfoldable pub delegate_error : Error → Error
delegate_error e = if is_already_allocated e then voucher_error voucher_allocated else e

abbrev pub response : DelegateRequest → Participant → DelegateResponse
response req p = record {
  participant_id = p.id;
  voucher_id = req.voucher_id;
  mode = req.mode;
  wallet_state = (resolve_mint_wallet p).wallet_state;
  wallet_address = (resolve_mint_wallet p).wallet_address;
  pending = (resolve_mint_wallet p).pending;
}

abbrev pub allocated : DelegateRequest → Participant → M DelegateResponse
allocated req p =
    catch (delegate_voucher req.voucher_id p.id) (λ _. pure (response req p))
      (λ e. raise (delegate_error e))

unfoldable pub delegate : DelegateRequest → M DelegateResponse
delegate req = participant_of req >>= allocated req

abbrev pub pending_of : RecordPendingMintRequest → Participant → PendingMint
pending_of req p = record {
  participant_id = req.participant_id;
  ride_ids = req.ride_ids;
  scanned_ats = req.scanned_ats;
  mint_date = req.mint_date;
  wallet_state = (resolve_mint_wallet p).wallet_state;
}

abbrev pub record_for : RecordPendingMintRequest → Option Participant → M (Unit {0})
record_for req none = raise (not_found req.participant_id)
record_for req (some p) = upsert_pending_mint (pending_of req p)

unfoldable pub record_pending_mint : RecordPendingMintRequest → M (Unit {0})
record_pending_mint req = get_participant req.participant_id >>= record_for req

abbrev pub state_text : ParticipantWalletState → String
state_text none_yet = "NONE"
state_text own_non_custodial = "OWN_NON_CUSTODIAL"
state_text custodial_proxy = "CUSTODIAL_PROXY"

abbrev pub is_custodial : ParticipantWalletState → Bool
is_custodial custodial_proxy = true
is_custodial _ = false

abbrev pub claim_by : ℕ → String → Option Participant → M (Option Participant)
claim_by id wallet none = raise (not_found id)
claim_by id wallet (some p) =
    if is_custodial p.wallet_state
    then set_participant_wallet id own_non_custodial wallet >> get_participant id
    else raise (
        message (
          "participant "
          ++ (itoa id ++ (" is not a dependent (state=" ++ (state_text p.wallet_state ++ ")")))))

unfoldable pub claim_custody : ℕ → String → M (Option Participant)
claim_custody id wallet = get_participant id >>= claim_by id wallet
