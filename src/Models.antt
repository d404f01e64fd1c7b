-- ===== src/Models.antt =====
-- internal/models/models.go: the records and enumerations that the services share. Times are Unix
-- milliseconds or seconds at or after the epoch; `CreatedAt` and `UpdatedAt` columns, which no code
-- path reads back, are left out.
use theme_park_nftengine.Prelude.{ℕ, String, Option, List, Bool}

-- A wristband NFC scan at a ride, as it travels through Kafka.
pub record ScanEvent : Type 0 where
  pub user_id : String
  pub ride_id : String
  pub timestamp : ℕ
  pub trace_id : String
  pub ticket_id : String

pub data BindingStatus : Type 0 where
  binding bound : BindingStatus

-- The temporary link of a wristband, a ticket and a visitor, as Redis holds it.
pub record WristbandBinding : Type 0 where
  pub wristband_uid : String
  pub ticket_id : String
  pub user_email : String
  pub status : BindingStatus
  pub bound_at : ℕ

pub data TicketStatus : Type 0 where
  unclaimed claimed active pending_entry used expired : TicketStatus

pub data MintStatus : Type 0 where
  pending submitted confirmed failed : MintStatus

pub record User : Type 0 where
  pub id : ℕ
  pub email : String
  pub sui_address : Option String
  pub ephemeral_key : Option String
  pub zklogin_proof : Option String

pub record Ticket : Type 0 where
  pub ticket_id : String
  pub user_id : Option ℕ
  pub status : TicketStatus
  pub purchased_by : Option ℕ

pub record TicketVoucher : Type 0 where
  pub voucher_id : String
  pub purchaser_id : ℕ
  pub owner_id : Option ℕ
  pub participant_id : Option ℕ
  pub status : TicketStatus

-- A row of `scan_events`.
pub record ScanRecord : Type 0 where
  pub trace_id : String
  pub user_id : Option ℕ
  pub ticket_id : String
  pub ride_id : String
  pub scanned_at : ℕ

pub record MintLog : Type 0 where
  pub user_id : ℕ
  pub participant_id : Option ℕ
  pub ride_id : String
  pub mint_date : String
  pub tx_digest : String
  pub status : MintStatus
  pub gas_used : ℕ

pub data ParticipantWalletState : Type 0 where
  none_yet own_non_custodial custodial_proxy : ParticipantWalletState

pub record Participant : Type 0 where
  pub id : ℕ
  pub name : String
  pub account_email : Option String
  pub guardian_id : Option ℕ
  pub wallet_state : ParticipantWalletState
  pub custodial_wallet_address : Option String

pub record PendingMint : Type 0 where
  pub participant_id : ℕ
  pub ride_ids : List String
  pub scanned_ats : List ℕ
  pub mint_date : String
  pub wallet_state : ParticipantWalletState

-- The `mode` field of a request is free text; `unknown` is any text but the two constants.
pub data DelegationMode : Type 0 where
  account dependent : DelegationMode
  unknown : String → DelegationMode

pub record DelegateRequest : Type 0 where
  pub voucher_id : String
  pub mode : DelegationMode
  pub account_email : String
  pub name : String
  pub guardian_id : ℕ

pub record DelegateResponse : Type 0 where
  pub participant_id : ℕ
  pub voucher_id : String
  pub mode : DelegationMode
  pub wallet_state : ParticipantWalletState
  pub wallet_address : String
  pub pending : Bool

pub record MintResolution : Type 0 where
  pub wallet_state : ParticipantWalletState
  pub wallet_address : String
  pub pending : Bool

pub record RecordPendingMintRequest : Type 0 where
  pub participant_id : ℕ
  pub mint_date : String
  pub ride_ids : List String
  pub scanned_ats : List ℕ

-- A parked Redis aggregation, a row of `scan_events_outbox`.
pub record OutboxRow : Type 0 where
  pub trace_id : String
  pub user_email : String
  pub ride_id : String
  pub scanned_at : ℕ
  pub attempts : ℕ
