-- ===== src/World/Defs.antt =====
-- What Redis, the Postgres tables of migrations/, the Kafka topics and the chain hold.
use theme_park_nftengine.Prelude.{ℕ, String, Option, List}
use theme_park_nftengine.Models.{
  User, Ticket, TicketVoucher, Participant, PendingMint, ScanRecord, OutboxRow, MintLog, ScanEvent,
}
use theme_park_nftengine.Keyspace.{Keyspace}

-- The tables, each in the order of insertion.
pub record Tables : Type 0 where
  pub users : List User
  pub tickets : List Ticket
  pub ticket_vouchers : List TicketVoucher
  pub participants : List Participant
  pub pending_mints : List PendingMint
  pub scan_events : List ScanRecord
  pub outbox : List OutboxRow
  pub mint_logs : List MintLog
  -- The next values of the sequences of `users` and `participants`.
  pub next_user : ℕ
  pub next_participant : ℕ

-- A message of the `ride-scans` topic: what its value decodes to, if it does.
pub record Message : Type 0 where
  pub offset : ℕ
  pub value : Option ScanEvent

-- A dead letter, with its `dlq.reason` header.
pub record DeadLetter : Type 0 where
  pub original : Message
  pub reason : String

pub record Topics : Type 0 where
  pub ride_scans : List ScanEvent
  pub dlq : List DeadLetter
  -- The offsets that the consumer group has committed, newest first.
  pub committed : List ℕ

-- A batch of attendance tokens that a transaction minted.
pub record MintTx : Type 0 where
  pub recipient : String
  pub ride_ids : List String
  pub date : String
  pub names : List String
  pub urls : List String

-- A token that a transaction gave to another wallet.
pub record Transfer : Type 0 where
  pub object : String
  pub recipient : String

pub record State : Type 0 where
  pub now : ℕ
  pub redis : Keyspace
  pub tables : Tables
  pub topics : Topics
  -- The transactions that the chain has taken, newest first.
  pub chain : List MintTx
  -- The transfers that it has taken, newest first.
  pub transfers : List Transfer
