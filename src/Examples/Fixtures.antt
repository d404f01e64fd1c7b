-- ===== src/Examples/Fixtures.antt =====
-- One visitor with a ticket, an empty key space, and services whose calls all pass.
use theme_park_nftengine.Prelude.{String, true, none, some, List, [], ◌∷◌}
use theme_park_nftengine.Models.{
  User, Ticket, active, TicketVoucher, unclaimed, Participant, none_yet, ScanEvent, ScanRecord,
}
use theme_park_nftengine.Config.{redis_defaults, gate_defaults}
use theme_park_nftengine.Keyspace.{Keyspace, empty}
use theme_park_nftengine.World.{State, World, Tables, Message, Fault}
use theme_park_nftengine.Gate.History.{Gate}
use theme_park_nftengine.Gate.Binding.{BindRequest, mock_txn_check}

abbrev pub visitor : User
visitor = record {
  id = 1;
  email = "ana@park";
  sui_address = none;
  ephemeral_key = none;
  zklogin_proof = none;
}

abbrev pub ticket_row : Ticket
ticket_row = record { ticket_id = "t1"; user_id = some 1; status = active; purchased_by = some 1 }

abbrev pub voucher_row : TicketVoucher
voucher_row = record {
  voucher_id = "v1";
  purchaser_id = 1;
  owner_id = none;
  participant_id = none;
  status = unclaimed;
}

abbrev pub participant_row : Participant
participant_row = record {
  id = 1;
  name = "Ana";
  account_email = some "ana@park";
  guardian_id = none;
  wallet_state = none_yet;
  custodial_wallet_address = none;
}

abbrev pub scan_of_visitor : ScanRecord
scan_of_visitor = record {
  trace_id = "e1";
  user_id = some 1;
  ticket_id = "t1";
  ride_id = "ride-001";
  scanned_at = 1000;
}

abbrev pub tables : Tables
tables = record {
  users = visitor ∷ [];
  tickets = ticket_row ∷ [];
  ticket_vouchers = voucher_row ∷ [];
  participants = participant_row ∷ [];
  pending_mints = [];
  scan_events = scan_of_visitor ∷ [];
  outbox = [];
  mint_logs = [];
  next_user = 2;
  next_participant = 2;
}

abbrev pub state_with : Keyspace → State
state_with ks = record {
  now = 100000;
  redis = ks;
  tables = tables;
  topics = record { ride_scans = []; dlq = []; committed = [] };
  chain = [];
  transfers = [];
}

abbrev pub world_with : Keyspace → World
world_with ks = record {
  faults = record { redis = []; postgres = []; kafka = []; sui = [] };
  st = state_with ks;
}

abbrev pub world : World
world = world_with empty

abbrev pub failing : List Fault → World
failing fs = record {
  faults = record { redis = fs; postgres = []; kafka = []; sui = [] };
  st = state_with empty;
}

-- A signature that is its payload.
abbrev pub gate : Gate
gate = record {
  hmac = λ _ p. p;
  settings = gate_defaults;
  redis = redis_defaults;
  check = mock_txn_check gate_defaults;
  has_db = true;
}

abbrev pub request_with : String → BindRequest
request_with uid = record {
  ticket_id = "t1";
  qr_uuid = "q1";
  qr_timestamp = 100;
  qr_signature = "t1|q1|100";
  wristband_uid = uid;
}

abbrev pub event : ScanEvent
event = record {
  user_id = "ana@park";
  ride_id = "ride-002";
  timestamp = 100000;
  trace_id = "e2";
  ticket_id = "t1";
}

abbrev pub message : Message
message = record { offset = 7; value = some event }
