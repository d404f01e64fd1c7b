-- ===== src/Gate/Binding.antt =====
-- internal/gate/binding.go: the binding service.
use theme_park_nftengine.Prelude.{
  String, Bool, true, false, Option, none, some, ℕ, if◌then◌else◌, str_eq, not, ◌&&◌, ◌||◌,
}
use theme_park_nftengine.Models.{
  WristbandBinding, BindingStatus, binding, bound, claimed, active, pending_entry,
}
use theme_park_nftengine.Errors.{
  Error, error_text, gate_error, qr_invalid, qr_replay, no_binding, already_bound, wrap,
  txn_check_failed, is_wristband_already_bound, is_ticket_already_bound,
}
use theme_park_nftengine.Config.{RedisConfig, GateConfig}
use theme_park_nftengine.Keyspace.{Entry, NfcDecision, decision_json}
use theme_park_nftengine.World.{
  Result, ok, M, reads, pure, raise, ◌>>=◌, ◌>>◌, catch, wrapping, best_effort,
}
use theme_park_nftengine.Redis.Client.{
  mark_qr_used, bind_wristband_to, get_wristband_grace, get_binding, set_binding_status,
  set_wristband_grace, delete_binding, clear_wristband_grace,
}
use theme_park_nftengine.Gate.Qr.{QrToken, verify_qr_otp}
use theme_park_nftengine.Gate.Tickets.{ticket_owner_email, set_ticket_status}

pub record BindRequest : Type 0 where
  pub ticket_id : String
  pub qr_uuid : String
  pub qr_timestamp : ℕ
  pub qr_signature : String
  pub wristband_uid : String

-- A response; `allowed` and the texts after it are left out of the JSON where they are empty.
pub record WristbandResponse : Type 0 where
  pub wristband_uid : String
  pub ticket_id : String
  pub status : String
  pub user_email : String
  pub allowed : Option Bool
  pub reason : String
  pub source : String

abbrev pub status_text : BindingStatus → String
status_text binding = "BINDING"
status_text bound = "BOUND"

abbrev pub token_of : BindRequest → QrToken
token_of req = record {
  ticket_id = req.ticket_id;
  uuid = req.qr_uuid;
  timestamp = req.qr_timestamp;
  signature = req.qr_signature;
}

-- `if ok, err := VerifyQROTP(…); err != nil || !ok`.
abbrev pub require_verified : Result Bool → M (Unit {0})
require_verified (ok true) = pure tt
require_verified _ = raise (gate_error qr_invalid)

abbrev pub require_first : Bool → M (Unit {0})
require_first true = pure tt
require_first false = raise (gate_error qr_replay)

abbrev pub bind_error : Error → Error
bind_error e =
    if is_wristband_already_bound e || is_ticket_already_bound e
    then gate_error already_bound
    else wrap "bind wristband" e

abbrev pub or_no_binding : Option WristbandBinding → M WristbandBinding
or_no_binding none = raise (gate_error no_binding)
or_no_binding (some b) = pure b

-- Steps 4 and 5 of `Bind`: the link, and the status of the ticket.
unfoldable pub link : BindRequest → String → M WristbandResponse
link req user_email = do
  catch (bind_wristband_to req.wristband_uid req.ticket_id user_email) pure
      (λ e. raise (bind_error e))
  best_effort (set_ticket_status req.ticket_id pending_entry)
  pure (record {
    wristband_uid = req.wristband_uid;
    ticket_id = req.ticket_id;
    status = status_text binding;
    user_email = user_email;
    allowed = none;
    reason = "";
    source = "";
  })

module _ (hmac : String → String → String) where
  -- The first staff scan: the visitor's QR token links a wristband to a ticket.
  unfoldable pub bind : GateConfig → RedisConfig → BindRequest → M WristbandResponse
  bind gate cfg req = do
    now ← reads (λ s. s.now)
    require_verified (verify_qr_otp hmac gate now (token_of req))
    user_email ← ticket_owner_email req.ticket_id
    first ← wrapping "mark qr used" (mark_qr_used cfg req.qr_uuid)
    require_first first
    link req user_email

-- The decision of a check: nil allows.
abbrev pub decision_of : Option Error → NfcDecision
decision_of none = record { allowed = true; reason = "" }
decision_of (some e) = record { allowed = false; reason = error_text e }

-- The cached decision; an entry that does not parse is ignored.
abbrev pub cached_decision : Option Entry → Option NfcDecision
cached_decision none = none
cached_decision (some e) = elim e.value [ decision_json d ↦ some d | _ ↦ none ]

abbrev pub replayed : String → NfcDecision → WristbandResponse
replayed uid d = record {
  wristband_uid = uid;
  ticket_id = "";
  status = "";
  user_email = "";
  allowed = some d.allowed;
  reason = d.reason;
  source = "grace_window";
}

-- BINDING → BOUND and the ticket → ACTIVE, if the check allows it.
unfoldable pub promote : WristbandBinding → NfcDecision → M BindingStatus
promote b d =
    if d.allowed
    then (do
      wrapping "promote binding" (set_binding_status b.wristband_uid bound)
      best_effort (set_ticket_status b.ticket_id active)
      pure bound)
    else pure binding

unfoldable pub decide : RedisConfig → String → WristbandBinding → NfcDecision → M WristbandResponse
decide cfg uid b d = do
  status ← promote b d
  best_effort (set_wristband_grace cfg uid d)
  pure (record {
    wristband_uid = b.wristband_uid;
    ticket_id = b.ticket_id;
    status = status_text status;
    user_email = "";
    allowed = some d.allowed;
    reason = d.reason;
    source = "";
  })

-- `MockTxnCheck.CheckTxnCapability`, in a context that is not cancelled.
unfoldable pub mock_txn_check : GateConfig → String → Option Error
mock_txn_check gate account_ref =
    if not (str_eq gate.txn_check_fail_when "") && str_eq gate.txn_check_fail_when account_ref
    then some txn_check_failed
    else none

module _ (check : String → Option Error) where
  unfoldable pub evaluate : RedisConfig → String → M WristbandResponse
  evaluate cfg uid = do
    found ← wrapping "get binding" (get_binding uid)
    b ← or_no_binding found
    decide cfg uid b (decision_of (check b.user_email))

  abbrev pub replay_or_evaluate : RedisConfig → String → Option NfcDecision → M WristbandResponse
  replay_or_evaluate cfg uid none = evaluate cfg uid
  replay_or_evaluate cfg uid (some d) = pure (replayed uid d)

  -- The second staff scan: a cached decision is replayed, or the account is checked.
  unfoldable pub nfc_check : RedisConfig → String → M WristbandResponse
  nfc_check cfg uid = do
    cached ← wrapping "grace lookup" (get_wristband_grace uid)
    replay_or_evaluate cfg uid (cached_decision cached)

-- The admin override on a faulty wristband.
unfoldable pub reset : String → M WristbandResponse
reset uid = do
  found ← wrapping "get binding" (get_binding uid)
  b ← or_no_binding found
  wrapping "delete binding" (delete_binding uid)
  best_effort (clear_wristband_grace uid)
  best_effort (set_ticket_status b.ticket_id claimed)
  pure (record {
    wristband_uid = b.wristband_uid;
    ticket_id = b.ticket_id;
    status = "CLAIMED";
    user_email = "";
    allowed = none;
    reason = "";
    source = "";
  })
