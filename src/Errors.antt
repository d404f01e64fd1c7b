-- ===== src/Errors.antt =====
-- The errors that the services return: the sentinel values of each package, an error of a driver or
-- of the network, and an error wrapped by `fmt.Errorf("…: %w", err)`.
use Prim.Native.String.{◌++◌}
use theme_park_nftengine.Prelude.{String, Bool, true, false}

-- internal/redis/client.go
pub data RedisError : Type 0 where
  wristband_already_bound ticket_already_bound binding_not_found : RedisError

-- internal/gate/binding.go
pub data GateError : Type 0 where
  qr_invalid qr_replay ticket_invalid no_binding not_bound already_bound : GateError

-- internal/voucher/voucher.go
pub data VoucherError : Type 0 where
  voucher_allocated invalid_delegation participant_not_found : VoucherError

-- internal/voucher/link.go
pub data LinkError : Type 0 where
  invalid_link link_expired : LinkError

pub data Error : Type 0 where
  -- A driver's error, with its text.
  driver : String → Error
  no_rows : Error
  decode : Error
  redis_error : RedisError → Error
  gate_error : GateError → Error
  voucher_error : VoucherError → Error
  link_error : LinkError → Error
  -- models.ErrAlreadyAllocated
  already_allocated : Error
  -- auth.ErrTxnCheckFailed
  txn_check_failed : Error
  message : String → Error
  wrap : String → Error → Error

-- `errors.Is(err, redis.ErrWristbandAlreadyBound)`, and so on for the values that the code asks for.
pub is_wristband_already_bound : Error → Bool
is_wristband_already_bound (redis_error wristband_already_bound) = true
is_wristband_already_bound (wrap _ e) = is_wristband_already_bound e
is_wristband_already_bound _ = false

pub is_ticket_already_bound : Error → Bool
is_ticket_already_bound (redis_error ticket_already_bound) = true
is_ticket_already_bound (wrap _ e) = is_ticket_already_bound e
is_ticket_already_bound _ = false

unfoldable pub is_already_allocated : Error → Bool
is_already_allocated already_allocated = true
is_already_allocated (wrap _ e) = is_already_allocated e
is_already_allocated _ = false

pub is_no_rows : Error → Bool
is_no_rows no_rows = true
is_no_rows (wrap _ e) = is_no_rows e
is_no_rows _ = false

abbrev pub same_gate : GateError → GateError → Bool
same_gate qr_invalid qr_invalid = true
same_gate qr_replay qr_replay = true
same_gate ticket_invalid ticket_invalid = true
same_gate no_binding no_binding = true
same_gate not_bound not_bound = true
same_gate already_bound already_bound = true
same_gate _ _ = false

-- `errors.Is(err, gate.ErrQRInvalid)`, and so on for the gate's other values.
unfoldable pub is_gate : GateError → Error → Bool
is_gate g (gate_error h) = same_gate g h
is_gate g (wrap _ e) = is_gate g e
is_gate _ _ = false

abbrev pub same_voucher : VoucherError → VoucherError → Bool
same_voucher voucher_allocated voucher_allocated = true
same_voucher invalid_delegation invalid_delegation = true
same_voucher participant_not_found participant_not_found = true
same_voucher _ _ = false

unfoldable pub is_voucher : VoucherError → Error → Bool
is_voucher v (voucher_error u) = same_voucher v u
is_voucher v (wrap _ e) = is_voucher v e
is_voucher _ _ = false

-- `err.Error()`.
unfoldable pub error_text : Error → String
error_text (driver text) = text
error_text no_rows = "sql: no rows in result set"
error_text decode = "unexpected value"
error_text (redis_error wristband_already_bound) = "wristband already bound"
error_text (redis_error ticket_already_bound) = "ticket already bound"
error_text (redis_error binding_not_found) = "binding not found"
error_text (gate_error qr_invalid) = "invalid or expired QR code"
error_text (gate_error qr_replay) = "QR code already used"
error_text (gate_error ticket_invalid) = "ticket not found or not bindable"
error_text (gate_error no_binding) = "wristband not bound"
error_text (gate_error not_bound) = "wristband not BOUND (active)"
error_text (gate_error already_bound) = "wristband or ticket already bound"
error_text (voucher_error voucher_allocated) = "voucher already allocated"
error_text (voucher_error invalid_delegation) = "invalid delegation"
error_text (voucher_error participant_not_found) = "participant not found"
error_text (link_error invalid_link) = "invalid magic link"
error_text (link_error link_expired) = "magic link expired"
error_text already_allocated = "voucher already allocated"
error_text txn_check_failed = "transaction check failed"
error_text (message text) = text
error_text (wrap context e) = context ++ (": " ++ error_text e)
