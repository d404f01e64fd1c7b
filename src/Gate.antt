-- ===== src/Gate.antt =====
-- internal/gate: the wristband life cycle at the gate.
pub mod Qr
pub mod Tickets
pub mod Binding
pub mod RideScan
pub mod Keeps
pub mod History
pub mod Overlap
pub mod Race
pub mod Frame
pub mod OneTime
pub mod Replay
pub mod Scans
pub mod Denied
pub mod Unlinks
pub mod Links
pub mod Routes
pub mod Late
pub mod Abstract
pub mod LinkMoves
pub mod Refines
pub mod Stages
pub mod Refusals
