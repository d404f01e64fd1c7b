-- ===== src/World.antt =====
-- The state that the services share, and the calls by which they reach it. Each call of Redis,
-- Postgres, Kafka or Sui takes the next entry of that backend's schedule of faults: it passes, its
-- request is lost, or its effect takes place and the reply is lost. The driver reports either loss as
-- an error. A handler reads one time; time moves between handlers.
mod Defs
pub mod Hoare
mod Actions
pub use Defs.*
unfoldable pub use Actions.*
