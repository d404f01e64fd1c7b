-- ===== src/Kafka.antt =====
-- internal/kafka: the consumer of the ride-scans topic.
pub mod Consumer
pub mod Policy
pub mod Loss
pub mod Finalises
pub mod Poison
pub mod Run
pub mod Workers
pub mod Drains
pub mod Backoff
