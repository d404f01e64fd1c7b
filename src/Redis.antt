-- ===== src/Redis.antt =====
-- internal/redis/client.go: the operations of the Redis client. Each command, and each script, is one
-- call that Redis runs atomically.
pub mod Commands
pub mod Client
pub mod Links
pub mod Keeps
pub mod Methods
pub mod Frame
