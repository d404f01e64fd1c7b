-- ===== src/Pipeline.antt =====
-- internal/pipeline: from a scan event to its row and its ride set.
pub mod Handler
pub mod Rows
pub mod Sets
pub mod Drains
pub mod Stored
pub mod TopicsKept
pub mod Faithful
pub mod Accounted
