-- ===== src/Examples.antt =====
-- The theorems at concrete inputs.
pub mod Fixtures
pub mod GateRuns
pub mod PipelineRuns
pub mod VoucherRuns
pub mod MinterRuns
pub mod RouteRuns
pub mod SuiRuns
pub mod WorkerRuns
pub mod MinterRoutes
