-- ===== src/Checks.antt =====
-- Runs of the model on small inputs, and each theorem at an input that meets its hypotheses.
pub mod GraphChecks
pub mod ExecutorChecks
pub mod CacheChecks
pub mod ReplayChecks
pub mod ModelChecks
pub mod FactChecks
pub mod ContextChecks
pub mod OrchestratorChecks
pub mod RunChecks
pub mod ProviderChecks
pub mod BuiltinChecks
pub mod McpChecks
pub mod PlatformChecks
pub mod UiChecks
pub mod SoftChecks
pub mod StdioChecks
pub mod StoredChecks
