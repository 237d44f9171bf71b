-- ===== src/Tests.antt =====
-- Tests, and each theorem at an input that meets its hypotheses.
pub mod ToyCrypto
mod BlindRuns
mod FetchRuns
mod JsonRuns
mod WireRuns
mod CliRuns
mod SigningRuns
mod ExecuteRuns
mod DispatchRuns
mod CommandRuns
mod PassphraseRuns
mod QueryRuns
mod UseRuns
mod StoreRuns
mod RedactRuns
mod AgentRuns
mod CacheRuns
mod CoreRuns
