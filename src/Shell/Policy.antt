-- ===== src/Shell/Policy.antt =====
-- src/shell/policy.ts: which commands a command line runs, and whether the policy lets it run.
pub mod Words
pub mod Quoting
pub mod Regex
pub mod Patterns
pub mod Segments
pub mod Wrappers
pub mod Commands
pub mod Decision
pub mod Decides
