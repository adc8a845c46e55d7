-- ===== src/Progress.antt =====
-- progress.go: the figures of a running test run.
mod Eta
mod Snapshot
unfoldable pub use Eta.*
unfoldable pub use Snapshot.*
pub mod EtaLaws
pub mod SnapshotLaws
pub mod Examples
