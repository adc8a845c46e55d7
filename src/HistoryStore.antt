-- ===== src/HistoryStore.antt =====
-- history.go: what is kept of a run's observations, and the stores.
mod Portable
mod Disk
mod Client
unfoldable pub use Portable.*
unfoldable pub use Disk.*
unfoldable pub use Client.*
pub mod DiskLaws
pub mod PruneLaws
pub mod ClientLaws
pub mod Examples
