-- ===== src/Retry.antt =====
-- gotst.go: runTest, which runs a test with repetitions and retries.
mod Data
mod Loop
pub mod Laws
pub mod RunLaws
pub mod Examples
unfoldable pub use Data.*
unfoldable pub use Loop.*
