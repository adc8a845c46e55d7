-- ===== src/Output.antt =====
-- gotst.go: the bounded buffer for a test's output.
mod Capped
pub mod Laws
pub mod Examples
unfoldable pub use Capped.*
