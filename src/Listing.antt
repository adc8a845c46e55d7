-- ===== src/Listing.antt =====
-- gotst.go: the tests that the test binaries list, and which of them run.
mod Tests
pub mod Laws
pub mod Examples
unfoldable pub use Tests.*
