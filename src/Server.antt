-- ===== src/Server.antt =====
-- gotst.go: the run's shared state, the arguments of test binaries, and what finishing a test does.
mod Data
mod Args
mod Status
pub mod StatusLaws
unfoldable pub use Data.*
unfoldable pub use Args.*
unfoldable pub use Status.*
