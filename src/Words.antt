-- ===== src/Words.antt =====
-- cacheprog.go: words of a command line, and environments.
mod Quoting
pub mod Laws
pub mod Examples
unfoldable pub use Quoting.*
