-- ===== src/TestCache.antt =====
-- testcache.go: the cache of passed tests, and the inputs that it checks again.
mod Data
mod Inputs
mod Log
pub mod InputLaws
pub mod LogLaws
pub mod Unique
pub mod Examples
unfoldable pub use Data.*
unfoldable pub use Inputs.*
unfoldable pub use Log.*
