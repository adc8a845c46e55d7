-- ===== src/Schedule.antt =====
-- history.go: the order and the estimates of the tests of a run, by their history.
mod Latest
mod Estimates
pub mod Laws
pub mod Examples
unfoldable pub use Latest.*
unfoldable pub use Estimates.*
