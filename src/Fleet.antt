-- ===== src/Fleet.antt =====
-- distributed.go: the leader's side of a distributed run, where helpers execute leased tests.
mod Data
mod Leases
mod Assign
mod Accept
mod Exchange
mod Run
pub mod Views
pub mod Unlink
pub mod AddLease
pub mod Removed
pub mod Tasks
pub mod Removal
pub mod Invariant
pub mod Commit
pub mod Next
pub mod NextLaws
pub mod Batch
pub mod Report
pub mod AcceptLaws
pub mod Rounds
pub mod Start
pub mod Reach
pub mod Examples
unfoldable pub use Data.*
unfoldable pub use Leases.*
unfoldable pub use Assign.*
unfoldable pub use Accept.*
unfoldable pub use Exchange.*
unfoldable pub use Run.*
