-- ===== src/Worker.antt =====
-- worker.go: a helper's loop, and the leader's side of its connection.
mod Loop
mod Connection
unfoldable pub use Loop.*
unfoldable pub use Connection.*
pub mod LoopLaws
pub mod ConnectionLaws
pub mod Examples
