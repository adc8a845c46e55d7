-- ===== src/Summary.antt =====
-- summary.go: how long the phases of a distributed run took and how busy its workers were.
mod Data
unfoldable pub use Data.*
pub mod Laws
pub mod Examples
