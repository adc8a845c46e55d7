-- ===== src/Invocation.antt =====
-- invocation.go: the command line's arguments, and which tests they select.
mod Data
mod Parse
pub mod Laws
pub mod Examples
unfoldable pub use Data.*
unfoldable pub use Parse.*
