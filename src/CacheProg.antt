-- ===== src/CacheProg.antt =====
-- cacheprog.go: the client of a cache helper, and the shim between the go command and the helper.
mod Client
mod Executables
mod Shim
unfoldable pub use Client.*
unfoldable pub use Executables.*
unfoldable pub use Shim.*
pub mod ClientLaws
pub mod CopyLaws
pub mod ShimLaws
pub mod RegisterLaws
pub mod ShimExamples
pub mod Examples
