-- ===== src/LocalCache.antt =====
-- localcache.go: the persistent build cache and its protocol loop.
mod Data
mod Store
mod Serve
unfoldable pub use Data.*
unfoldable pub use Store.*
unfoldable pub use Serve.*
pub mod WriteLaws
pub mod PathLaws
pub mod StoreLaws
pub mod GetLaws
pub mod RoundTrip
pub mod ServeLaws
pub mod Examples
