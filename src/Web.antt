-- ===== src/Web.antt =====
-- web.go: the live status page.
mod Patch
unfoldable pub use Patch.*
pub mod PatchLaws
pub mod Examples
