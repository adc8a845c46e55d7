-- ===== src/Profile.antt =====
-- profile.go: run profiles, their merging, and the resolution of includes. A profile name is looked
-- up in the decoded configuration; reading and decoding the YAML file stays outside.
mod Data
mod Merge
mod Visit
pub mod Spec
pub mod Unique
pub mod Termination
pub mod Soundness
pub mod Cycles
pub mod Normal
pub mod Examples
unfoldable pub use Data.*
unfoldable pub use Merge.*
unfoldable pub use Visit.*
