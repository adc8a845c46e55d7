-- ===== src/History.antt =====
-- history/history.go and history.go: test history.
mod Data
unfoldable pub use Data.*
