-- ===== src/Go.antt =====
-- What the program uses of Go's standard library: strings, decimal numbers, durations, paths.
pub mod Strings
pub mod Duration
pub mod Sort
pub mod SortLaws
pub mod Paths
pub mod Hex
