-- ===== src/Listing/Laws.antt =====
-- gotst.go: which tests of a package are there after the listing.
use gotst.Prelude.{text_eq}
