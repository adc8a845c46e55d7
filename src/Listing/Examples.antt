-- ===== src/Listing/Examples.antt =====
-- gotst.go: two listed tests, of which one is selected.
use gotst.Prelude.{[], ◌∷◌, List, Text, text, text_eq}
use gotst.Invocation.{TestSelection}
use gotst.Server.{TestStatus}

abbrev selection : TestSelection
selection = record { unqualified = text "TestA" ∷ []; qualified = [] }

abbrev no_tests : List (Text × TestStatus)
no_tests = []
