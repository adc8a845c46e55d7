-- ===== src/Invocation/Examples.antt =====
-- invocation.go: a command line with a package, a test and a test of a package.
use gotst.Prelude.{Bool, nat_eq, not, ◌&&◌, [], ◌∷◌, Text, text, text_eq, is_empty, contains}
use gotst.Invocation.Data.{TestSelection}
use gotst.Invocation.Parse.{sort_args}
use gotst.Invocation.Laws.{Sorts, sort_args-Sorts}

abbrev identifier : Text → Bool
identifier s = not (is_empty s) && not (contains ⦃e = nat_eq⦄ s b'.')

abbrev selection : TestSelection
selection = record {
  unqualified = text "TestA" ∷ [];
  qualified =
      record { package_spec = text "./p"; package_path = text "m/p"; name = text "TestB" } ∷ [];
}

abbrev nothing : TestSelection
nothing = record { unqualified = []; qualified = [] }

sort_args-Sorts_example :
    Sorts identifier [] nothing
      (text "./p" ∷ text "TestA" ∷ [])
      (text "TestA")
      (sort_args identifier [] nothing (text "./p" ∷ text "TestA" ∷ []))
sort_args-Sorts_example =
    sort_args-Sorts identifier [] nothing (text "./p" ∷ text "TestA" ∷ []) (text "TestA")
