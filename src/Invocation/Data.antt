-- ===== src/Invocation/Data.antt =====
-- invocation.go: selections of tests and their queries. `go/token.IsIdentifier` is the parameter
-- `is_identifier`.
use gotst.Prelude.{
  Bool, true, false, not, ◌&&◌, ◌||◌, List, [], ◌∷◌, ◌++◌, map, filter, Option, none, some, Text,
  text, text_eq, ◌==◌, is_empty, contains, if◌then◌else◌,
}
use gotst.Profile.{RunProfile, append_unique}

-- `qualifiedTest`, `testSelection` and `invocation`.
pub record QualifiedTest : Type 0 where
  pub package_spec : Text
  pub package_path : Text
  pub name : Text

pub record TestSelection : Type 0 where
  pub unqualified : List Text
  pub qualified : List QualifiedTest

pub record Invocation : Type 0 where
  pub profile : RunProfile
  pub tests : TestSelection

abbrev pub same_test : QualifiedTest → QualifiedTest → Bool
same_test a b =
    a.package_spec == b.package_spec && a.package_path == b.package_path && a.name == b.name

-- `slices.Contains` on qualified tests.
unfoldable pub has_qualified : List QualifiedTest → QualifiedTest → Bool
has_qualified [] q = false
has_qualified (p ∷ ps) q = same_test p q || has_qualified ps q

-- Whether a qualified test is of the package, under the name.
unfoldable pub qualifies : List QualifiedTest → Text → Text → Bool
qualifies [] pkg test = false
qualifies (q ∷ qs) pkg test = (q.package_path == pkg && q.name == test) || qualifies qs pkg test

unfoldable pub active : TestSelection → Bool
active s = not (is_empty s.unqualified) || not (is_empty s.qualified)

abbrev pub qualified_name : QualifiedTest → Text
qualified_name q = q.package_spec ++ text "." ++ q.name

unfoldable pub requested_names : TestSelection → List Text
requested_names s = s.unqualified ++ map qualified_name s.qualified

unfoldable pub wants : TestSelection → Text → Text → Bool
unfolding active qualifies
wants s pkg test =
    if not (active s) then true else contains s.unqualified test || qualifies s.qualified pkg test

-- The loop of `packageTests`, with the names so far.
unfoldable pub package_tests_onto : List Text → List QualifiedTest → Text → List Text
package_tests_onto ret [] pkg = ret
package_tests_onto ret (q ∷ qs) pkg =
    package_tests_onto (if q.package_path == pkg then append_unique ret (q.name ∷ []) else ret) qs
      pkg

unfoldable pub package_tests : TestSelection → Text → List Text
unfolding package_tests_onto
package_tests s pkg = package_tests_onto [] s.qualified pkg

-- The names that are missing, `none` for no error; `found` are the keys of the map.
unfoldable pub describe_missing : TestSelection → List Text → Option (List Text)
unfolding requested_names
describe_missing s found =
    let missing = filter (λ name. not (contains found name)) (requested_names s) in
    if is_empty missing then none else some missing
