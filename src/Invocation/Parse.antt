-- ===== src/Invocation/Parse.antt =====
-- invocation.go: parseInvocation, isTestName and splitQualifiedTest.
use gotst.Prelude.{
  Bool, true, false, not, ◌||◌, List, [], ◌∷◌, ◌++◌, Option, none, some, Text, text, text_eq,
  is_empty, is_some, lookup, eqb, if◌then◌else◌,
}
use gotst.Go.Strings.{has_prefix}
use gotst.Profile.{Profiles, ParsedDuration, Outcome, ok, resolve, append_unique, ◌>>=◌}
use gotst.Invocation.Data.{QualifiedTest, TestSelection, Invocation, has_qualified}

-- The texts before and behind the last dot: `strings.LastIndexByte` and the two slices at it.
unfoldable pub last_dot : Text → Option (Text × Text)
last_dot [] = none
last_dot (c ∷ s) = elim (last_dot s) [
  | some (before, after) ↦ some (c ∷ before, after)
  | none ↦ if eqb c b'.' then some ([], s) else none
]

unfoldable pub add_qualified : List QualifiedTest → Text → Text → List QualifiedTest
unfolding has_qualified
add_qualified qs pkg name =
    let q : QualifiedTest = record { package_spec = pkg; package_path = []; name = name } in
    if has_qualified qs q then qs else qs ++ q ∷ []

-- The first argument may name a profile.
unfoldable pub choose_profile : Profiles → List Text → Text × List Text
choose_profile profiles [] = (text "default", [])
choose_profile profiles (arg ∷ args) =
    if is_some (lookup arg profiles) then (arg, args) else (text "default", arg ∷ args)

module _ (is_identifier : Text → Bool) where
  unfoldable pub is_test_name : Text → Bool
  is_test_name s =
      if not (is_identifier s)
      then false
      else has_prefix s (text "Test") || has_prefix s (text "Fuzz") || has_prefix s (text "Example")

  unfoldable pub split_qualified_test : Text → Option (Text × Text)
  unfolding last_dot is_test_name
  split_qualified_test arg = elim (last_dot arg) [
    | none ↦ none
    | some (pkg, test) ↦
        if is_empty pkg || is_empty test || not (is_test_name test) then none else some (pkg, test)
  ]

  -- The loop over the arguments: the packages and the tests so far.
  unfoldable pub sort_args : List Text → TestSelection → List Text → List Text × TestSelection
  sort_args packages tests [] = (packages, tests)
  sort_args packages tests (arg ∷ args) = elim (is_test_name arg) [
    | true ↦
        sort_args packages
          (record tests { unqualified = append_unique tests.unqualified (arg ∷ []) }) args
    | false ↦ elim (split_qualified_test arg) [
      | some (pkg, name) ↦
          sort_args packages (record tests { qualified = add_qualified tests.qualified pkg name })
            args
      | none ↦ sort_args (append_unique packages (arg ∷ [])) tests args
    ]
  ]

  module _ (parse_duration : Text → ParsedDuration) (root : Text) (profiles : Profiles) where
    unfoldable pub parse_invocation : List Text → Outcome Invocation
    unfolding sort_args choose_profile
    parse_invocation args = do
      let chosen = choose_profile profiles args
      profile ← resolve parse_duration profiles root chosen.0
      let sorted = sort_args [] (record { unqualified = []; qualified = [] }) chosen.1
      ok (record {
        profile = if is_empty sorted.0 then profile else record profile { packages = sorted.0 };
        tests = sorted.1;
      })
