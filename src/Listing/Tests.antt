-- ===== src/Listing/Tests.antt =====
-- gotst.go: setPackageTests, validateSelectedTests and allTestTasks.
use gotst.Prelude.{
  ℕ, ◌+◌, true, false, not, ◌&&◌, List, [], ◌∷◌, ◌++◌, map, Option, none, some, Text, text_eq, ◌==◌,
  contains, lookup, insert, is_empty, if◌then◌else◌, ◌>>=◌,
}
use gotst.Go.Sort.{sort_texts}
use gotst.Invocation.{QualifiedTest, TestSelection, active, wants, qualified_name, describe_missing}
use gotst.Server.{
  Server, PackageStatus, TestStatus, CapturedTestBinary, TestTask, done, is_runnable_top_level_test,
}

-- `&testStatus{changed: now}`
abbrev pub new_status : ℕ → TestStatus
new_status now = record {
  running = false;
  done = false;
  passed = false;
  passed_in = 0;
  cached = false;
  fails = [];
  attempts = 0;
  attrs = [];
  started = none;
  changed = now;
}

-- The loop of `setPackageTests`: the tests so far, and how many of them run.
unfoldable pub wanted_tests :
    ℕ
    → TestSelection
    → Text
    → List (Text × TestStatus)
    → ℕ
    → List Text
    → List (Text × TestStatus) × ℕ
wanted_tests now selection pkg tests total [] = (tests, total)
wanted_tests now selection pkg tests total (name ∷ names) = elim (wants selection pkg name) [
  | false ↦ wanted_tests now selection pkg tests total names
  | true ↦
      wanted_tests now selection pkg (insert name (new_status now) tests)
        (if is_runnable_top_level_test name then total + 1 else total) names
]

-- `setPackageTests` with the total of tests; `none` ends the process with an unknown package.
unfoldable pub set_package_tests :
    ℕ → TestSelection → Text → List Text → ℕ → Server → Option (ℕ × Server)
unfolding wanted_tests
set_package_tests now selection pkg names total s = do
  ps ← lookup pkg s.pkgs
  let wanted = wanted_tests now selection pkg [] total names
  some (
    wanted.1,
    record s { pkgs = insert pkg (record ps { tests = wanted.0; changed = now }) s.pkgs },
  )

-- The names that the qualified tests give to a test of a package.
unfoldable pub matching : List QualifiedTest → Text → Text → List Text
matching [] pkg test = []
matching (q ∷ qs) pkg test =
    let rest = matching qs pkg test in
    if q.package_path == pkg && q.name == test then qualified_name q ∷ rest else rest

-- The loops of `validateSelectedTests` over the tests of a package.
unfoldable pub found_in : TestSelection → Text → List (Text × TestStatus) → List Text
unfolding matching
found_in selection pkg [] = []
found_in selection pkg ((test, ts) ∷ tests) =
    (if contains selection.unqualified test then test ∷ [] else [])
    ++ matching selection.qualified pkg test
    ++ found_in selection pkg tests

unfoldable pub found_names : TestSelection → List (Text × PackageStatus) → List Text
unfolding found_in
found_names selection [] = []
found_names selection ((pkg, ps) ∷ pkgs) =
    found_in selection pkg ps.tests ++ found_names selection pkgs

-- `validateSelectedTests`: the missing names, if there are any.
unfoldable pub validate_selected_tests : TestSelection → Server → Option (List Text)
unfolding found_names
validate_selected_tests selection s =
    if not (active selection)
    then none
    else describe_missing selection (found_names selection s.pkgs)

unfoldable pub runnable_names : List (Text × TestStatus) → List Text
runnable_names [] = []
runnable_names ((test, ts) ∷ tests) =
    let rest = runnable_names tests in if is_runnable_top_level_test test then test ∷ rest else rest

-- `allTestTasks` for the captured binaries: the tasks, and the packages without tests done.
unfoldable pub all_test_tasks :
    ℕ → List CapturedTestBinary → Server → Option (List TestTask × Server)
unfolding runnable_names
all_test_tasks now [] s = some ([], s)
all_test_tasks now (bin ∷ bins) s = do
  ps ← lookup bin.pkg s.pkgs
  let tests = sort_texts (runnable_names ps.tests)
  let s' : Server =
      if is_empty tests
      then record s { pkgs = insert bin.pkg (record ps { pkg_state = done; changed = now }) s.pkgs }
      else s
  rest ← all_test_tasks now bins s'
  some (map (λ test. record { bin = bin; test = test }) tests ++ rest.0, rest.1)
