-- ===== src/Progress/Snapshot.antt =====
-- progress.go: progressSnapshot, formatEstimate and flakyTests. Which packages have test files, and
-- which executables came from the cache, is what the build tells.
use gotst.Prelude.{
  ℕ, ◌+◌, ◌*◌, ◌/◌, Bool, true, false, not, ◌&&◌, List, [], ◌∷◌, ◌++◌, Text, text, text_eq, length,
  ltb, eqb, is_empty, if◌then◌else◌,
}
use Prim.Native.Nat.{Ordering}
use gotst.Go.Strings.{compare_text}
use gotst.Go.Sort.{sort_by}
use gotst.Go.Duration.{second, duration_string}
use gotst.Server.{
  done, Server, PackageStatus, PkgState, TestStatus, FailInfo, is_runnable_top_level_test,
}
use gotst.Progress.Eta.{is_helper}
use gotst.Fleet.{FleetWorker}

-- The counters of `progressSnapshot` that its loop over the packages raises.
pub record Counters : Type 0 where
  pub packages_built : ℕ
  pub packages_cached : ℕ
  pub packages_listed : ℕ
  pub packages_done : ℕ
  pub tests_done : ℕ
  pub tests_running : ℕ
  pub tests_flaky : ℕ

abbrev pub no_counters : Counters
no_counters = record {
  packages_built = 0;
  packages_cached = 0;
  packages_listed = 0;
  packages_done = 0;
  tests_done = 0;
  tests_running = 0;
  tests_flaky = 0;
}

abbrev pub one_if : Bool → ℕ
one_if true = 1
one_if false = 0

abbrev pub is_flaky : TestStatus → Bool
is_flaky ts = ts.passed && not (is_empty ts.fails)

abbrev pub is_done : PkgState → Bool
is_done done = true
is_done _ = false

-- The loop over the tests of a package.
unfoldable pub count_tests : List (Text × TestStatus) → Counters → Counters
count_tests [] c = c
count_tests ((name, ts) ∷ rest) c = elim (is_runnable_top_level_test name) [
  | false ↦ count_tests rest c
  | true ↦ count_tests rest (record c {
    tests_done = c.tests_done + one_if ts.done;
    tests_running = c.tests_running + one_if ts.running;
    tests_flaky = c.tests_flaky + one_if (is_flaky ts);
  })
]

module _ (has_tests exe_cached listed : Text → Bool) where
  -- The loop over the packages.
  unfoldable pub count_packages : List (Text × PackageStatus) → Counters → Counters
  unfolding count_tests
  count_packages [] c = c
  count_packages ((pkg, ps) ∷ rest) c = elim (has_tests pkg) [
    | false ↦ count_packages rest c
    | true ↦
        let built = not (is_empty ps.exe_hash) in
        count_packages rest (
          count_tests ps.tests (record c {
            packages_built = c.packages_built + one_if built;
            packages_cached = c.packages_cached + one_if (built && exe_cached pkg);
            packages_listed = c.packages_listed + one_if (listed pkg);
            packages_done = c.packages_done + one_if (is_done ps.pkg_state);
          }))
  ]

-- The helpers that `progressSnapshot` counts.
unfoldable pub count_helpers : List FleetWorker → ℕ
count_helpers [] = 0
count_helpers (w ∷ ws) = one_if (is_helper w) + count_helpers ws

-- `formatEstimate`; a duration is rounded to seconds, half up.
unfoldable pub format_estimate : ℕ → Text
unfolding duration_string
format_estimate d =
    if eqb d 0
    then text "0s"
    else if ltb d second
    then text "<1s"
    else duration_string ((d + second / 2) / second * second)

-- `flakyTestSummary`
pub record FlakyTestSummary : Type 0 where
  pub pkg : Text
  pub test : Text
  pub attempts : ℕ
  pub failures : ℕ
  pub attrs : List (Text × Text)
  pub failed_attempts : List FailInfo

-- The order of `flakyTests`: whether `a` is not behind `b`.
unfoldable pub summary_before : FlakyTestSummary → FlakyTestSummary → Bool
summary_before a b =
    let tests : Bool = elim (compare_text a.test b.test) [ Ordering.gt ↦ false | _ ↦ true ] in
    elim (compare_text a.pkg b.pkg) [
      | Ordering.lt ↦ true
      | Ordering.eq ↦ tests
      | Ordering.gt ↦ false
    ]

unfoldable pub flaky_in : Text → List (Text × TestStatus) → List FlakyTestSummary
flaky_in pkg [] = []
flaky_in pkg ((test, ts) ∷ rest) =
    let more = flaky_in pkg rest in
    if is_flaky ts
    then record {
      pkg = pkg;
      test = test;
      attempts = ts.attempts;
      failures = length ts.fails;
      attrs = ts.attrs;
      failed_attempts = ts.fails;
    }
      ∷ more
    else more

unfoldable pub flaky_all : List (Text × PackageStatus) → List FlakyTestSummary
unfolding flaky_in
flaky_all [] = []
flaky_all ((pkg, ps) ∷ rest) = flaky_in pkg ps.tests ++ flaky_all rest

-- `flakyTests`
unfoldable pub flaky_tests : Server → List FlakyTestSummary
unfolding flaky_all summary_before sort_by
flaky_tests s = sort_by summary_before (flaky_all s.pkgs)
