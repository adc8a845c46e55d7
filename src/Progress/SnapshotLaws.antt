-- ===== src/Progress/SnapshotLaws.antt =====
-- progress.go: the flaky tests of a snapshot and of the summary.
use gotst.Prelude.{
  ◌&&◌, is_empty, not, ◌+◌, ◌≤◌, Bool, List, [], ◌∷◌, Text, length, length-append, arith,
  Bool-cases, inl, inr,
}
use gotst.Go.SortLaws.{length-sort_by}
use gotst.Server.{Server, PackageStatus, TestStatus, is_runnable_top_level_test}
use gotst.Progress.Snapshot.{
  is_done, one_if, Counters, no_counters, count_tests, count_packages, is_flaky, flaky_in,
  flaky_all, flaky_tests, summary_before,
}

count_tests-flaky :
    (pkg : Text) (tests : List (Text × TestStatus)) (c : Counters)
    → (count_tests tests c).tests_flaky ≤ c.tests_flaky + length (flaky_in pkg tests)
unfolding count_tests flaky_in
count_tests-flaky pkg [] c = omega arith
count_tests-flaky pkg ((name, ts) ∷ rest) c = elim (Bool-cases (is_runnable_top_level_test name)) [
  | inr e ↦ rw (e, count_tests) (ground (arith, count_tests-flaky pkg rest c))
  | inl e ↦
      let ih = count_tests-flaky pkg rest (record c {
        tests_done = c.tests_done + one_if ts.done;
        tests_running = c.tests_running + one_if ts.running;
        tests_flaky = c.tests_flaky + one_if (is_flaky ts);
      }) in
      rw (e, count_tests) (ground (arith, ih))
]

module _ (has_tests exe_cached listed : Text → Bool) where
  count_packages-flaky :
      (pkgs : List (Text × PackageStatus)) (c : Counters)
      → (count_packages has_tests exe_cached listed pkgs c).tests_flaky
        ≤ c.tests_flaky + length (flaky_all pkgs)
  unfolding count_packages flaky_all
  count_packages-flaky [] c = omega arith
  count_packages-flaky ((pkg, ps) ∷ rest) c =
      let size = length-append (flaky_in pkg ps.tests) (flaky_all rest) in
      elim (Bool-cases (has_tests pkg)) [
        | inr e ↦ rw (e, count_packages) (ground (arith, size, count_packages-flaky rest c))
        | inl e ↦
            let counted : Counters = record c {
              packages_built = c.packages_built + one_if (not (is_empty ps.exe_hash));
              packages_cached =
                  c.packages_cached + one_if (not (is_empty ps.exe_hash) && exe_cached pkg);
              packages_listed = c.packages_listed + one_if (listed pkg);
              packages_done = c.packages_done + one_if (is_done ps.pkg_state);
            } in
            let here = count_tests-flaky pkg ps.tests counted in
            let more = count_packages-flaky rest (count_tests ps.tests counted) in
            rw (e, count_packages) (omega (arith, size, here, more))
      ]

  -- The flaky tests that the snapshot counts are no more than those that the summary lists.
  count_packages-flaky_tests :
      (s : Server)
      → (count_packages has_tests exe_cached listed s.pkgs no_counters).tests_flaky
        ≤ length (flaky_tests s)
  unfolding flaky_tests
  count_packages-flaky_tests s = omega (
    arith,
    count_packages-flaky s.pkgs no_counters,
    length-sort_by summary_before (flaky_all s.pkgs),
  )
