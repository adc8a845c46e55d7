-- ===== src/Server/Status.antt =====
-- gotst.go: the status of tests. A read through a missing package or test is a nil dereference in
-- the code, which panics: `none` here.
use gotst.Prelude.{
  ℕ, ◌+◌, Bool, true, false, not, ◌&&◌, ◌||◌, List, [], ◌∷◌, ◌++◌, Option, none, some, Text, text,
  text_eq, lookup, insert, if◌then◌else◌, ◌>>=◌,
}
use gotst.Go.Strings.{has_prefix}
use gotst.Server.Data.{Server, PackageStatus, TestStatus, TestTask, FailInfo, done}

unfoldable pub is_runnable_top_level_test : Text → Bool
is_runnable_top_level_test name =
    has_prefix name (text "Test")
    || has_prefix name (text "Fuzz")
    || has_prefix name (text "Example")

-- `s.pkgs[task.bin.pkg].tests[task.test]`
unfoldable pub find_test : Server → TestTask → Option (PackageStatus × TestStatus)
find_test s task = do ps ← lookup task.bin.pkg s.pkgs; ts ← lookup task.test ps.tests; some (ps, ts)

-- The package and the test after changes through their pointers.
unfoldable pub put_test : Server → TestTask → PackageStatus → TestStatus → Server
put_test s task ps ts = record s {
  pkgs = insert task.bin.pkg (record ps { tests = insert task.test ts ps.tests }) s.pkgs;
}

-- The loop of `finishTestLocked` over the tests of a package.
unfoldable pub all_done : List (Text × TestStatus) → Bool
unfolding is_runnable_top_level_test
all_done [] = true
all_done ((name, ts) ∷ tests) =
    not (is_runnable_top_level_test name && not ts.done) && all_done tests

-- `ts` once the test is over.
unfoldable pub finished_test : TestStatus → Bool → ℕ → List FailInfo → Bool → ℕ → TestStatus
finished_test ts passed d failures cached now = record ts {
  running = false;
  done = true;
  passed = passed;
  cached = cached;
  fails = ts.fails ++ failures;
  changed = now;
  passed_in = if passed then d else ts.passed_in;
}

-- `finishTestLocked`; the error as its text, `none` for nil.
unfoldable pub finish_test_locked :
    Server → TestTask → Bool → ℕ → List FailInfo → Option Text → Bool → ℕ → Option Server
unfolding finished_test find_test put_test all_done
finish_test_locked s task passed d failures error cached now = do
  found ← find_test s task
  let ps = found.0
  let ts = finished_test found.1 passed d failures cached now
  let counted = record ps {
    changed = now;
    num_fails = if passed then ps.num_fails else ps.num_fails + 1;
    run_err = if passed then ps.run_err else elim error [ none ↦ ps.run_err | some e ↦ e ];
    run_in = ps.run_in + d;
  }
  let over = all_done (insert task.test ts ps.tests)
  some (put_test s task (if over then record counted { pkg_state = done } else counted) ts)
