-- ===== src/Retry/Examples.antt =====
-- gotst.go: a test that fails once and then passes.
use gotst.Prelude.{
  ℕ, refl, true, false, [], ◌∷◌, none, some, text, text_eq, text_beq, lookup, eqb, if◌then◌else◌,
  Returns,
}
use gotst.Profile.{empty_profile}
use gotst.Server.{Server, TestTask, TestStatus, built, find_test}
use gotst.Server.StatusLaws.{has_test}
use gotst.TestCache.{miss}
use gotst.Retry.Data.{Attempt, attempt_passed, attempt_failed, Tries}
use gotst.Retry.Loop.{Surroundings, repeat_loop}
use gotst.Retry.Laws.{Repeated, repeat_loop-Repeated}

abbrev pending : TestStatus
pending = record {
  running = false;
  done = false;
  passed = false;
  passed_in = 0;
  cached = false;
  fails = [];
  attempts = 0;
  attrs = [];
  started = none;
  changed = 0;
}

abbrev server : Server
server = record {
  flags = record {
    jobs = 2;
    max_retries = 2;
    test_count = 1;
    fail_fast = false;
    json_summary = false;
    goos = text "linux";
    goarch = text "amd64";
  };
  profile = empty_profile;
  cancelled = false;
  pkgs =
      (
        text "p",
        record {
          pkg_state = built;
          exe_hash = text "h";
          tests = (text "TestA", pending) ∷ [];
          num_fails = 0;
          run_err = [];
          run_in = 0;
          changed = 0;
        },
      )
      ∷ [];
  cache_checks = 0;
  cache_hits = 0;
  fail_fast_triggered = false;
  history_pending = [];
}

abbrev task : TestTask
task = record {
  bin = record { pkg = text "p"; abs_bin = text "/tmp/h"; work_dir = text "/src"; args = [] };
  test = text "TestA";
}

-- The first attempt fails.
abbrev attempt : ℕ → ℕ → Attempt
attempt repetition retry = record {
  duration = 5;
  output = [];
  attrs = [];
  deps = some [];
  result = if eqb retry 0 then attempt_failed (text "exit status 1") else attempt_passed;
}

abbrev surroundings : Surroundings
surroundings = record {
  has_cache = true;
  debug_pass = 0;
  cached = miss;
  valid = λ deps. none;
  acquired = true;
  attempt = attempt;
  keeps_history = true;
  observation_id = text "id";
  portable = λ deps. [];
  now = 9;
}

abbrev fresh_tries : Tries
fresh_tries = record {
  total = 0;
  failures = [];
  cache_deps = none;
  history_deps = [];
  complete = true;
  attempts = 0;
  server = server;
}

repeat_loop-Repeated_example :
    Returns
      (Repeated task 1 2 attempt 1 0 fresh_tries)
      (repeat_loop task 1 2 attempt 1 0 fresh_tries)
unfolding has_test find_test lookup text_beq
repeat_loop-Repeated_example = repeat_loop-Repeated task 1 2 attempt 1 0 fresh_tries refl
