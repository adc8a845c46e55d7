-- ===== src/Progress/Examples.antt =====
-- progress.go: one running test and one queued test on two slots.
use gotst.Prelude.{
  text_beq, lookup, ◌*◌, ◌≤◌, ◌≡◌, refl, true, false, [], ◌∷◌, List, none, some, text,
}
use gotst.Profile.{empty_profile}
use gotst.Server.{Server, PackageStatus, TestStatus, built}
use gotst.Progress.Eta.{Scheduled, testing, test_eta_locked, capacity_of}
use gotst.Progress.EtaLaws.{total_left, test_eta_locked-bounds}

abbrev pending : TestStatus
pending = record {
  running = false;
  done = false;
  passed = false;
  passed_in = 0;
  cached = false;
  fails = [];
  attempts = 0;
  attrs = [];
  started = none;
  changed = 0;
}

abbrev pkg_p : PackageStatus
pkg_p = record {
  pkg_state = built;
  exe_hash = text "h";
  tests =
      (text "TestA", record pending { running = true; started = some 5 })
      ∷ (text "TestB", pending)
      ∷ [];
  num_fails = 0;
  run_err = [];
  run_in = 0;
  changed = 0;
}

abbrev server : Server
server = record {
  flags = record {
    jobs = 2;
    max_retries = 2;
    test_count = 1;
    fail_fast = false;
    json_summary = false;
    goos = text "linux";
    goarch = text "amd64";
  };
  profile = empty_profile;
  cancelled = false;
  pkgs = (text "p", pkg_p) ∷ [];
  cache_checks = 0;
  cache_hits = 0;
  fail_fast_triggered = false;
  history_pending = [];
}

abbrev schedule : List Scheduled
schedule =
    record {
      pkg = text "p";
      test = text "TestB";
      estimate = record { duration = 30; known = true };
    }
    ∷ record {
      pkg = text "p";
      test = text "TestA";
      estimate = record { duration = 20; known = false };
    }
    ∷ []

-- TestA has 18 nanoseconds left and runs beside TestB.
eta_run : test_eta_locked true testing 2 [] 7 server schedule ≡ (30, 1, true)
unfolding test_eta_locked lookup text_beq
eta_run = refl

test_eta_locked-bounds_example :
    ((test_eta_locked true testing 2 [] 7 server schedule).0 ≤ total_left 2 [] 7 server schedule)
    × (total_left 2 [] 7 server schedule
        ≤ capacity_of 2 [] * (test_eta_locked true testing 2 [] 7 server schedule).0)
test_eta_locked-bounds_example =
    test_eta_locked-bounds true testing 2 [] 7 server schedule refl refl
