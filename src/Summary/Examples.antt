-- ===== src/Summary/Examples.antt =====
-- summary.go: a run that builds, tests with a leader and a helper that leaves, and is done.
use gotst.Prelude.{arith, ◌≡◌, refl, true, [], ◌∷◌, List, none, some, text}
use gotst.Progress.{building, testing, done}
use gotst.Fleet.{FleetWorker}
use gotst.Summary.{next_start, PhaseStart, set_phase, fleet_summary_locked}
use gotst.Summary.Laws.{Summarizes, fleet_summary_locked-Summarizes}

abbrev starts : List PhaseStart
starts = set_phase done 60 (set_phase testing 30 (set_phase building 10 []))

abbrev leader : FleetWorker
leader = record {
  id = text "leader";
  name = text "local";
  slots = 2;
  connected = true;
  last_seen = 60;
  joined = 5;
  left = none;
  completed = 3;
  cached = 0;
  failed = 0;
  duration = 45;
  error = [];
  binaries = [];
  leases = [];
}

abbrev helper : FleetWorker
helper = record leader { id = text "w1"; joined = 40; left = some 50; slots = 1; duration = 8 }

phases_run :
    (fleet_summary_locked 5 starts (leader ∷ helper ∷ []) 70).phases
    ≡ record { phase = building; duration = 20 } ∷ record { phase = testing; duration = 30 } ∷ []
unfolding fleet_summary_locked set_phase
phases_run = refl

-- The helper was connected for ten nanoseconds.
busy_run :
    (fleet_summary_locked 5 starts (leader ∷ helper ∷ []) 70).workers
    ≡ record {
      id = text "leader";
      name = text "local";
      error = [];
      slots = 2;
      completed = 3;
      cached = 0;
      failed = 0;
      joined = 0;
      test_time = 45;
      busy = some (45, 60);
    }
      ∷ record {
        id = text "w1";
        name = text "local";
        error = [];
        slots = 1;
        completed = 3;
        cached = 0;
        failed = 0;
        joined = 35;
        test_time = 8;
        busy = some (8, 10);
      }
      ∷ []
unfolding fleet_summary_locked set_phase
busy_run = refl

fleet_summary_locked-Summarizes_example :
    Summarizes starts 70 (fleet_summary_locked 5 starts (leader ∷ helper ∷ []) 70)
unfolding set_phase next_start
fleet_summary_locked-Summarizes_example =
    fleet_summary_locked-Summarizes 5 starts (leader ∷ helper ∷ []) 70
      (omega arith, (omega arith, (omega arith, tt)))
