-- ===== src/Summary/Data.antt =====
-- summary.go: fleetSummaryLocked and roundDuration; progress.go: setPhase. Times are nanoseconds, and
-- a time is not before the start of the run.
use gotst.Prelude.{
  ℕ, ◌+◌, ◌-◌, ◌*◌, ◌/◌, max, Bool, true, false, ◌&&◌, List, [], ◌∷◌, ◌++◌, Option, none, some,
  Text, ltb, if◌then◌else◌,
}
use gotst.Go.Duration.{millisecond, second}
use gotst.Progress.{RunPhase, testing, done, failed}
use gotst.Fleet.{FleetWorker}

-- `phaseStart`
pub record PhaseStart : Type 0 where
  pub phase : RunPhase
  pub at : ℕ

-- `setPhase` on the starts of the phases.
unfoldable pub set_phase : RunPhase → ℕ → List PhaseStart → List PhaseStart
set_phase phase now starts = starts ++ record { phase = phase; at = now } ∷ []

-- `phaseDuration`
pub record PhaseDuration : Type 0 where
  pub phase : RunPhase
  pub duration : ℕ

-- `workerSummary`. What is busy is the worker's test time and the time of its slots, of which the code
-- takes the quotient; none is its negative number.
pub record WorkerSummary : Type 0 where
  pub id : Text
  pub name : Text
  pub error : Text
  pub slots : ℕ
  pub completed : ℕ
  pub cached : ℕ
  pub failed : ℕ
  pub joined : ℕ
  pub test_time : ℕ
  pub busy : Option (ℕ × ℕ)

-- `fleetSummary`
pub record FleetSummary : Type 0 where
  pub phases : List PhaseDuration
  pub workers : List WorkerSummary

abbrev pub is_end : RunPhase → Bool
is_end done = true
is_end failed = true
is_end _ = false

abbrev pub is_testing : RunPhase → Bool
is_testing testing = true
is_testing _ = false

-- When a phase ends: at the start of the next one, or at the end.
unfoldable pub next_start : ℕ → List PhaseStart → ℕ
next_start end [] = end
next_start end (p ∷ ps) = p.at

-- The first loop: the durations of the phases.
unfoldable pub phase_durations : ℕ → List PhaseStart → List PhaseDuration
unfolding next_start
phase_durations end [] = []
phase_durations end (p ∷ ps) =
    let rest = phase_durations end ps in
    if is_end p.phase
    then []
    else record { phase = p.phase; duration = next_start end ps - p.at } ∷ rest

-- The first loop: the last phase of tests, from its start to its end.
unfoldable pub test_span : ℕ → List PhaseStart → Option (ℕ × ℕ) → Option (ℕ × ℕ)
unfolding next_start
test_span end [] span = span
test_span end (p ∷ ps) span =
    let tested = test_span end ps (some (p.at, next_start end ps)) in
    let rest = test_span end ps span in
    if is_end p.phase then span else if is_testing p.phase then tested else rest

-- The time of the phase of tests in which a worker was connected.
unfoldable pub connected_until : ℕ → FleetWorker → ℕ
connected_until test_end w = elim w.left [
  | none ↦ test_end
  | some left ↦ if ltb left test_end then left else test_end
]

unfoldable pub busy_of : Option (ℕ × ℕ) → FleetWorker → Option (ℕ × ℕ)
unfolding connected_until
busy_of none w = none
busy_of (some (test_start, test_end)) w =
    let from = max w.joined test_start in
    let to = connected_until test_end w in
    if ltb from to && ltb 0 w.slots then some (w.duration, (to - from) * w.slots) else none

unfoldable pub summarize : ℕ → Option (ℕ × ℕ) → FleetWorker → WorkerSummary
unfolding busy_of
summarize start span w = record {
  id = w.id;
  name = w.name;
  error = w.error;
  slots = w.slots;
  completed = w.completed;
  cached = w.cached;
  failed = w.failed;
  joined = w.joined - start;
  test_time = w.duration;
  busy = busy_of span w;
}

unfoldable pub summarize_all : ℕ → Option (ℕ × ℕ) → List FleetWorker → List WorkerSummary
unfolding summarize
summarize_all start span [] = []
summarize_all start span (w ∷ ws) = summarize start span w ∷ summarize_all start span ws

-- `fleetSummaryLocked` of a run that began at `start`.
unfoldable pub fleet_summary_locked : ℕ → List PhaseStart → List FleetWorker → ℕ → FleetSummary
unfolding phase_durations test_span summarize_all
fleet_summary_locked start starts workers end = record {
  phases = phase_durations end starts;
  workers = summarize_all start (test_span end starts none) workers;
}

-- `roundDuration`, half up.
unfoldable pub round_duration : ℕ → ℕ
round_duration d =
    if ltb d second
    then (d + millisecond / 2) / millisecond * millisecond
    else (d + second / 2) / second * second
