-- ===== src/Schedule/Estimates.antt =====
-- history.go: prepareTestEstimates.
use gotst.Prelude.{
  ℕ, ◌+◌, ◌-◌, ◌*◌, ◌/◌, ◌%◌, max, Bool, true, false, List, [], ◌∷◌, Option, none, some, leb, eqb,
  get_elem?, length, if◌then◌else◌,
}
use gotst.Go.Sort.{sort_by}
use gotst.History.{Observation}
use gotst.Server.{TestTask}
use gotst.Schedule.Latest.{latest}

-- `testEstimate`
pub record TestEstimate : Type 0 where
  pub duration : ℕ
  pub known : Bool

abbrev pub default_test_estimate : ℕ
default_test_estimate = 100_000_000

-- The time of one run of a test, if its newest observation has one.
unfoldable pub per_run : List Observation → Option ℕ
unfolding latest
per_run os = elim (latest os) [
  | none ↦ none
  | some o ↦ if eqb o.duration 0 then none else some (o.duration / max 1 o.attempts)
]

unfoldable pub known_runs : (TestTask → List Observation) → List TestTask → List ℕ
unfolding per_run
known_runs observations [] = []
known_runs observations (t ∷ ts) =
    let rest = known_runs observations ts in
    elim (per_run (observations t)) [ none ↦ rest | some d ↦ d ∷ rest ]

abbrev pub element : List ℕ → ℕ → ℕ
element xs i = elim (get_elem? xs i) [ none ↦ 0 | some x ↦ x ]

-- The median of the known times, which are sorted here.
unfoldable pub median : List ℕ → ℕ
median [] = default_test_estimate
median (k ∷ ks) =
    let known = sort_by leb (k ∷ ks) in
    let mid = length known / 2 in
    if eqb (length known % 2) 0
    then element known (mid - 1) + (element known mid - element known (mid - 1)) / 2
    else element known mid

-- The estimate of a task among those that are run.
unfoldable pub estimate_of :
    (TestTask → List Observation) → ℕ → List TestTask → TestTask → TestEstimate
unfolding per_run known_runs median
estimate_of observations test_count tasks t = elim (per_run (observations t)) [
  | some d ↦ record { duration = d * test_count; known = true }
  | none ↦ record { duration = median (known_runs observations tasks) * test_count; known = false }
]
