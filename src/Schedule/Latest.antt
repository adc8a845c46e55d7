-- ===== src/Schedule/Latest.antt =====
-- history.go: compareHistoryObservations, the newest observation, and orderTestTasksByHistory.
use gotst.Prelude.{
  ℕ, Bool, true, false, not, List, [], ◌∷◌, Option, none, some, text_eq, ltb, eqb, if◌then◌else◌,
}
use Prim.Native.Nat.{Ordering}
use gotst.Go.Strings.{compare_text}
use gotst.Go.Sort.{sort_by}
use gotst.History.{TestOutcome, fail, Observation}
use gotst.Server.{TestTask}

-- Whether `a` comes before `b`: it is newer, or its id is smaller at the same time.
unfoldable pub newer : Observation → Observation → Bool
newer a b =
    if eqb a.observed_at b.observed_at
    then (elim (compare_text a.id b.id) [ Ordering.lt ↦ true | _ ↦ false ])
    else ltb b.observed_at a.observed_at

-- The loop for the newest observation.
unfoldable pub latest_of : Observation → List Observation → Observation
latest_of latest [] = latest
latest_of latest (o ∷ os) = latest_of (if newer o latest then o else latest) os

unfoldable pub latest : List Observation → Option Observation
unfolding latest_of
latest [] = none
latest (o ∷ os) = some (latest_of o os)

-- `priority`; a missing key is the zero value.
pub record Priority : Type 0 where
  pub failed : Bool
  pub known : Bool
  pub duration : ℕ

abbrev pub is_fail : TestOutcome → Bool
is_fail fail = true
is_fail _ = false

unfoldable pub priority_of : Option Observation → Priority
priority_of none = record { failed = false; known = false; duration = 0 }
priority_of (some o) = record { failed = is_fail o.outcome; known = true; duration = o.duration }

-- Whether the comparison of `orderTestTasksByHistory` does not put `b` before `a`.
unfoldable pub runs_before : (TestTask → Priority) → TestTask → TestTask → Bool
runs_before priorities a b =
    let p = priorities a in
    let q = priorities b in
    let names : Bool = elim (compare_text a.bin.pkg b.bin.pkg) [
      | Ordering.lt ↦ true
      | Ordering.gt ↦ false
      | Ordering.eq ↦ elim (compare_text a.test b.test) [ Ordering.gt ↦ false | _ ↦ true ]
    ] in
    if not (if p.failed then q.failed else not q.failed)
    then p.failed
    else if not (eqb p.duration q.duration)
    then ltb q.duration p.duration
    else if not (if p.known then q.known else not q.known)
    then p.known
    else names

-- `orderTestTasksByHistory`; `observations` reads the history of a task.
unfoldable pub order_test_tasks : (TestTask → List Observation) → List TestTask → List TestTask
unfolding runs_before priority_of latest
order_test_tasks observations =
    sort_by (runs_before (λ task. priority_of (latest (observations task))))
