-- ===== src/Fleet/Run.antt =====
-- distributed.go: the start of the leader's run, when the tests are listed, and what its local
-- workers do with the fleet.
use gotst.Prelude.{
  ℕ, Bool, true, false, ◌||◌, List, [], ◌∷◌, ◌++◌, map, Option, some, leb, eqb, modify, Text,
  lookup, insert, nat_eq, length, if◌then◌else◌, ◌>>=◌,
}
use gotst.Go.Sort.{sort_by}
use gotst.Server.{TestTask, bin_hash}
use gotst.Fleet.Data.{Fleet, FleetWorker, FleetTask, running, armed}
use gotst.Fleet.Leases.{update_task}
use gotst.Fleet.Assign.{assign_locked}
use gotst.Fleet.Exchange.{add_all}

abbrev pub new_task : (TestTask → ℕ) → TestTask → FleetTask
new_task estimate task = record { task = task; estimate = estimate task; done = false; leases = [] }

-- Longer tasks come first; the sort is stable.
abbrev pub no_shorter : FleetTask → FleetTask → Bool
no_shorter a b = leb b.estimate a.estimate

abbrev pub hashes : List TestTask → List Text
hashes = map (λ task. bin_hash task.bin.abs_bin)

-- The key of a task in the schedule and the estimates.
abbrev pub schedule_id : FleetTask → Text
schedule_id t = t.task.bin.pkg ++ (0 ∷ t.task.test)

-- `run` before its loop, with the leader's worker at `wi`; `estimate` reads `testEstimates`.
unfoldable pub start : (TestTask → ℕ) → ℕ → List TestTask → Fleet → Fleet
start estimate wi tasks f =
    let work = sort_by no_shorter (f.work ++ map (new_task estimate) tasks) in
    record f {
      work = work;
      workers =
          modify wi (λ (w : FleetWorker). record w { binaries = add_all w.binaries (hashes tasks) })
            f.workers;
      test_schedule = map schedule_id work;
      ready = true;
    }

-- What a local worker does next: it ends, waits, or executes the task of a lease.
pub data Local : Type 0 where
  ends waits : Local
  executes : ℕ → Local

-- The lease that a local worker got runs at once.
unfoldable pub run_lease : ℕ → ℕ → Fleet → Option (Local × Fleet)
unfolding update_task
run_lease now id f = do
  l ← lookup id f.objects
  let l' = record l { cancel = armed; state = running; started = some now }
  f' ← update_task now l.work (record f { objects = insert id l' f.objects })
  some (executes id, f')

-- A round of `localWorker` until it executes a test.
unfoldable pub local_assign : ℕ → ℕ → Fleet → Option (Local × Fleet)
unfolding assign_locked run_lease
local_assign now wi f =
    if f.stopped || f.server.cancelled || eqb f.done (length f.work) then some (ends, f) else do
      r ← assign_locked wi 1 now f
      elim r.0 [ [] ↦ some (waits, r.1) | x ∷ xs ↦ run_lease now x.lease r.1 ]
