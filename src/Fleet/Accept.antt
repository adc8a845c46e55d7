-- ===== src/Fleet/Accept.antt =====
-- distributed.go: accept, which commits one result.
use gotst.Prelude.{
  ℕ, ◌+◌, Bool, true, not, ◌&&◌, ◌||◌, List, [], ◌∷◌, ◌++◌, map, Option, none, some, Text, text,
  text_eq, nat_eq, lookup, modify, get_elem?, if◌then◌else◌, ◌>>=◌, is_empty, contains, ◌==◌,
}
use gotst.History.{Observation}
use gotst.Server.{
  Server, TestTask, FailInfo, history_key_for_task, find_test, put_test, finish_test_locked,
}
use gotst.Fleet.Data.{Fleet, FleetWorker, FleetTask, WorkerFailure, WorkerResult}
use gotst.Fleet.Leases.{notify, remove_leases}

-- A helper's infrastructure failure releases all that it holds.
unfoldable pub release_worker : ℕ → ℕ → FleetWorker → Text → Fleet → Option Fleet
unfolding remove_leases notify
release_worker now wi w error f = do
  let text' = if is_empty error then text "helper execution error" else error
  let failing = λ (x : FleetWorker). record x { error = text' }
  f' ← remove_leases now w.leases (record f { workers = modify wi failing f.workers })
  some (notify f')

abbrev pub fail_infos : List WorkerFailure → List FailInfo
fail_infos = map (λ failure. record { dur = failure.duration; out = failure.output })

abbrev pub error_of : Text → Option Text
error_of e = if is_empty e then none else some e

-- The worker's counters with one more result.
unfoldable pub count_result : WorkerResult → FleetWorker → FleetWorker
count_result r w = record w {
  completed = w.completed + 1;
  duration = w.duration + r.duration;
  cached = if r.cached then w.cached + 1 else w.cached;
  failed = if r.passed then w.failed else w.failed + 1;
}

-- The server with the result's attempts, attributes, cache counters and history, and the test
-- finished.
unfoldable pub commit_server : ℕ → TestTask → WorkerResult → Server → Option Server
commit_server now task r s = do
  found ← find_test s task
  let noted = put_test s task found.0 (record found.1 { attempts = r.attempts; attrs = r.attrs })
  let key = history_key_for_task s.flags task s.profile
  let counted = record noted {
    cache_checks = s.cache_checks + r.cache_checks;
    cache_hits = if r.cached then s.cache_hits + 1 else s.cache_hits;
    history_pending =
        s.history_pending ++ map (λ (o : Observation). record o { key = key }) r.history;
  }
  finish_test_locked counted task r.passed r.duration (fail_infos r.failures) (error_of r.error)
      r.cached now

-- The end of `accept` under the lock: fail-fast.
unfoldable pub trigger_on_failure : Bool → Server → Server
trigger_on_failure passed s =
    if s.flags.fail_fast && not passed
    then record s { fail_fast_triggered = true; cancelled = true }
    else s

-- The changes of a commit before the leases of the task are removed.
unfoldable pub mark_committed : ℕ → ℕ → FleetTask → WorkerResult → Server → Fleet → Fleet
unfolding count_result
mark_committed wi ti t r s f = record f {
  work = modify ti (λ (x : FleetTask). record x { done = true }) f.work;
  done = f.done + 1;
  workers = modify wi (count_result r) f.workers;
  infra =
      if r.infra
      then f.infra ++ (t.task.bin.pkg ++ text "." ++ t.task.test ++ text ": " ++ r.error) ∷ []
      else f.infra;
  server = s;
}

unfoldable pub commit : ℕ → ℕ → ℕ → FleetTask → WorkerResult → Fleet → Option Fleet
unfolding mark_committed commit_server trigger_on_failure remove_leases notify
commit now wi ti t r f = do
  s ← commit_server now t.task r f.server
  f' ← remove_leases now t.leases (mark_committed wi ti t r s f)
  some (notify (record f' { server = trigger_on_failure r.passed f'.server }))

-- A result under a lease that the worker does not hold, for a task that is done or after the end
-- changes nothing.
unfoldable pub accept : ℕ → ℕ → WorkerResult → Fleet → Option Fleet
unfolding release_worker commit
accept now wi r f = do
  w ← get_elem? f.workers wi
  if not (contains w.leases r.lease) then some f else do
    l ← lookup r.lease f.objects
    t ← get_elem? f.work l.work
    if t.done || f.stopped || f.server.cancelled
        then some f
        else if r.infra && not (w.id == text "leader")
        then release_worker now wi w r.error f
        else commit now wi l.work t r f
