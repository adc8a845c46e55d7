-- ===== src/Fleet/Exchange.antt =====
-- distributed.go: exchange, and the end of the leader's run.
use gotst.Prelude.{
  ℕ, ◌+◌, ◌-◌, min, Bool, true, false, not, ◌&&◌, ◌||◌, List, [], ◌∷◌, ◌++◌, Option, none, some,
  Text, text, text_eq, nat_eq, lookup, insert, modify, get_elem?, length, eqb, if◌then◌else◌, ◌>>=◌,
  is_empty, contains, ◌==◌,
}
use gotst.Server.{Server, TestTask, find_test, put_test, testing}
use gotst.Fleet.Data.{
  Fleet, FleetWorker, WorkLease, LeaseState, queued, building, running, WorkerResult, WorkerRequest,
  WorkerResponse, worker_batch_limit,
}
use gotst.Fleet.Leases.{update_task, remove_leases, is_zero}
use gotst.Fleet.Assign.{assign_locked}
use gotst.Fleet.Accept.{accept}

unfoldable pub accept_all : ℕ → ℕ → List WorkerResult → Fleet → Option Fleet
unfolding accept
accept_all now wi [] f = some f
accept_all now wi (r ∷ rs) f = do f' ← accept now wi r f; accept_all now wi rs f'

-- The states that a helper may report.
unfoldable pub parse_state : Text → Option LeaseState
parse_state s =
    if s == text "queued"
    then some queued
    else if s == text "building"
    then some building
    else if s == text "running"
    then some running
    else none

-- `ps.pkgState, ps.changed = pkgStateTesting, now`
unfoldable pub mark_testing : ℕ → TestTask → Server → Option Server
mark_testing now task s = do
  found ← find_test s task
  some (put_test s task (record found.0 { pkg_state = testing; changed = now }) found.1)

abbrev pub started_at : ℕ → LeaseState → WorkLease → Option ℕ
started_at now running l = if is_zero l.started then some now else l.started
started_at now _ l = l.started

-- One entry of `req.Active` for a lease that the worker holds.
unfoldable pub report_state : ℕ → ℕ → LeaseState → Fleet → Option Fleet
unfolding update_task mark_testing
report_state now id state f = do
  l ← lookup id f.objects
  let l' = record l { started = started_at now state l; state = state }
  f' ← update_task now l.work (record f { objects = insert id l' f.objects })
  t ← get_elem? f'.work l.work
  s ← mark_testing now t.task f'.server
  some (record f' { server = s })

-- The loop over `req.Active`, with the numbers to cancel so far.
unfoldable pub report_all : ℕ → ℕ → List (ℕ × Text) → List ℕ → Fleet → Option (List ℕ × Fleet)
unfolding report_state parse_state
report_all now wi [] cancel f = some (cancel, f)
report_all now wi ((id, state) ∷ rest) cancel f = do
  w ← get_elem? f.workers wi
  elim (contains w.leases id) [
    | false ↦ report_all now wi rest (cancel ++ id ∷ []) f
    | true ↦ elim (parse_state state) [
      | none ↦ report_all now wi rest cancel f
      | some st ↦ do f' ← report_state now id st f; report_all now wi rest cancel f'
    ]
  ]

unfoldable pub add_all : List Text → List Text → List Text
add_all known [] = known
add_all known (h ∷ hs) = add_all (if contains known h then known else known ++ h ∷ []) hs

unfoldable pub is_over : Fleet → Bool
is_over f = f.stopped || f.server.cancelled || (f.ready && eqb f.done (length f.work))

unfoldable pub exchange : ℕ → ℕ → WorkerRequest → Fleet → Option (WorkerResponse × Fleet)
unfolding accept_all add_all report_all is_over
exchange now wi req f = do
  f1 ← accept_all now wi req.results f
  let seen =
      λ (w : FleetWorker). record w { last_seen = now; binaries = add_all w.binaries req.binaries }
  reported ← report_all now wi req.active [] (record f1 { workers = modify wi seen f1.workers })
  let f2 = reported.1
  w ← get_elem? f2.workers wi
  let over = is_over f2
  let limit = min worker_batch_limit (w.slots + worker_batch_limit - length w.leases)
  if over || not (is_empty w.error)
      then some (record { work = []; cancel = reported.0; done = over; error = w.error }, f2)
      else do
        assigned ← assign_locked wi limit now f2
        some (
          record { work = assigned.0; cancel = reported.0; done = over; error = w.error },
          assigned.1,
        )

-- The end of `run`: no result is taken any more, and every lease is removed.
unfoldable pub stop : ℕ → Fleet → Option Fleet
unfolding remove_leases
stop now f = remove_leases now f.leases (record f { stopped = true })
