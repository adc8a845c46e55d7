-- ===== src/Fleet/Leases.antt =====
-- distributed.go: notify, addWorker, removeLeaseLocked, updateRunningLocked and disconnect. `none` is
-- a panic, as a missing test or lease would raise.
use gotst.Prelude.{
  ℕ, ◌+◌, Bool, true, false, ◌||◌, List, [], ◌∷◌, ◌++◌, Option, none, some, Text, text, text_eq,
  nat_eq, lookup, insert, delete, modify, get_elem?, length, ltb, if◌then◌else◌, ◌>>=◌,
}
use gotst.Go.Duration.{decimal}
use gotst.Server.{Server, testing, find_test, put_test}
use gotst.Fleet.Data.{
  Fleet, FleetWorker, FleetTask, WorkLease, LeaseState, running, Cancel, no_cancel, armed, called,
}

unfoldable pub notify : Fleet → Fleet
notify f = record f { wake = true }

-- The new worker stands at the end of `workers`.
unfoldable pub add_worker : ℕ → Text → ℕ → Bool → Fleet → Fleet
add_worker now name slots local f = record f {
  workers =
      f.workers
      ++ record {
        id = if local then text "leader" else text "h" ++ decimal (length f.workers + 1);
        name = name;
        slots = slots;
        connected = true;
        last_seen = now;
        joined = now;
        left = none;
        completed = 0;
        cached = 0;
        failed = 0;
        duration = 0;
        error = [];
        binaries = [];
        leases = [];
      }
        ∷ [];
}

-- `time.Time.Before`, where the zero time is before all others.
unfoldable pub before : Option ℕ → Option ℕ → Bool
before none none = false
before none (some b) = true
before (some a) none = false
before (some a) (some b) = ltb a b

abbrev pub is_running : LeaseState → Bool
is_running running = true
is_running _ = false

abbrev pub is_zero : Option ℕ → Bool
is_zero none = true
is_zero (some t) = false

-- The loop of `updateRunningLocked`: whether a lease runs, and the earliest start.
unfoldable pub running_since :
    List (ℕ × WorkLease) → Bool × Option ℕ → List ℕ → Option (Bool × Option ℕ)
unfolding before
running_since objects acc [] = some acc
running_since objects acc (id ∷ ids) = do
  l ← lookup id objects
  let start = if is_zero acc.1 || before l.started acc.1 then l.started else acc.1
  running_since objects (if is_running l.state then (true, start) else acc) ids

-- `updateRunningLocked` on the leases of a task.
unfoldable pub update_running_locked : ℕ → List (ℕ × WorkLease) → FleetTask → Server → Option Server
unfolding running_since
update_running_locked now objects t s = do
  found ← find_test s t.task
  let ps = found.0
  let ts = found.1
  if ts.done then some s else do
    since ← running_since objects (false, none) t.leases
    let state = if since.0 then testing else ps.pkg_state
    some (
        put_test s t.task (record ps { changed = now; pkg_state = state })
          (record ts { running = since.0; started = since.1; changed = now }))

abbrev pub call : Cancel → Cancel
call no_cancel = no_cancel
call armed = called
call called = called

-- The deletions of `removeLeaseLocked`, and the call of `cancel`.
unfoldable pub unlink : ℕ → WorkLease → Fleet → Fleet
unlink id l f = record f {
  leases = delete id f.leases;
  workers =
      modify l.worker (λ (w : FleetWorker). record w { leases = delete id w.leases }) f.workers;
  work = modify l.work (λ (t : FleetTask). record t { leases = delete id t.leases }) f.work;
  objects = insert id (record l { cancel = call l.cancel }) f.objects;
}

-- The task of a lease is updated after the lease is gone.
unfoldable pub update_task : ℕ → ℕ → Fleet → Option Fleet
unfolding update_running_locked
update_task now i f = do
  t ← get_elem? f.work i
  s ← update_running_locked now f.objects t f.server
  some (record f { server = s })

unfoldable pub remove_lease_locked : ℕ → ℕ → Fleet → Option Fleet
unfolding unlink update_task
remove_lease_locked now id f = do l ← lookup id f.objects; update_task now l.work (unlink id l f)

-- A loop over a map of leases that removes each.
unfoldable pub remove_leases : ℕ → List ℕ → Fleet → Option Fleet
unfolding remove_lease_locked
remove_leases now [] f = some f
remove_leases now (id ∷ ids) f = do f' ← remove_lease_locked now id f; remove_leases now ids f'

abbrev pub disconnected : ℕ → Option Text → FleetWorker → FleetWorker
disconnected now error w = record w {
  connected = false;
  left = some now;
  error = elim error [ none ↦ w.error | some e ↦ e ];
}

-- `disconnect`; the error as its text, `none` for nil.
unfoldable pub disconnect : ℕ → ℕ → Option Text → Fleet → Option Fleet
unfolding remove_leases notify
disconnect now wi error f = do
  w ← get_elem? f.workers wi
  f' ←
      remove_leases now w.leases
        (record f { workers = modify wi (disconnected now error) f.workers })
  some (notify f')
