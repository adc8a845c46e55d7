-- ===== src/Fleet/Assign.antt =====
-- distributed.go: nextLocked and assignLocked.
use gotst.Prelude.{
  ℕ, zero, suc, ◌+◌, ◌-◌, ◌*◌, ◌/◌, ◌%◌, max, Bool, false, not, ◌&&◌, ◌||◌, List, [], ◌∷◌, ◌++◌,
  Option, none, some, Text, text_eq, nat_eq, lookup, insert, modify, get_elem?, length, ltb, leb,
  eqb, if◌then◌else◌, ◌>>=◌, is_empty, contains,
}
use gotst.Server.{bin_hash, effective_test_args}
use gotst.Fleet.Data.{
  Fleet, FleetWorker, FleetTask, WorkLease, queued, no_cancel, WorkerWork, worker_batch_target,
  u64_mod,
}

-- The first loop of `nextLocked`, over the tasks from position `i` on: `first` is the first task
-- that is neither done nor leased, with its estimate, and `window` counts such tasks. The result is
-- the task to return, or what `first` is at the end.
unfoldable pub next_fresh : List Text → ℕ → Option (ℕ × ℕ) → ℕ → List FleetTask → Option ℕ
next_fresh binaries i first window [] = elim first [ none ↦ none | some (j, e) ↦ some j ]
next_fresh binaries i first window (t ∷ ts) =
    let first' : ℕ × ℕ = elim first [ none ↦ (i, t.estimate) | some p ↦ p ] in
    let skip = next_fresh binaries (suc i) first window ts in
    let go_on = next_fresh binaries (suc i) (some first') (suc window) ts in
    if t.done || not (is_empty t.leases)
    then skip
    else if contains binaries (bin_hash t.task.bin.abs_bin)
        && leb (first'.1 - first'.1 / 5) t.estimate
    then some i
    else if eqb (suc window) 5
    then some first'.0
    else go_on

-- The lease of another worker that is older than ten seconds and than thrice the estimate.
unfoldable pub overdue : List (ℕ × WorkLease) → ℕ → ℕ → ℕ → ℕ → Bool
overdue objects wi now estimate id = elim (lookup id objects) [
  | none ↦ false
  | some l ↦ not (eqb l.worker wi) && ltb (max 10_000_000_000 (3 * estimate)) (now - l.assigned)
]

-- The second loop: the first task with one lease, which is overdue.
unfoldable pub next_overdue : List (ℕ × WorkLease) → ℕ → ℕ → ℕ → List FleetTask → Option ℕ
unfolding overdue
next_overdue objects wi now i [] = none
next_overdue objects wi now i (t ∷ ts) =
    let rest = next_overdue objects wi now (suc i) ts in
    if t.done then rest else elim t.leases [
      | [] ↦ rest
      | id ∷ ids ↦ if is_empty ids && overdue objects wi now t.estimate id then some i else rest
    ]

unfoldable pub next_locked : ℕ → FleetWorker → ℕ → Fleet → Option ℕ
unfolding next_fresh next_overdue
next_locked wi w now f = elim (next_fresh w.binaries 0 none 0 f.work) [
  | some i ↦ some i
  | none ↦ next_overdue f.objects wi now 0 f.work
]

-- The sum of the estimates of the tasks that the leases are for.
unfoldable pub leased_duration : Fleet → List ℕ → Option ℕ
leased_duration f [] = some 0
leased_duration f (id ∷ ids) = do
  l ← lookup id f.objects
  t ← get_elem? f.work l.work
  rest ← leased_duration f ids
  some (t.estimate + rest)

abbrev pub new_lease : ℕ → ℕ → ℕ → WorkLease
new_lease wi i now = record {
  work = i;
  worker = wi;
  assigned = now;
  started = none;
  state = queued;
  cancel = no_cancel;
}

-- A new lease on task `i`, whose number is the next one.
unfoldable pub add_lease : ℕ → ℕ → ℕ → Fleet → Fleet
add_lease wi i now f =
    let id = (f.next_id + 1) % u64_mod in
    let l = new_lease wi i now in
    record f {
      next_id = id;
      leases = f.leases ++ id ∷ [];
      workers =
          modify wi (λ (w : FleetWorker). record w { leases = w.leases ++ id ∷ [] }) f.workers;
      work = modify i (λ (t : FleetTask). record t { leases = t.leases ++ id ∷ [] }) f.work;
      objects = insert id l f.objects;
    }

abbrev pub work_of : ℕ → FleetTask → Fleet → WorkerWork
work_of id t f = record {
  lease = id;
  package_path = t.task.bin.pkg;
  test = t.task.test;
  binary = bin_hash t.task.bin.abs_bin;
  args = effective_test_args f.server.flags t.task f.server.profile;
}

-- The loop of `assignLocked`, of at most `limit` rounds, with the batch so far.
unfoldable pub assign_loop :
    ℕ → ℕ → ℕ → ℕ → List WorkerWork → Fleet → Option (List WorkerWork × Fleet)
unfolding next_locked add_lease
assign_loop zero wi now duration batch f = some (batch, f)
assign_loop (suc limit) wi now duration batch f = do
  w ← get_elem? f.workers wi
  let next = next_locked wi w now f
  let full = leb w.slots (length w.leases) && leb (worker_batch_target * w.slots) duration
  elim (if full then none else next) [
    | none ↦ some (batch, f)
    | some i ↦ do
      t ← get_elem? f.work i
      let f' = add_lease wi i now f
      assign_loop limit wi now (duration + t.estimate) (batch ++ work_of f'.next_id t f ∷ []) f'
  ]

unfoldable pub assign_locked : ℕ → ℕ → ℕ → Fleet → Option (List WorkerWork × Fleet)
unfolding assign_loop leased_duration
assign_locked wi limit now f = do
  w ← get_elem? f.workers wi
  if not f.ready || f.stopped || f.server.cancelled || not (is_empty w.error)
      then some ([], f)
      else do duration ← leased_duration f w.leases; assign_loop limit wi now duration [] f
