-- ===== src/Fleet/Reach.antt =====
-- distributed.go: the states that the fleet reaches by any interleaving of its calls.
use gotst.Prelude.{
  ℕ, ◌+◌, ◌<◌, ◌≡◌, refl, Bool, true, ◌||◌, List, [], ◌∷◌, Option, some, arith, nat_eq, eqb, Text,
  is_some, lookup, insert, get_elem?, length, All, Returns, Returns-bind, Returns-self, Returns-eq,
  Option-cases, Bool-cases, inl, inr,
}
use gotst.Server.{Server, TestTask}
use gotst.Server.StatusLaws.{has_test, Keeps-refl}
use gotst.Fleet.Data.{
  Fleet, WorkerWork, WorkerRequest, WorkerResponse, WorkerResult, new_fleet, running, armed,
  worker_batch_limit, u64_mod,
}
use gotst.Fleet.Leases.{add_worker, disconnect}
use gotst.Fleet.Accept.{accept}
use gotst.Fleet.Assign.{assign_locked}
use gotst.Fleet.Exchange.{exchange, stop}
use gotst.Fleet.Run.{start, Local, waits, run_lease, local_assign}
use gotst.Fleet.Views.{holds_in, is_known}
use gotst.Fleet.Invariant.{Inv, new_fleet-Inv, disconnect-Inv}
use gotst.Fleet.AcceptLaws.{Accepted, accept-Accepted}
use gotst.Fleet.Batch.{Granted, assign_locked-Granted}
use gotst.Fleet.Report.{put_object-Inv, update_task-bind}
use gotst.Fleet.Rounds.{Exchanged, exchange-Exchanged, Stopped, stop-Stopped}
use gotst.Fleet.Start.{add_worker-Inv, start-Started}

run_lease-Inv :
    (now id : ℕ) (f : Fleet)
    → Inv f
    → is_known f.objects id ≡ true
    → Returns (λ r. Inv r.1) (run_lease now id f)
unfolding run_lease
run_lease-Inv now id f v h =
    Returns-bind (λ l. lookup id f.objects ≡ some l) (λ r. Inv r.1) (lookup id f.objects) _
      (Returns-self (lookup id f.objects) (unfold is_known in h))
      (λ l e.
        let l' = record l { cancel = armed; state = running; started = some now } in
        let marked = record f { objects = insert id l' f.objects } in
        let mv : Inv marked =
          put_object-Inv id l l' f f.server v e refl refl (Keeps-refl f.server) in
        elim (Option-cases (get_elem? f.work l.work)) [
          | inl gone ↦ ground (arith, v.links.reachable id l e)
          | inr (t, at) ↦
              update_task-bind (λ r. Inv r.1) now l.work marked t _ mv at
                (λ s ks. put_object-Inv id l l' f s v e refl refl ks)
        ])

run_first-Inv :
    (now wi : ℕ) (batch : List WorkerWork) (g : Fleet)
    → Inv g
    → All (λ (x : WorkerWork). holds_in g.workers wi x.lease ≡ true) batch
    → Returns
        (λ (r : Local × Fleet). Inv r.1)
        (elim batch [ [] ↦ some (waits, g) | x ∷ xs ↦ run_lease now x.lease g ])
run_first-Inv now wi [] g v h = v
run_first-Inv now wi (x ∷ xs) g v h =
    let held = h.0 in
    run_lease-Inv now x.lease g v
      (ground (arith, v.links.workers wi x.lease, v.links.known x.lease))

-- A round of a local worker of a fleet with the invariant and a lease number left does not fail
-- and keeps the invariant.
pub local_assign-Inv :
    (now wi : ℕ) (f : Fleet)
    → Inv f
    → f.next_id + 1 < u64_mod
    → is_some (get_elem? f.workers wi) ≡ true
    → Returns (λ r. Inv r.1) (local_assign now wi f)
unfolding local_assign
local_assign-Inv now wi f v small p =
    elim (Bool-cases (f.stopped || f.server.cancelled || eqb f.done (length f.work))) [
      | inl over ↦ rw over v
      | inr on ↦ rw on (
          Returns-bind (Granted wi 1 [] f) (λ r. Inv r.1) (assign_locked wi 1 now f) _
            (assign_locked-Granted wi 1 now f v small p)
            (λ r g. run_first-Inv now wi r.0 r.1 g.inv (g.leased tt)))
    ]

-- The fleets of a run, whatever the order of the calls; each call holds the lock, so no two overlap.
-- The times and the messages are arbitrary. `others` is a change by other parts of the server, which
-- do not take tests away.
pub data Reaches : Fleet → Type 0 where
  created : (s : Server) → Reaches (new_fleet s)
  others :
      {f : Fleet} (s : Server)
      → Reaches f
      → ((x : TestTask) → has_test f.server x ≡ true → has_test s x ≡ true)
      → Reaches (record f { server = s })
  joined :
      {f : Fleet} (now : ℕ) (name : Text) (slots : ℕ) (local : Bool)
      → Reaches f
      → Reaches (add_worker now name slots local f)
  started :
      {f : Fleet} (estimate : TestTask → ℕ) (wi : ℕ) (tasks : List TestTask)
      → Reaches f
      → f.work ≡ []
      → All (λ x. has_test f.server x ≡ true) tasks
      → Reaches (start estimate wi tasks f)
  exchanged :
      {f g : Fleet} {res : WorkerResponse} (now wi : ℕ) (req : WorkerRequest)
      → Reaches f
      → f.next_id + worker_batch_limit < u64_mod
      → is_some (get_elem? f.workers wi) ≡ true
      → exchange now wi req f ≡ some (res, g)
      → Reaches g
  assigned :
      {f g : Fleet} {l : Local} (now wi : ℕ)
      → Reaches f
      → f.next_id + 1 < u64_mod
      → is_some (get_elem? f.workers wi) ≡ true
      → local_assign now wi f ≡ some (l, g)
      → Reaches g
  accepted :
      {f g : Fleet} (now wi : ℕ) (r : WorkerResult)
      → Reaches f
      → is_some (get_elem? f.workers wi) ≡ true
      → accept now wi r f ≡ some g
      → Reaches g
  disconnected :
      {f g : Fleet} (now wi : ℕ) (error : Option Text)
      → Reaches f
      → is_some (get_elem? f.workers wi) ≡ true
      → disconnect now wi error f ≡ some g
      → Reaches g
  stopped : {f g : Fleet} (now : ℕ) → Reaches f → stop now f ≡ some g → Reaches g

others-Inv :
    (f : Fleet) (s : Server)
    → ((x : TestTask) → has_test f.server x ≡ true → has_test s x ≡ true)
    → Inv f
    → Inv (record f { server = s })
others-Inv f s h v = record {
  links = record {
    known = v.links.known;
    workers = v.links.workers;
    tasks = v.links.tasks;
    reachable = v.links.reachable;
    fresh = v.links.fresh;
  };
  tests = λ j x e. h x (v.tests j x e);
  done_free = v.done_free;
  counted = v.counted;
  credited = v.credited;
}

-- In every fleet that a run reaches by any order of its calls, the three lease maps agree, a done
-- task has no lease, the counter of done tasks is right and each done task is credited to one
-- worker.
pub Reaches-Inv : {f : Fleet} → Reaches f → Inv f
Reaches-Inv (created s) = new_fleet-Inv s
Reaches-Inv (others {f = f} s r h) = others-Inv f s h (Reaches-Inv r)
Reaches-Inv (joined now name slots local r) = add_worker-Inv now name slots local _ (Reaches-Inv r)
Reaches-Inv (started estimate wi tasks r e h) =
    let s = start-Started estimate wi tasks _ (Reaches-Inv r) e h in s.inv
Reaches-Inv (exchanged {f = f} now wi req r small p e) =
    let x =
      Returns-eq (Exchanged now wi req f) _ _ e
        (exchange-Exchanged now wi req f (Reaches-Inv r) small p) in
    x.inv
Reaches-Inv (assigned {f = f} now wi r small p e) =
    Returns-eq (λ (q : Local × Fleet). Inv q.1) _ _ e
      (local_assign-Inv now wi f (Reaches-Inv r) small p)
Reaches-Inv (accepted {f = f} now wi x r p e) =
    let a = Returns-eq (Accepted wi x f) _ _ e (accept-Accepted now wi x f (Reaches-Inv r) p) in
    a.inv
Reaches-Inv (disconnected {f = f} now wi error r p e) =
    Returns-eq Inv _ _ e (disconnect-Inv now wi error f (Reaches-Inv r) p)
Reaches-Inv (stopped {f = f} now r e) =
    let s = Returns-eq (Stopped f) _ _ e (stop-Stopped now f (Reaches-Inv r)) in s.inv
