-- ===== src/Fleet/Rounds.antt =====
-- distributed.go: exchange as a whole, and the end of the run.
use gotst.Prelude.{
  Returns-with, ℕ, ◌+◌, ◌-◌, ◌≤◌, ◌<◌, ◌≡◌, refl, ap, ◌∙◌, Bool, true, false, not, ◌||◌, List, [],
  ◌∷◌, some, arith, nat_eq, Text, min, is_some, is_empty, contains, get_elem?, modify, length, All,
  Returns, Returns-bind, Returns-map, Returns-self, Bool-cases, inl, inr,
}
use gotst.Fleet.Data.{
  Fleet, FleetWorker, WorkerWork, WorkerResult, WorkerRequest, WorkerResponse, worker_batch_limit,
  u64_mod,
}
use gotst.Fleet.Leases.{remove_leases}
use gotst.Fleet.Accept.{accept}
use gotst.Fleet.Assign.{assign_locked}
use gotst.Fleet.Exchange.{accept_all, report_all, add_all, is_over, exchange, stop}
use gotst.Fleet.Views.{holds_in, target_is, done_in}
use gotst.Fleet.Tasks.{holds_in-modify, present-modify}
use gotst.Fleet.Removed.{Removed}
use gotst.Fleet.Removal.{remove_leases-Removed}
use gotst.Fleet.Invariant.{Inv, Inv-worker, Removed-Inv}
use gotst.Fleet.AcceptLaws.{Accepted, accept-Accepted}
use gotst.Fleet.Batch.{Granted, assign_locked-Granted}
use gotst.Fleet.Report.{Says, unheld, report_all-Reported}

-- Once a task is done, a result for any of its leases from any worker leaves the fleet as it is.
pub accept-once :
    (now wi j : ℕ) (r : WorkerResult) (f : Fleet)
    → Inv f
    → is_some (get_elem? f.workers wi) ≡ true
    → done_in f.work j ≡ true
    → target_is f.objects r.lease j ≡ true
    → accept now wi r f ≡ some f
unfolding accept holds_in
accept-once now wi j r f v p d t =
    ground (arith, v.links.workers wi r.lease, v.links.tasks j r.lease, v.done_free j r.lease)

-- Whether one of the results is for task `j`.
unfoldable pub answers : Fleet → List WorkerResult → ℕ → Bool
answers f [] j = false
answers f (r ∷ rs) j = target_is f.objects r.lease j || answers f rs j

-- `g` is `f` after the results.
pub record Collected (rs : List WorkerResult) (f g : Fleet) : Type 0 where
  pub inv : Inv g
  pub present : (i : ℕ) → is_some (get_elem? g.workers i) ≡ is_some (get_elem? f.workers i)
  pub next_id : g.next_id ≡ f.next_id
  pub keeps : (j : ℕ) → done_in f.work j ≡ true → done_in g.work j ≡ true
  pub only : (j : ℕ) → done_in g.work j ≡ true → (done_in f.work j || answers f rs j) ≡ true
  pub more : f.done ≤ g.done
  pub most : g.done ≤ f.done + length rs

answers-same :
    (f g : Fleet) (rs : List WorkerResult) (j : ℕ)
    → ((k i : ℕ) → target_is g.objects k i ≡ target_is f.objects k i)
    → answers g rs j ≡ answers f rs j
unfolding answers
answers-same f g [] j h = refl
answers-same f g (r ∷ rs) j h = ground (arith, h r.lease j, answers-same f g rs j h)

pub accept_all-Collected :
    (now wi : ℕ) (rs : List WorkerResult) (f : Fleet)
    → Inv f
    → is_some (get_elem? f.workers wi) ≡ true
    → Returns (Collected rs f) (accept_all now wi rs f)
unfolding accept_all answers
accept_all-Collected now wi [] f v p = record {
  inv = v;
  present = λ i. refl;
  next_id = refl;
  keeps = λ j h. h;
  only = λ j h. ground arith;
  more = omega arith;
  most = omega arith;
}
accept_all-Collected now wi (r ∷ rs) f v p =
    Returns-bind (Accepted wi r f) (Collected (r ∷ rs) f) (accept now wi r f) _
      (accept-Accepted now wi r f v p)
      (λ g a.
        Returns-map (Collected rs g) (Collected (r ∷ rs) f) (accept_all now wi rs g)
          (accept_all-Collected now wi rs g a.inv (a.present wi ∙ p))
          (λ h c. record {
            inv = c.inv;
            present = λ i. c.present i ∙ a.present i;
            next_id = c.next_id ∙ a.next_id;
            keeps = λ j d. c.keeps j (ground (arith, a.dones j));
            only = λ j d. ground (arith, c.only j d, a.dones j, answers-same f g rs j a.targets);
            more = ground (arith, c.more, a.done);
            most = ground (arith, c.most, a.done);
          }))

-- What an exchange answers, and the fleet after it; `middle` is the fleet when the results are in.
pub record Exchanged (now wi : ℕ) (req : WorkerRequest) (f : Fleet) (r : WorkerResponse × Fleet)
    : Type 0 where
  pub middle : Fleet
  pub accepts : accept_all now wi req.results f ≡ some middle
  pub collected : Collected req.results f middle
  pub inv : Inv r.1
  pub present : (i : ℕ) → is_some (get_elem? r.1.workers i) ≡ is_some (get_elem? f.workers i)
  pub dones : (j : ℕ) → done_in r.1.work j ≡ done_in middle.work j
  pub ids : r.1.next_id ≤ f.next_id + worker_batch_limit
  -- The run is over by the state after the results, and then nothing is sent.
  pub over : r.0.done ≡ is_over middle
  pub idle : r.0.done ≡ true → r.0.work ≡ []
  pub refused : is_empty r.0.error ≡ false → r.0.work ≡ []
  pub size : length r.0.work ≤ worker_batch_limit
  pub cancel : r.0.cancel ≡ unheld middle.workers wi req.active
  pub leased : All (λ (x : WorkerWork). holds_in r.1.workers wi x.lease ≡ true) r.0.work
  pub numbers : All (λ (x : WorkerWork). f.next_id < x.lease) r.0.work

unheld-same :
    (ws us : List FleetWorker) (wi : ℕ) (active : List (ℕ × Text))
    → ((k : ℕ) → holds_in ws wi k ≡ holds_in us wi k)
    → unheld ws wi active ≡ unheld us wi active
unfolding unheld
unheld-same ws us wi [] h = refl
unheld-same ws us wi ((id, state) ∷ rest) h = ground (arith, h id, unheld-same ws us wi rest h)

abbrev seen : ℕ → List Text → FleetWorker → FleetWorker
seen now hashes w = record w { last_seen = now; binaries = add_all w.binaries hashes }

module _ (now wi : ℕ) (req : WorkerRequest) (f f1 : Fleet)
    (accepts : accept_all now wi req.results f ≡ some f1) (c : Collected req.results f f1) where
  abbrev s1 : Fleet
  s1 = record f1 { workers = modify wi (seen now req.binaries) f1.workers }

  module _ (q : List ℕ × Fleet) (says : Says s1 (unheld s1.workers wi req.active) q) where
    same_over : is_over q.1 ≡ is_over f1
    unfolding is_over
    same_over = cc (says.0.work, says.0.done, says.0.ready, says.0.stopped, says.0.cancelled)

    same_cancel : q.0 ≡ unheld f1.workers wi req.active
    same_cancel =
        says.1
        ∙ unheld-same s1.workers f1.workers wi req.active
            (holds_in-modify wi (seen now req.binaries) f1.workers (λ w. refl) wi)

    same_present : (i : ℕ) → is_some (get_elem? q.1.workers i) ≡ is_some (get_elem? f.workers i)
    same_present i =
        ap (λ (ws : List FleetWorker). is_some (get_elem? ws i)) says.0.workers
        ∙ present-modify wi (seen now req.binaries) f1.workers i
        ∙ c.present i

    without_work :
        (error : Text)
        → Exchanged now wi req f
            (record { work = []; cancel = q.0; done = is_over q.1; error = error }, q.1)
    without_work error = record {
      middle = f1;
      accepts = accepts;
      collected = c;
      inv = says.0.inv;
      present = same_present;
      dones = λ j. ap (λ ts. done_in ts j) says.0.work;
      ids = omega (arith, says.0.next_id, c.next_id);
      over = same_over;
      idle = λ h. refl;
      refused = λ h. refl;
      size = omega arith;
      cancel = same_cancel;
      leased = tt;
      numbers = tt;
    }

    with_work :
        (error : Text) (limit : ℕ) (a : List WorkerWork × Fleet)
        → (is_over q.1 || not (is_empty error)) ≡ false
        → limit ≤ worker_batch_limit
        → Granted wi limit [] q.1 a
        → Exchanged now wi req f
            (record { work = a.0; cancel = q.0; done = is_over q.1; error = error }, a.1)
    with_work error limit a h le g = record {
      middle = f1;
      accepts = accepts;
      collected = c;
      inv = g.inv;
      present = λ i. g.present i ∙ same_present i;
      dones = λ j. g.dones j ∙ ap (λ ts. done_in ts j) says.0.work;
      ids = omega (arith, le, g.ids, says.0.next_id, c.next_id);
      over = same_over;
      idle = λ d. ground arith;
      refused = λ d. ground arith;
      size = omega (arith, le, g.size);
      cancel = same_cancel;
      leased = g.leased tt;
      numbers = g.numbers f.next_id (omega (arith, says.0.next_id, c.next_id)) tt;
    }

pub exchange-Exchanged :
    (now wi : ℕ) (req : WorkerRequest) (f : Fleet)
    → Inv f
    → f.next_id + worker_batch_limit < u64_mod
    → is_some (get_elem? f.workers wi) ≡ true
    → Returns (Exchanged now wi req f) (exchange now wi req f)
unfolding exchange
exchange-Exchanged now wi req f v small p =
    Returns-bind (λ g. Collected req.results f g × (accept_all now wi req.results f ≡ some g))
      (Exchanged now wi req f) (accept_all now wi req.results f) _
      (Returns-with (Collected req.results f) (accept_all now wi req.results f)
        (accept_all-Collected now wi req.results f v p))
      (λ f1 (c, acc).
        let s = record f1 { workers = modify wi (seen now req.binaries) f1.workers } in
        let sv = Inv-worker wi (seen now req.binaries) f1 (λ x. refl) (λ x. refl) c.inv in
        let sp = present-modify wi (seen now req.binaries) f1.workers wi ∙ c.present wi ∙ p in
        Returns-bind (Says s (unheld s.workers wi req.active)) (Exchanged now wi req f)
          (report_all now wi req.active [] s) _ (report_all-Reported now wi req.active [] s sv sp)
          (λ q says.
            Returns-bind (λ w. get_elem? q.1.workers wi ≡ some w) (Exchanged now wi req f)
              (get_elem? q.1.workers wi) _
              (Returns-self (get_elem? q.1.workers wi)
                (same_present now wi req f f1 acc c q says wi ∙ p))
              (λ w at. elim (Bool-cases (is_over q.1 || not (is_empty w.error))) [
                | inl idle ↦ rw idle (without_work now wi req f f1 acc c q says w.error)
                | inr busy ↦
                    let limit =
                      min worker_batch_limit (w.slots + worker_batch_limit - length w.leases) in
                    rw busy (
                      Returns-bind (Granted wi limit [] q.1) (Exchanged now wi req f)
                        (assign_locked wi limit now q.1) _
                        (assign_locked-Granted wi limit now q.1 says.0.inv
                          (omega (arith, says.0.next_id, c.next_id))
                          (same_present now wi req f f1 acc c q says wi ∙ p))
                        (λ a g.
                          with_work now wi req f f1 acc c q says w.error limit a busy (omega arith)
                            g))
              ])))

-- At the end of the run every lease is removed.
pub record Stopped (f g : Fleet) : Type 0 where
  pub inv : Inv g
  pub stopped : g.stopped ≡ true
  pub free : (k : ℕ) → contains g.leases k ≡ false
  pub unheld : (i k : ℕ) → holds_in g.workers i k ≡ false
  pub dones : (j : ℕ) → done_in g.work j ≡ done_in f.work j

-- The end of the run of a fleet with the invariant does not fail, leaves no lease in any map,
-- changes no task's completion, and keeps the invariant.
pub stop-Stopped : (now : ℕ) (f : Fleet) → Inv f → Returns (Stopped f) (stop now f)
unfolding stop
stop-Stopped now f v =
    let s = record f { stopped = true } in
    let sv : Inv s = record {
      links = record {
        known = v.links.known;
        workers = v.links.workers;
        tasks = v.links.tasks;
        reachable = v.links.reachable;
        fresh = v.links.fresh;
      };
      tests = v.tests;
      done_free = v.done_free;
      counted = v.counted;
      credited = v.credited;
    } in
    Returns-map (Removed f.leases s) (Stopped f) (remove_leases now f.leases s)
      (remove_leases-Removed now f.leases s sv.links sv.tests v.links.known)
      (λ g r. record {
        inv = Removed-Inv f.leases s g sv r;
        stopped = r.stopped;
        free = λ k. ground (arith, r.contains k);
        unheld = λ i k. ground (arith, r.contains k, r.links.workers i k);
        dones = r.dones;
      })
