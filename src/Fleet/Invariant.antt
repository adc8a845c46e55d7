-- ===== src/Fleet/Invariant.antt =====
-- distributed.go: what holds of the fleet between two calls, for every call that changes it.
use gotst.Prelude.{
  Returns-map, ℕ, ◌≡◌, refl, sym, ◌∙◌, true, false, List, Option, some, arith, nat_eq, is_some,
  lookup, contains, modify, get_elem?, Returns, Returns-bind, Text, Returns-self, text_eq,
}
use gotst.Server.{Server}
use gotst.Fleet.Data.{Fleet, FleetWorker, new_fleet}
use gotst.Fleet.Leases.{disconnect, disconnected, remove_leases, notify}
use gotst.Fleet.Views.{
  connected_in, Links, holds_in, leased_in, is_known, done_in, task_in, count_done, sum_completed,
}
use gotst.Fleet.Removal.{HasTests, remove_leases-Removed}
use gotst.Fleet.Removed.{Removed}
use gotst.Fleet.Tasks.{
  connected_in_self, holds_in-modify, present-modify, holds_in-modify, sum_completed-modify,
}

pub record Inv (f : Fleet) : Type 0 where
  pub links : Links f
  pub tests : HasTests f.server f.work
  -- A task that is done has no lease.
  pub done_free : (j k : ℕ) → done_in f.work j ≡ true → leased_in f.work j k ≡ false
  -- The counter of done tasks is right, and each is credited to one worker.
  pub counted : f.done ≡ count_done f.work
  pub credited : sum_completed f.workers ≡ f.done

pub new_fleet-Inv : (s : Server) → Inv (new_fleet s)
unfolding new_fleet contains holds_in leased_in get_elem? count_done sum_completed done_in task_in
    lookup
new_fleet-Inv s = record {
  links = record {
    known = λ k h. ground arith;
    workers = λ i k. refl;
    tasks = λ j k. refl;
    reachable = λ k l e. ground arith;
    fresh = λ k h. ground arith;
  };
  tests = λ j x e. ground arith;
  done_free = λ j k h. refl;
  counted = refl;
  credited = refl;
}

-- Removing leases keeps the invariant.
pub Removed-Inv : (ids : List ℕ) (f g : Fleet) → Inv f → Removed ids f g → Inv g
Removed-Inv ids f g v r = record {
  links = r.links;
  tests = λ j x e. r.server.tests x (v.tests j x (sym (r.tasks j) ∙ e));
  done_free = λ j k h. ground (
    arith,
    r.links.tasks j k,
    v.links.tasks j k,
    r.contains k,
    r.targets k j,
    r.dones j,
    v.done_free j k,
  );
  counted = r.done ∙ (v.counted ∙ sym r.count);
  credited = r.credit ∙ (v.credited ∙ sym r.done);
}

-- Changes of a worker that keep its leases and its credit.
pub Inv-worker :
    (wi : ℕ) (g : FleetWorker → FleetWorker) (f : Fleet)
    → ((w : FleetWorker) → (g w).leases ≡ w.leases)
    → ((w : FleetWorker) → (g w).completed ≡ w.completed)
    → Inv f
    → Inv (record f { workers = modify wi g f.workers })
Inv-worker wi g f h k v = record {
  links = record {
    known = v.links.known;
    workers = λ i n. holds_in-modify wi g f.workers h i n ∙ v.links.workers i n;
    tasks = v.links.tasks;
    reachable = v.links.reachable;
    fresh = v.links.fresh;
  };
  tests = v.tests;
  done_free = v.done_free;
  counted = v.counted;
  credited = sum_completed-modify wi g f.workers k ∙ v.credited;
}

pub Inv-notify : (f : Fleet) → Inv f → Inv (notify f)
unfolding notify
Inv-notify f v = record {
  links = record {
    known = v.links.known;
    workers = v.links.workers;
    tasks = v.links.tasks;
    reachable = v.links.reachable;
    fresh = v.links.fresh;
  };
  tests = v.tests;
  done_free = v.done_free;
  counted = v.counted;
  credited = v.credited;
}

-- The leases that a worker holds are known.
pub held_known :
    (f : Fleet) (i : ℕ) (w : FleetWorker)
    → Links f
    → get_elem? f.workers i ≡ some w
    → (k : ℕ) → contains w.leases k ≡ true
    → is_known f.objects k ≡ true
unfolding holds_in
held_known f i w v e k h = v.known k (ground (arith, v.workers i k))

-- The worker is not connected and holds no lease.
pub record Left (wi : ℕ) (f g : Fleet) : Type 0 where
  pub inv : Inv g
  pub present : is_some (get_elem? g.workers wi) ≡ true
  pub gone : connected_in g.workers wi ≡ false
  pub unheld : (k : ℕ) → holds_in g.workers wi k ≡ false
  pub dones : (j : ℕ) → done_in g.work j ≡ done_in f.work j

held_at :
    (ws : List FleetWorker) (wi : ℕ) (w : FleetWorker) (change : FleetWorker → FleetWorker)
    → ((x : FleetWorker) → (change x).leases ≡ x.leases)
    → get_elem? ws wi ≡ some w
    → (k : ℕ) → holds_in (modify wi change ws) wi k ≡ contains w.leases k
unfolding holds_in
held_at ws wi w change h e k = holds_in-modify wi change ws h wi k ∙ rw (e) refl

-- The disconnect of a worker of a fleet with the invariant does not fail, keeps the invariant and
-- the tasks that are done, and leaves the worker without a connection and leases.
pub disconnect-Left :
    (now wi : ℕ) (error : Option Text) (f : Fleet)
    → Inv f
    → is_some (get_elem? f.workers wi) ≡ true
    → Returns (Left wi f) (disconnect now wi error f)
unfolding disconnect
disconnect-Left now wi error f v p =
    Returns-bind (λ w. get_elem? f.workers wi ≡ some w) (Left wi f) (get_elem? f.workers wi) _
      (Returns-self (get_elem? f.workers wi) p)
      (λ w e.
        let g = record f { workers = modify wi (disconnected now error) f.workers } in
        let gv = Inv-worker wi (disconnected now error) f (λ x. refl) (λ x. refl) v in
        Returns-bind (Removed w.leases g) (Left wi f) (remove_leases now w.leases g) _
          (remove_leases-Removed now w.leases g gv.links gv.tests
            (λ k h. held_known f wi w v.links e k h))
          (λ h r.
            let hv = Removed-Inv w.leases g h gv r in
            record {
              inv = Inv-notify h hv;
              present =
                  unfold notify in
                  r.present wi ∙ present-modify wi (disconnected now error) f.workers wi ∙ p;
              gone =
                  unfold notify in
                  r.connections wi
                  ∙ connected_in_self wi (disconnected now error) f.workers false (λ x. refl) p;
              unheld = λ k.
                  unfold notify in
                  ground (
                    arith,
                    held_at f.workers wi w (disconnected now error) (λ x. refl) e k,
                    gv.links.workers wi k,
                    hv.links.workers wi k,
                    r.contains k,
                    r.owners k wi,
                  );
              dones = λ j. unfold notify in r.dones j;
            }))

-- The disconnect of a worker of a fleet with the invariant does not fail and keeps the invariant.
pub disconnect-Inv :
    (now wi : ℕ) (error : Option Text) (f : Fleet)
    → Inv f
    → is_some (get_elem? f.workers wi) ≡ true
    → Returns Inv (disconnect now wi error f)
disconnect-Inv now wi error f v p =
    Returns-map (Left wi f) Inv (disconnect now wi error f) (disconnect-Left now wi error f v p)
      (λ g l. l.inv)
