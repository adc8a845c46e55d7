-- ===== src/Fleet/Start.antt =====
-- distributed.go: the join of a worker and the start of the run.
use gotst.Prelude.{
  subst, filter, eqb, ℕ, zero, suc, ◌≡◌, refl, sym, ap, ◌∙◌, Bool, true, false, List, [], ◌∷◌, ◌++◌,
  map, none, some, arith, nat_eq, Text, contains, lookup, get_elem?, All, Option-cases, Bool-cases,
  ◌≤◌, inl, inr,
}
use mathlib.Core.List.{Perm}
use gotst.Go.SortLaws.{sort_by-Perm, sort_by-filter}
use gotst.Go.Sort.{insert_sorted, sort_by}
use gotst.Server.{Server, TestTask}
use gotst.Server.StatusLaws.{has_test}
use gotst.Fleet.Data.{Fleet, FleetWorker, FleetTask}
use gotst.Fleet.Leases.{add_worker}
use gotst.Fleet.Run.{schedule_id, new_task, no_shorter, start}
use gotst.Fleet.Views.{holds_in, leased_in, is_known, done_in, task_in, count_done, sum_completed}
use gotst.Fleet.Tasks.{holds_in-modify, sum_completed-modify}
use gotst.Fleet.Invariant.{Inv}

holds_in-append :
    (w : FleetWorker) (ws : List FleetWorker) (i k : ℕ)
    → w.leases ≡ []
    → holds_in (ws ++ w ∷ []) i k ≡ holds_in ws i k
unfolding holds_in get_elem? contains
holds_in-append w [] zero k h = ap (λ (ids : List ℕ). contains ids k) h
holds_in-append w [] (suc i) k h = refl
holds_in-append w (x ∷ ws) zero k h = refl
holds_in-append w (x ∷ ws) (suc i) k h = holds_in-append w ws i k h

sum_completed-append :
    (w : FleetWorker) (ws : List FleetWorker)
    → w.completed ≡ 0
    → sum_completed (ws ++ w ∷ []) ≡ sum_completed ws
unfolding sum_completed
sum_completed-append w [] h = omega (arith, h)
sum_completed-append w (x ∷ ws) h = omega (arith, sum_completed-append w ws h)

-- A worker that joins holds nothing and is credited with nothing.
pub add_worker-Inv :
    (now : ℕ) (name : Text) (slots : ℕ) (local : Bool) (f : Fleet)
    → Inv f
    → Inv (add_worker now name slots local f)
unfolding add_worker
add_worker-Inv now name slots local f v = record {
  links = record {
    known = v.links.known;
    workers = λ i k. holds_in-append _ f.workers i k refl ∙ v.links.workers i k;
    tasks = v.links.tasks;
    reachable = v.links.reachable;
    fresh = v.links.fresh;
  };
  tests = v.tests;
  done_free = v.done_free;
  counted = v.counted;
  credited = sum_completed-append _ f.workers refl ∙ v.credited;
}

-- A task that no worker has seen, of a test that the server has.
abbrev pub New : Server → FleetTask → Type 0
New s t = (t.done ≡ false) × (t.leases ≡ []) × (has_test s t.task ≡ true)

All-insert_sorted :
    (P : FleetTask → Type 0) (x : FleetTask) (ts : List FleetTask)
    → P x
    → All P ts
    → All P (insert_sorted no_shorter x ts)
unfolding insert_sorted
All-insert_sorted P x [] p h = (p, tt)
All-insert_sorted P x (t ∷ ts) p h = elim (Bool-cases (no_shorter x t)) [
  | inl e ↦ rw e (p, h)
  | inr e ↦ rw e (h.0, All-insert_sorted P x ts p h.1)
]

All-sort_by :
    (P : FleetTask → Type 0) (ts : List FleetTask) → All P ts → All P (sort_by no_shorter ts)
unfolding sort_by
All-sort_by P [] h = tt
All-sort_by P (t ∷ ts) h = All-insert_sorted P t (sort_by no_shorter ts) h.0 (All-sort_by P ts h.1)

-- The longest task comes first.
abbrev pub SlowestFirst : List FleetTask → Type 0
SlowestFirst [] = Unit
SlowestFirst (t ∷ ts) = All (λ (x : FleetTask). x.estimate ≤ t.estimate) ts × SlowestFirst ts

All-le :
    (n m : ℕ) (ts : List FleetTask)
    → n ≤ m
    → All (λ (x : FleetTask). x.estimate ≤ n) ts
    → All (λ (x : FleetTask). x.estimate ≤ m) ts
All-le n m [] h a = tt
All-le n m (t ∷ ts) h a = (omega (arith, a.0), All-le n m ts h a.1)

insert_sorted-SlowestFirst :
    (x : FleetTask) (ts : List FleetTask)
    → SlowestFirst ts
    → SlowestFirst (insert_sorted no_shorter x ts)
unfolding insert_sorted
insert_sorted-SlowestFirst x [] h = (tt, tt)
insert_sorted-SlowestFirst x (t ∷ ts) h = elim (Bool-cases (no_shorter x t)) [
  | inl e ↦
      let le : t.estimate ≤ x.estimate = ground arith in
      rw e ((le, All-le t.estimate x.estimate ts le h.0), h)
  | inr e ↦
      let le : x.estimate ≤ t.estimate = ground arith in
      rw e (
        All-insert_sorted (λ (y : FleetTask). y.estimate ≤ t.estimate) x ts le h.0,
        insert_sorted-SlowestFirst x ts h.1,
      )
]

sort_by-SlowestFirst : (ts : List FleetTask) → SlowestFirst (sort_by no_shorter ts)
unfolding sort_by
sort_by-SlowestFirst [] = tt
sort_by-SlowestFirst (t ∷ ts) =
    insert_sorted-SlowestFirst t (sort_by no_shorter ts) (sort_by-SlowestFirst ts)

module _ (s : Server) where
  New-leased : (ts : List FleetTask) → All (New s) ts → (j k : ℕ) → leased_in ts j k ≡ false
  unfolding leased_in get_elem? contains
  New-leased [] h j k = refl
  New-leased (t ∷ ts) h zero k = let e = h.0.1 in ground arith
  New-leased (t ∷ ts) h (suc j) k = New-leased ts h.1 j k

  New-done : (ts : List FleetTask) → All (New s) ts → (j : ℕ) → done_in ts j ≡ false
  unfolding done_in get_elem?
  New-done [] h j = refl
  New-done (t ∷ ts) h zero = h.0.0
  New-done (t ∷ ts) h (suc j) = New-done ts h.1 j

  New-count : (ts : List FleetTask) → All (New s) ts → count_done ts ≡ 0
  unfolding count_done
  New-count [] h = refl
  New-count (t ∷ ts) h = let e = h.0.0 in ground (arith, New-count ts h.1)

  New-tests :
      (ts : List FleetTask)
      → All (New s) ts
      → (j : ℕ) (x : TestTask) → task_in ts j ≡ some x
      → has_test s x ≡ true
  unfolding task_in get_elem?
  New-tests [] h j x e = ground arith
  New-tests (t ∷ ts) h zero x e = let p = h.0.2 in ground arith
  New-tests (t ∷ ts) h (suc j) x e = New-tests ts h.1 j x e

  New-map :
      (estimate : TestTask → ℕ) (tasks : List TestTask)
      → All (λ x. has_test s x ≡ true) tasks
      → All (New s) (map (new_task estimate) tasks)
  New-map estimate [] h = tt
  New-map estimate (x ∷ tasks) h = ((refl, refl, h.0), New-map estimate tasks h.1)

-- Before there are tasks there are no leases.
no_object : (f : Fleet) → Inv f → f.work ≡ [] → (k : ℕ) → lookup k f.objects ≡ none
unfolding get_elem?
no_object f v empty k = elim (Option-cases (lookup k f.objects)) [
  | inl e ↦ e
  | inr (l, e) ↦ let r = v.links.reachable k l e in ground arith
]

empty_count : (ts : List FleetTask) → ts ≡ [] → count_done ts ≡ 0
unfolding count_done
empty_count [] h = refl
empty_count (t ∷ ts) h = ground arith

no_lease : (f : Fleet) → Inv f → f.work ≡ [] → (k : ℕ) → contains f.leases k ≡ false
unfolding is_known
no_lease f v empty k = ground (arith, v.links.known k, no_object f v empty k)

same_estimate :
    (n : ℕ) (a b : FleetTask)
    → eqb a.estimate n ≡ true
    → eqb b.estimate n ≡ true
    → no_shorter a b ≡ true
same_estimate n a b h g = ground arith

-- The fleet when the run starts.
pub record Started (estimate : TestTask → ℕ) (tasks : List TestTask) (g : Fleet) : Type 0 where
  pub inv : Inv g
  pub queues : Perm g.work (map (new_task estimate) tasks)
  -- Tasks with one estimate keep their order.
  pub stable :
      (n : ℕ)
      → filter (λ (t : FleetTask). eqb t.estimate n) g.work
        ≡ filter (λ (t : FleetTask). eqb t.estimate n) (map (new_task estimate) tasks)
  pub schedule : g.test_schedule ≡ map schedule_id g.work
  pub order : SlowestFirst g.work
  pub open_tasks : (j : ℕ) → done_in g.work j ≡ false
  pub ready : g.ready ≡ true

-- The start of the run, with no task queued yet and tests that the server has, keeps the invariant
-- and queues just the given tasks, slowest first and else in their order, none of them done; the
-- schedule names them in that order.
pub start-Started :
    (estimate : TestTask → ℕ) (wi : ℕ) (tasks : List TestTask) (f : Fleet)
    → Inv f
    → f.work ≡ []
    → All (λ x. has_test f.server x ≡ true) tasks
    → Started estimate tasks (start estimate wi tasks f)
unfolding start
start-Started estimate wi tasks f v empty h =
    let ts = sort_by no_shorter (f.work ++ map (new_task estimate) tasks) in
    let new : All (New f.server) ts =
      All-sort_by (New f.server) _ (rw empty (New-map f.server estimate tasks h)) in
    let none_leased : (k : ℕ) → contains f.leases k ≡ false = λ k. no_lease f v empty k in
    record {
      inv = record {
        links = record {
          known = v.links.known;
          workers = λ i k. holds_in-modify wi _ f.workers (λ w. refl) i k ∙ v.links.workers i k;
          tasks = λ j k. ground (arith, New-leased f.server ts new j k, none_leased k);
          reachable = λ k l e. ground (arith, no_object f v empty k);
          fresh = v.links.fresh;
        };
        tests = New-tests f.server ts new;
        done_free = λ j k d. New-leased f.server ts new j k;
        counted = v.counted ∙ empty_count f.work empty ∙ sym (New-count f.server ts new);
        credited = sum_completed-modify wi _ f.workers (λ w. refl) ∙ v.credited;
      };
      queues =
          subst (λ w. Perm ts (w ++ map (new_task estimate) tasks)) empty
            (sort_by-Perm no_shorter (f.work ++ map (new_task estimate) tasks));
      stable = λ n.
          sort_by-filter no_shorter (λ t. eqb t.estimate n) (same_estimate n)
            (f.work ++ map (new_task estimate) tasks)
          ∙ ap
              (λ w.
                filter (λ (t : FleetTask). eqb t.estimate n) (w ++ map (new_task estimate) tasks))
              empty;
      schedule = refl;
      order = sort_by-SlowestFirst _;
      open_tasks = New-done f.server ts new;
      ready = refl;
    }
