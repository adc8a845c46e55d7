-- ===== src/Fleet/Removal.antt =====
-- distributed.go: removing leases one by one.
use gotst.Prelude.{
  ℕ, ◌≡◌, refl, sym, ◌∙◌, Bool, true, false, List, [], ◌∷◌, Option, none, some, arith, nat_eq,
  lookup, contains, get_elem?, Returns, Returns-bind, Returns-map, Returns-self, Bool-cases, inl,
  inr,
}
use gotst.Server.{Server, TestTask}
use gotst.Server.StatusLaws.{has_test, Keeps, Keeps-refl, put_test-Keeps, with_test}
use gotst.Fleet.Data.{Fleet, FleetTask, WorkLease}
use gotst.Fleet.Leases.{
  running_since, update_running_locked, unlink, remove_lease_locked, remove_leases,
}
use gotst.Fleet.Removed.{Removed, Removed-none, Removed-cons}
use gotst.Fleet.Tasks.{
  connected_in-modify, task_in-modify, done_in-modify, count_done-modify, sum_completed-modify,
  present-modify,
}
use gotst.Fleet.Views.{Links, leased_in, is_known, task_in}
use gotst.Fleet.Unlink.{
  unlink-Links, unlink-contains, unlink-owner, unlink-target, unlink-known, drop_held, drop_leased,
  Links-server,
}

-- The server has the test of every task.
abbrev pub HasTests : Server → List FleetTask → Type 0
HasTests s ts = (j : ℕ) (x : TestTask) → task_in ts j ≡ some x → has_test s x ≡ true

running_since-Returns :
    (objects : List (ℕ × WorkLease)) (ids : List ℕ) (acc : Bool × Option ℕ)
    → ((id : ℕ) → contains ids id ≡ true → is_known objects id ≡ true)
    → Returns (λ r. Unit {0}) (running_since objects acc ids)
unfolding running_since contains is_known
running_since-Returns objects [] acc h = tt
running_since-Returns objects (id ∷ ids) acc h =
    Returns-bind (λ l. lookup id objects ≡ some l) (λ r. Unit {0}) (lookup id objects) _
      (Returns-self (lookup id objects) (h id (ground arith)))
      (λ l e. running_since-Returns objects ids _ (λ k p. h k (ground arith)))

-- Updating a task whose test is there does not fail and keeps the tests.
pub update_running_locked-Keeps :
    (now : ℕ) (objects : List (ℕ × WorkLease)) (t : FleetTask) (s : Server)
    → has_test s t.task ≡ true
    → ((id : ℕ) → contains t.leases id ≡ true → is_known objects id ≡ true)
    → Returns (Keeps s) (update_running_locked now objects t s)
unfolding update_running_locked
update_running_locked-Keeps now objects t s h k = with_test (Keeps s) s t.task _ h (λ ps ts e.
    elim (Bool-cases ts.done) [
      | inl d ↦ rw d (Keeps-refl s)
      | inr d ↦ rw d (
          Returns-bind (λ r. Unit {0}) (Keeps s) (running_since objects (false, none) t.leases) _
            (running_since-Returns objects t.leases (false, none) k)
            (λ r _. put_test-Keeps s t.task ps _ ts _ e refl))
    ])

unlink-Removed :
    (id : ℕ) (l : WorkLease) (f : Fleet) (s : Server)
    → lookup id f.objects ≡ some l
    → Links f
    → Keeps f.server s
    → Removed (id ∷ []) f (record (unlink id l f) { server = s })
unfolding contains
unlink-Removed id l f s e v k = record {
  links = Links-server (unlink id l f) s (unlink-Links f id l e v);
  server = k;
  contains = λ n. ground (arith, unlink-contains f id l n);
  targets = unlink-target f id l e;
  owners = unlink-owner f id l e;
  known = unlink-known f id l e;
  tasks = λ j. unfold unlink in task_in-modify l.work (drop_leased id) f.work (λ t. refl) j;
  dones = λ j. unfold unlink in done_in-modify l.work (drop_leased id) f.work (λ t. refl) j;
  count = unfold unlink in count_done-modify l.work (drop_leased id) f.work (λ t. refl);
  credit = unfold unlink in sum_completed-modify l.worker (drop_held id) f.workers (λ w. refl);
  present = λ i. unfold unlink in present-modify l.worker (drop_held id) f.workers i;
  connections =
      λ i. unfold unlink in connected_in-modify l.worker (drop_held id) f.workers (λ w. refl) i;
  done = unfold unlink in refl;
  next_id = unfold unlink in refl;
  stopped = unfold unlink in refl;
  ready = unfold unlink in refl;
}

-- The task at a position, with its leases known.
pub leased_known :
    (f : Fleet) (j : ℕ) (t : FleetTask)
    → Links f
    → get_elem? f.work j ≡ some t
    → (id : ℕ) → contains t.leases id ≡ true
    → is_known f.objects id ≡ true
leased_known f j t v e id h = v.known id (unfold leased_in in ground (arith, v.tasks j id))

pub task_in-some :
    (ts : List FleetTask) (j : ℕ) (t : FleetTask)
    → get_elem? ts j ≡ some t
    → task_in ts j ≡ some t.task
unfolding task_in
task_in-some ts j t e = ground arith

pub remove_lease_locked-Removed :
    (now id : ℕ) (f : Fleet)
    → Links f
    → HasTests f.server f.work
    → is_known f.objects id ≡ true
    → Returns (Removed (id ∷ []) f) (remove_lease_locked now id f)
unfolding remove_lease_locked
remove_lease_locked-Removed now id f v h k =
    Returns-bind (λ l. lookup id f.objects ≡ some l) (Removed (id ∷ []) f) (lookup id f.objects) _
      (Returns-self (lookup id f.objects) (unfold is_known in k))
      (λ l e.
        let u = unlink id l f in
        let uv = unlink-Links f id l e v in
        Returns-bind (λ t. get_elem? u.work l.work ≡ some t) (Removed (id ∷ []) f)
          (get_elem? u.work l.work) _
          (Returns-self (get_elem? u.work l.work) (
            unfold unlink in
            (present-modify l.work (drop_leased id) f.work l.work ∙ v.reachable id l e)))
          (λ t at.
            Returns-bind (Keeps f.server) (Removed (id ∷ []) f)
              (update_running_locked now u.objects t u.server) _
              (update_running_locked-Keeps now u.objects t u.server
                (h l.work t.task (
                  sym (
                    unfold unlink in
                    task_in-modify l.work (drop_leased id) f.work (λ x. refl) l.work)
                  ∙ task_in-some u.work l.work t at))
                (leased_known u l.work t uv at))
              (λ s ks. unlink-Removed id l f s e v ks)))

-- Removing leases whose objects are there does not fail, and removes just these.
pub remove_leases-Removed :
    (now : ℕ) (ids : List ℕ) (f : Fleet)
    → Links f
    → HasTests f.server f.work
    → ((k : ℕ) → contains ids k ≡ true → is_known f.objects k ≡ true)
    → Returns (Removed ids f) (remove_leases now ids f)
unfolding remove_leases
remove_leases-Removed now [] f v h k = Removed-none f v
remove_leases-Removed now (id ∷ ids) f v h k =
    Returns-bind (Removed (id ∷ []) f) (Removed (id ∷ ids) f) (remove_lease_locked now id f) _
      (remove_lease_locked-Removed now id f v h (k id (unfold contains in ground arith)))
      (λ g r.
        Returns-map (Removed ids g) (Removed (id ∷ ids) f) (remove_leases now ids g)
          (remove_leases-Removed now ids g r.links
            (λ j x e. r.server.tests x (h j x (sym (r.tasks j) ∙ e)))
            (λ n p. r.known n ∙ k n (unfold contains in ground arith)))
          (λ q s. Removed-cons id ids f g q r s))
