-- ===== src/Fleet/AcceptLaws.antt =====
-- distributed.go: accept on every branch.
use gotst.Prelude.{
  ℕ, ◌+◌, ◌≡◌, refl, sym, ◌∙◌, Bool, true, false, not, ◌&&◌, ◌||◌, none, some, arith, nat_eq, eqb,
  eqb_iff, is_some, lookup, contains, modify, get_elem?, if◌then◌else◌, Returns, Returns-bind, Text,
  Returns-self, Bool-cases, inl, inr, text, text_eq, ◌==◌, is_empty,
}
use gotst.Server.StatusLaws.{Keeps}
use gotst.Fleet.Data.{Fleet, FleetWorker, FleetTask, WorkLease, WorkerResult}
use gotst.Fleet.Leases.{remove_leases, notify}
use gotst.Fleet.Accept.{accept, commit, commit_server, mark_committed, release_worker, count_result}
use gotst.Fleet.Views.{holds_in, leased_in, target_is, is_known, done_in}
use gotst.Fleet.Removal.{remove_leases-Removed, leased_known, task_in-some}
use gotst.Fleet.Removed.{Removed}
use gotst.Fleet.Tasks.{present-modify}
use gotst.Fleet.Invariant.{Inv, Inv-worker, Inv-notify, Removed-Inv, held_known}
use gotst.Fleet.Commit.{
  commit_server-Keeps, mark_committed-Links, mark_committed-HasTests, committed-Inv,
  committed-dones, committed-targets, trigger-Inv,
}

-- Whether the result is taken as the result of its task: the worker holds the lease, the run goes
-- on, and the result is no failure of a helper's own machinery.
unfoldable pub commits : Fleet → ℕ → WorkerResult → Bool
commits f wi r = elim (get_elem? f.workers wi) [
  | none ↦ false
  | some w ↦
      contains w.leases r.lease
      && not (f.stopped || f.server.cancelled)
      && not (r.infra && not (w.id == text "leader"))
]

-- `g` is `f` after the result.
pub record Accepted (wi : ℕ) (r : WorkerResult) (f g : Fleet) : Type 0 where
  pub inv : Inv g
  pub present : (i : ℕ) → is_some (get_elem? g.workers i) ≡ is_some (get_elem? f.workers i)
  pub next_id : g.next_id ≡ f.next_id
  pub dones :
      (j : ℕ)
      → done_in g.work j ≡ (done_in f.work j || (commits f wi r && target_is f.objects r.lease j))
  pub done : g.done ≡ (if commits f wi r then f.done + 1 else f.done)
  pub targets : (k j : ℕ) → target_is g.objects k j ≡ target_is f.objects k j

Accepted-same :
    (wi : ℕ) (r : WorkerResult) (f : Fleet) → Inv f → commits f wi r ≡ false → Accepted wi r f f
Accepted-same wi r f v e = record {
  inv = v;
  present = λ i. refl;
  next_id = refl;
  dones = λ j. ground arith;
  done = ground arith;
  targets = λ k j. refl;
}

module _ (now wi : ℕ) (r : WorkerResult) (f : Fleet) (v : Inv f) (w : FleetWorker)
    (at : get_elem? f.workers wi ≡ some w) where
  abbrev broken : Text → FleetWorker → FleetWorker
  broken e x = record x { error = e }

  release-Accepted :
      commits f wi r ≡ false → Returns (Accepted wi r f) (release_worker now wi w r.error f)
  unfolding release_worker
  release-Accepted e =
      let g = record f {
        workers =
            modify wi (broken (if is_empty r.error then text "helper execution error" else r.error))
              f.workers;
      } in
      let gv : Inv g =
        Inv-worker wi (broken (if is_empty r.error then text "helper execution error" else r.error))
          f (λ x. refl) (λ x. refl) v in
      Returns-bind (Removed w.leases g) (Accepted wi r f) (remove_leases now w.leases g) _
        (remove_leases-Removed now w.leases g gv.links gv.tests
          (λ k h. held_known f wi w v.links at k h))
        (λ h q. record {
          inv = Inv-notify h (Removed-Inv w.leases g h gv q);
          present = λ i. unfold notify in q.present i ∙ present-modify wi (broken _) f.workers i;
          next_id = unfold notify in q.next_id;
          dones = λ j. unfold notify in ground (arith, q.dones j);
          done = unfold notify in ground (arith, q.done);
          targets = λ k j. unfold notify in q.targets k j;
        })

  module _ (l : WorkLease) (t : FleetTask) (found : lookup r.lease f.objects ≡ some l)
      (task_at : get_elem? f.work l.work ≡ some t) where
    target : (j : ℕ) → target_is f.objects r.lease j ≡ eqb l.work j
    unfolding target_is
    target j = ground arith

    not_done : contains w.leases r.lease ≡ true → t.done ≡ false
    unfolding holds_in done_in leased_in
    not_done held = ground (
      arith,
      v.done_free l.work r.lease,
      v.links.workers wi r.lease,
      v.links.tasks l.work r.lease,
      target l.work,
      eqb_iff l.work l.work,
    )

    commit-Accepted :
        t.done ≡ false
        → commits f wi r ≡ true
        → Returns (Accepted wi r f) (commit now wi l.work t r f)
    unfolding commit
    commit-Accepted open_task e =
        Returns-bind (Keeps f.server) (Accepted wi r f) (commit_server now t.task r f.server) _
          (commit_server-Keeps now t.task r f.server
            (v.tests l.work t.task (task_in-some f.work l.work t task_at)))
          (λ s ks.
            let m = mark_committed wi l.work t r s f in
            let mt = mark_committed-HasTests wi l.work t r s f v.tests ks in
            Returns-bind (Removed t.leases m) (Accepted wi r f) (remove_leases now t.leases m) _
              (remove_leases-Removed now t.leases m (mark_committed-Links wi l.work t r s f v.links)
                mt (λ k h. unfold mark_committed in leased_known f l.work t v.links task_at k h))
              (λ g q.
                let gv =
                  committed-Inv wi l.work t r s f g v task_at open_task (ground (arith, at)) q
                    (λ j x p. q.server.tests x (mt j x (sym (q.tasks j) ∙ p))) in
                record {
                  inv = Inv-notify _ (trigger-Inv r.passed g gv);
                  present = λ i.
                      unfold notify mark_committed in
                      q.present i ∙ present-modify wi (count_result r) f.workers i;
                  next_id = unfold notify mark_committed in q.next_id;
                  dones = λ j.
                      unfold notify in
                      ground (
                        arith,
                        e,
                        committed-dones wi l.work t r s f g v task_at open_task (ground (arith, at))
                            q j,
                        target j,
                      );
                  done = unfold notify mark_committed in ground (arith, e, q.done);
                  targets = λ k j.
                      unfold notify in
                      committed-targets wi l.work t r s f g v task_at open_task (ground (arith, at))
                        q k j;
                }))

-- For a worker of a fleet with the invariant, accept does not fail on any result, keeps the
-- invariant, and marks as done just the task of the result's lease, and only if the worker holds
-- the lease, the run goes on and the result is no infrastructure failure of a helper.
pub accept-Accepted :
    (now wi : ℕ) (r : WorkerResult) (f : Fleet)
    → Inv f
    → is_some (get_elem? f.workers wi) ≡ true
    → Returns (Accepted wi r f) (accept now wi r f)
unfolding accept
accept-Accepted now wi r f v p =
    Returns-bind (λ w. get_elem? f.workers wi ≡ some w) (Accepted wi r f) (get_elem? f.workers wi) _
      (Returns-self (get_elem? f.workers wi) p)
      (λ w at. elim (Bool-cases (contains w.leases r.lease)) [
        | inr missing ↦ rw missing (Accepted-same wi r f v (unfold commits in ground arith))
        | inl held ↦ rw held (
            Returns-bind (λ l. lookup r.lease f.objects ≡ some l) (Accepted wi r f)
              (lookup r.lease f.objects) _
              (Returns-self (lookup r.lease f.objects)
                (unfold is_known in held_known f wi w v.links at r.lease held))
              (λ l found.
                Returns-bind (λ t. get_elem? f.work l.work ≡ some t) (Accepted wi r f)
                  (get_elem? f.work l.work) _
                  (Returns-self (get_elem? f.work l.work) (v.links.reachable r.lease l found))
                  (λ t task_at.
                    rw (not_done now wi r f v w at l t found task_at held)
                      (elim (Bool-cases (f.stopped || f.server.cancelled)) [
                        | inl over ↦
                            rw over (Accepted-same wi r f v (unfold commits in ground arith))
                        | inr on ↦
                            rw on (elim (Bool-cases (r.infra && not (w.id == text "leader"))) [
                              | inl infra ↦ rw infra (
                                  release-Accepted now wi r f v w at
                                    (unfold commits in ground arith))
                              | inr own ↦ rw own (
                                  commit-Accepted now wi r f v w at l t found task_at
                                    (not_done now wi r f v w at l t found task_at held)
                                    (unfold commits in ground arith))
                            ])
                      ]))))
      ])
