-- ===== src/Fleet/Report.antt =====
-- distributed.go: the loop of exchange over the active leases, which sets states and cancels.
use gotst.Prelude.{
  ℕ, ◌≡◌, refl, sym, ap, ◌∙◌, true, List, [], ◌∷◌, ◌++◌, Option, some, arith, nat_eq, Text, is_some,
  contains, lookup, lookup-insert, insert, get_elem?, Returns, Returns-bind, Returns-map,
  Returns-bind-map, append-nil, append_assoc, Returns-self, ◌>>=◌, if◌then◌else◌, Bool-cases,
  Option-cases, inl, inr,
}
use gotst.Server.{Server, TestTask}
use gotst.Server.StatusLaws.{has_test, Keeps, Keeps-refl, Keeps-trans, put_test-Keeps, with_test}
use gotst.Fleet.Data.{Fleet, FleetWorker, FleetTask, WorkLease, LeaseState}
use gotst.Fleet.Leases.{update_task, update_running_locked}
use gotst.Fleet.Exchange.{report_state, report_all, parse_state, mark_testing, started_at}
use gotst.Fleet.Views.{holds_in, is_known, owner_is, target_is}
use gotst.Fleet.Removal.{update_running_locked-Keeps, leased_known, task_in-some}
use gotst.Fleet.Invariant.{Inv, held_known}

-- `g` differs from `f` in what the lease objects and the tests show only.
pub record Reported (f g : Fleet) : Type 0 where
  pub inv : Inv g
  pub workers : g.workers ≡ f.workers
  pub work : g.work ≡ f.work
  pub next_id : g.next_id ≡ f.next_id
  pub done : g.done ≡ f.done
  pub ready : g.ready ≡ f.ready
  pub stopped : g.stopped ≡ f.stopped
  pub cancelled : g.server.cancelled ≡ f.server.cancelled
  pub targets : (k j : ℕ) → target_is g.objects k j ≡ target_is f.objects k j

module _ (id : ℕ) (l l' : WorkLease) (f : Fleet) (s : Server) (v : Inv f)
    (found : lookup id f.objects ≡ some l) (same_work : l'.work ≡ l.work)
    (same_worker : l'.worker ≡ l.worker) where
  abbrev g : Fleet
  g = record f { objects = insert id l' f.objects; server = s }

  same_known : (k : ℕ) → is_known g.objects k ≡ is_known f.objects k
  unfolding is_known
  same_known k = ground (arith, lookup-insert id k l' f.objects)

  same_owner : (k i : ℕ) → owner_is g.objects k i ≡ owner_is f.objects k i
  unfolding owner_is
  same_owner k i = ground (arith, lookup-insert id k l' f.objects)

  pub same_target : (k j : ℕ) → target_is g.objects k j ≡ target_is f.objects k j
  unfolding target_is
  same_target k j = ground (arith, lookup-insert id k l' f.objects)

  pub put_object-Inv : Keeps f.server s → Inv g
  put_object-Inv k = record {
    links = record {
      known = λ n h. same_known n ∙ v.links.known n h;
      workers = λ i n. ground (arith, v.links.workers i n, same_owner n i);
      tasks = λ j n. ground (arith, v.links.tasks j n, same_target n j);
      reachable = λ n x e.
          ground
            (arith, lookup-insert id n l' f.objects, v.links.reachable n x, v.links.reachable id l);
      fresh = v.links.fresh;
    };
    tests = λ j x e. k.tests x (v.tests j x e);
    done_free = v.done_free;
    counted = v.counted;
    credited = v.credited;
  }

mark_testing-Keeps :
    (now : ℕ) (task : TestTask) (s : Server)
    → has_test s task ≡ true
    → Returns (Keeps s) (mark_testing now task s)
unfolding mark_testing
mark_testing-Keeps now task s h =
    with_test (Keeps s) s task _ h (λ ps ts e. put_test-Keeps s task ps _ ts ts e refl)

pub update_task-bind :
    {C : Type 0} (Q : C → Type 0) (now i : ℕ) (f : Fleet) (t : FleetTask) (k : Fleet → Option C)
    → Inv f
    → get_elem? f.work i ≡ some t
    → ((s : Server) → Keeps f.server s → Returns Q (k (record f { server = s })))
    → Returns Q (update_task now i f >>= k)
unfolding update_task
update_task-bind Q now i f t k v at h = rw at (
    Returns-bind-map (Keeps f.server) Q (update_running_locked now f.objects t f.server)
      (λ s. record f { server = s }) k
      (update_running_locked-Keeps now f.objects t f.server
        (v.tests i t.task (task_in-some f.work i t at)) (leased_known f i t v.links at))
      h)

pub report_state-Reported :
    (now id : ℕ) (state : LeaseState) (f : Fleet)
    → Inv f
    → is_known f.objects id ≡ true
    → Returns (Reported f) (report_state now id state f)
unfolding report_state
report_state-Reported now id state f v h =
    Returns-bind (λ l. lookup id f.objects ≡ some l) (Reported f) (lookup id f.objects) _
      (Returns-self (lookup id f.objects) (unfold is_known in h))
      (λ l e.
        let l' = record l { started = started_at now state l; state = state } in
        let marked = record f { objects = insert id l' f.objects } in
        let mv : Inv marked =
          put_object-Inv id l l' f f.server v e refl refl (Keeps-refl f.server) in
        elim (Option-cases (get_elem? f.work l.work)) [
          | inl gone ↦ ground (arith, v.links.reachable id l e)
          | inr (t, at) ↦ update_task-bind (Reported f) now l.work marked t _ mv at (λ s ks. rw at (
              Returns-bind (Keeps s) (Reported f) (mark_testing now t.task s) _
                (mark_testing-Keeps now t.task s
                  (ks.tests t.task (v.tests l.work t.task (task_in-some f.work l.work t at))))
                (λ u ku.
                  let kept = Keeps-trans f.server s u ks ku in
                  record {
                    inv = put_object-Inv id l l' f u v e refl refl kept;
                    workers = refl;
                    work = refl;
                    next_id = refl;
                    done = refl;
                    ready = refl;
                    stopped = refl;
                    cancelled = kept.cancelled;
                    targets = same_target id l l' f u v e refl refl;
                  })))
        ])

Reported-trans : (f g h : Fleet) → Reported f g → Reported g h → Reported f h
Reported-trans f g h a b = record {
  inv = b.inv;
  workers = b.workers ∙ a.workers;
  work = b.work ∙ a.work;
  next_id = b.next_id ∙ a.next_id;
  done = b.done ∙ a.done;
  ready = b.ready ∙ a.ready;
  stopped = b.stopped ∙ a.stopped;
  cancelled = b.cancelled ∙ a.cancelled;
  targets = λ k j. b.targets k j ∙ a.targets k j;
}

Reported-refl : (f : Fleet) → Inv f → Reported f f
Reported-refl f v = record {
  inv = v;
  workers = refl;
  work = refl;
  next_id = refl;
  done = refl;
  ready = refl;
  stopped = refl;
  cancelled = refl;
  targets = λ k j. refl;
}

-- The numbers that the worker reports and does not hold.
unfoldable pub unheld : List FleetWorker → ℕ → List (ℕ × Text) → List ℕ
unheld ws wi [] = []
unheld ws wi ((id, state) ∷ rest) =
    let others = unheld ws wi rest in if holds_in ws wi id then others else id ∷ others

-- The fleet after the reports, and the numbers to cancel.
abbrev pub Says : Fleet → List ℕ → List ℕ × Fleet → Type 0
Says f ids r = Reported f r.1 × (r.0 ≡ ids)

Says-same :
    (f : Fleet) (ids ids' : List ℕ) (m : Option (List ℕ × Fleet))
    → ids ≡ ids'
    → Returns (Says f ids) m
    → Returns (Says f ids') m
Says-same f ids ids' m e h = Returns-map (Says f ids) (Says f ids') m h (λ r p. (p.0, p.1 ∙ e))

-- The reports do not fail; the numbers to cancel are just those that the worker does not hold.
pub report_all-Reported :
    (now wi : ℕ) (active : List (ℕ × Text)) (cancel : List ℕ) (f : Fleet)
    → Inv f
    → is_some (get_elem? f.workers wi) ≡ true
    → Returns (Says f (cancel ++ unheld f.workers wi active)) (report_all now wi active cancel f)
unfolding report_all unheld
report_all-Reported now wi [] cancel f v h = (Reported-refl f v, sym (append-nil cancel))
report_all-Reported now wi ((id, state) ∷ rest) cancel f v h =
    let skips : (w : FleetWorker)
        → get_elem? f.workers wi ≡ some w
        → contains w.leases id ≡ true
        → (cancel ++ unheld f.workers wi rest)
          ≡ (cancel ++ unheld f.workers wi ((id, state) ∷ rest)) =
      λ w at held. ap (λ (ids : List ℕ). cancel ++ ids) (unfold holds_in in ground arith) in
    Returns-bind (λ w. get_elem? f.workers wi ≡ some w) (Says f _) (get_elem? f.workers wi) _
      (Returns-self (get_elem? f.workers wi) h)
      (λ w at. elim (Bool-cases (contains w.leases id)) [
        | inr free ↦ rw free (
            Says-same f _ _ _
              (append_assoc cancel (id ∷ []) (unheld f.workers wi rest)
                ∙ ap (λ (ids : List ℕ). cancel ++ ids) (unfold holds_in in ground arith))
              (report_all-Reported now wi rest (cancel ++ id ∷ []) f v h))
        | inl held ↦ rw held (elim (Option-cases (parse_state state)) [
          | inl bad ↦
              rw bad
                (Says-same f _ _ _ (skips w at held) (report_all-Reported now wi rest cancel f v h))
          | inr (st, good) ↦ rw good (
              Returns-bind (Reported f) (Says f _) (report_state now id st f) _
                (report_state-Reported now id st f v (held_known f wi w v.links at id held))
                (λ g r.
                  Returns-map (Says g (cancel ++ unheld g.workers wi rest)) (Says f _) _
                    (report_all-Reported now wi rest cancel g r.inv (rw r.workers h))
                    (λ q p.
                      (Reported-trans f g q.1 r p.0, p.1 ∙ (rw r.workers (skips w at held))))))
        ])
      ])
