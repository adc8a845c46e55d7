-- ===== src/Fleet/Batch.antt =====
-- distributed.go: assignLocked and the invariant.
use gotst.Prelude.{
  ℕ, zero, suc, ◌+◌, ◌≤◌, ◌<◌, ◌≡◌, refl, sym, ◌∙◌, true, false, not, ◌&&◌, ◌||◌, List, [], ◌∷◌,
  ◌++◌, some, arith, nat_eq, eqb_iff, eqb, text_eq, is_some, is_empty, contains, get_elem?, lookup,
  leb, ◌*◌, length, length-append, All, All-append, Returns, Returns-bind, Returns-map,
  Returns-self, Bool-cases, Option-cases, inl, inr,
}
use gotst.Fleet.Data.{Fleet, FleetWorker, WorkerWork, worker_batch_target, u64_mod}
use gotst.Fleet.Assign.{
  add_lease, assign_loop, assign_locked, leased_duration, next_locked, work_of,
}
use gotst.Fleet.Views.{holds_in, is_known, done_in, Links}
use gotst.Fleet.Tasks.{
  task_in-modify, done_in-modify, count_done-modify, sum_completed-modify, present-modify,
}
use gotst.Fleet.AddLease.{
  add_lease-Links, add_lease-holds, add_lease-leased, push_held, push_leased,
}
use gotst.Fleet.Invariant.{Inv, held_known}
use gotst.Fleet.NextLaws.{at, is_overdue, next_locked-Picks}

-- A task that may be leased is there, and is not done.
pub next_locked-open :
    (wi now : ℕ) (w : FleetWorker) (f : Fleet) (r : ℕ)
    → next_locked wi w now f ≡ some r
    → (is_some (get_elem? f.work r) ≡ true) × (done_in f.work r ≡ false)
unfolding at is_overdue done_in
next_locked-open wi now w f r h = elim (next_locked-Picks wi now w f r h) [
  | inl e ↦ (ground arith, ground arith)
  | inr e ↦ let o = e.1 in (ground arith, ground arith)
]

module _ (wi i now : ℕ) (f : Fleet) where
  same_dones : (j : ℕ) → done_in (add_lease wi i now f).work j ≡ done_in f.work j
  unfolding add_lease
  same_dones j = done_in-modify i (push_leased _) f.work (λ t. refl) j

  pub add_lease-Inv :
      Inv f
      → f.next_id + 1 < u64_mod
      → is_some (get_elem? f.workers wi) ≡ true
      → is_some (get_elem? f.work i) ≡ true
      → done_in f.work i ≡ false
      → Inv (add_lease wi i now f)
  add_lease-Inv v small hw ht open_task = record {
    links = add_lease-Links wi i now f v.links small hw ht;
    tests = λ j x e.
        unfold add_lease in
        v.tests j x (sym (task_in-modify i (push_leased _) f.work (λ t. refl) j) ∙ e);
    done_free = λ j k h.
        ground
          (arith, same_dones j, add_lease-leased wi i now f ht j k, v.done_free j k, eqb_iff i j);
    counted =
        unfold add_lease in
        v.counted ∙ sym (count_done-modify i (push_leased _) f.work (λ t. refl));
    credited =
        unfold add_lease in
        sum_completed-modify wi (push_held _) f.workers (λ w. refl) ∙ v.credited;
  }

-- What `assign_loop` adds to the batch and to the fleet, in at most `limit` rounds.
pub record Granted (wi limit : ℕ) (batch : List WorkerWork) (f : Fleet)
    (r : List WorkerWork × Fleet) : Type 0 where
  pub inv : Inv r.1
  pub present : (i : ℕ) → is_some (get_elem? r.1.workers i) ≡ is_some (get_elem? f.workers i)
  pub size : length r.0 ≤ length batch + limit
  pub ids : r.1.next_id ≤ f.next_id + limit
  pub dones : (j : ℕ) → done_in r.1.work j ≡ done_in f.work j
  pub done : r.1.done ≡ f.done
  -- The worker keeps its leases, and those of the others stay as they are.
  pub keeps : (k : ℕ) → holds_in f.workers wi k ≡ true → holds_in r.1.workers wi k ≡ true
  pub others : (i k : ℕ) → eqb wi i ≡ false → holds_in r.1.workers i k ≡ holds_in f.workers i k
  -- What is sent is leased to the worker, under numbers that are new.
  pub leased :
      All (λ (x : WorkerWork). holds_in f.workers wi x.lease ≡ true) batch
      → All (λ (x : WorkerWork). holds_in r.1.workers wi x.lease ≡ true) r.0
  pub numbers :
      (n : ℕ)
      → n ≤ f.next_id
      → All (λ (x : WorkerWork). n < x.lease) batch
      → All (λ (x : WorkerWork). n < x.lease) r.0

Granted-none :
    (wi limit : ℕ) (batch : List WorkerWork) (f : Fleet)
    → Inv f
    → Granted wi limit batch f (batch, f)
Granted-none wi limit batch f v = record {
  inv = v;
  present = λ i. refl;
  size = omega arith;
  ids = omega arith;
  dones = λ j. refl;
  done = refl;
  keeps = λ k h. h;
  others = λ i k h. refl;
  leased = λ h. h;
  numbers = λ n h a. a;
}

All-map :
    {A : Type 0} (P Q : A → Type 0) (xs : List A) → ((x : A) → P x → Q x) → All P xs → All Q xs
All-map P Q [] k h = tt
All-map P Q (x ∷ xs) k h = (k x h.0, All-map P Q xs k h.1)

module _ (wi limit i now : ℕ) (batch : List WorkerWork) (f : Fleet) (x : WorkerWork) where
  abbrev g : Fleet
  g = add_lease wi i now f

  next_number : f.next_id + 1 < u64_mod → g.next_id ≡ f.next_id + 1
  unfolding add_lease
  next_number small = ground arith

  now_held :
      is_some (get_elem? f.workers wi) ≡ true
      → x.lease ≡ g.next_id
      → holds_in g.workers wi x.lease ≡ true
  unfolding add_lease
  now_held hw e =
      ground
        (arith, add_lease-holds wi i now f hw wi x.lease, eqb_iff wi wi, eqb_iff g.next_id x.lease)

  Granted-step :
      f.next_id + 1 < u64_mod
      → is_some (get_elem? f.workers wi) ≡ true
      → is_some (get_elem? f.work i) ≡ true
      → x.lease ≡ g.next_id
      → (r : List WorkerWork × Fleet) → Granted wi limit (batch ++ x ∷ []) g r
      → Granted wi (suc limit) batch f r
  Granted-step small hw ht e r a = record {
    inv = a.inv;
    present = λ j. a.present j ∙ (unfold add_lease in present-modify wi (push_held _) f.workers j);
    size = omega (arith, a.size, length-append batch (x ∷ []));
    ids = unfold add_lease in omega (arith, a.ids);
    dones = λ j. a.dones j ∙ same_dones wi i now f j;
    done = a.done ∙ (unfold add_lease in refl);
    keeps = λ k h. a.keeps k (ground (arith, add_lease-holds wi i now f hw wi k));
    others = λ j k h. a.others j k h ∙ ground (arith, add_lease-holds wi i now f hw j k);
    leased = λ h. a.leased (
        All-append _ batch (x ∷ [])
          (All-map _ _ batch (λ y p. ground (arith, add_lease-holds wi i now f hw wi y.lease)) h)
          (now_held hw e, tt));
    numbers = λ n h p.
        a.numbers n (omega (arith, next_number small))
          (All-append _ batch (x ∷ []) p (omega (arith, next_number small, e), tt));
  }

module _ (wi now : ℕ) where
  leased_duration-Returns :
      (f : Fleet) (ids : List ℕ)
      → Links f
      → ((k : ℕ) → contains ids k ≡ true → is_known f.objects k ≡ true)
      → Returns (λ d. Unit {0}) (leased_duration f ids)
  unfolding leased_duration contains is_known
  leased_duration-Returns f [] v h = tt
  leased_duration-Returns f (id ∷ ids) v h =
      Returns-bind (λ l. lookup id f.objects ≡ some l) (λ d. Unit {0}) (lookup id f.objects) _
        (Returns-self (lookup id f.objects) (h id (ground arith)))
        (λ l e.
          Returns-bind (λ t. get_elem? f.work l.work ≡ some t) (λ d. Unit {0})
            (get_elem? f.work l.work) _
            (Returns-self (get_elem? f.work l.work) (v.reachable id l e))
            (λ t at.
              Returns-bind (λ d. Unit {0}) (λ d. Unit {0}) (leased_duration f ids) _
                (leased_duration-Returns f ids v (λ k p. h k (ground arith))) (λ d _. tt)))

  pub assign_loop-Granted :
      (limit duration : ℕ) (batch : List WorkerWork) (f : Fleet)
      → Inv f
      → f.next_id + limit < u64_mod
      → is_some (get_elem? f.workers wi) ≡ true
      → Returns (Granted wi limit batch f) (assign_loop limit wi now duration batch f)
  unfolding assign_loop
  assign_loop-Granted zero duration batch f v small hw = Granted-none wi zero batch f v
  assign_loop-Granted (suc limit) duration batch f v small hw =
      Returns-bind (λ w. get_elem? f.workers wi ≡ some w) (Granted wi (suc limit) batch f)
        (get_elem? f.workers wi) _ (Returns-self (get_elem? f.workers wi) hw)
        (λ w at.
          elim (Bool-cases
            (leb w.slots (length w.leases) && leb (worker_batch_target * w.slots) duration)) [
              | inl full ↦ rw full (Granted-none wi (suc limit) batch f v)
              | inr room ↦ rw room (elim (Option-cases (next_locked wi w now f)) [
                | inl e ↦ rw e (Granted-none wi (suc limit) batch f v)
                | inr (i, e) ↦ rw e (
                    let (there, open_task) = next_locked-open wi now w f i e in
                    Returns-bind (λ t. get_elem? f.work i ≡ some t) (Granted wi (suc limit) batch f)
                      (get_elem? f.work i) _ (Returns-self (get_elem? f.work i) there)
                      (λ t _.
                        let g = add_lease wi i now f in
                        let x = work_of g.next_id t f in
                        let gv = add_lease-Inv wi i now f v (omega arith) hw there open_task in
                        Returns-map (Granted wi limit (batch ++ x ∷ []) g)
                          (Granted wi (suc limit) batch f) _
                          (assign_loop-Granted limit _ (batch ++ x ∷ []) g gv
                            (unfold add_lease in ground arith)
                            (unfold add_lease in present-modify wi (push_held _) f.workers wi ∙ hw))
                          (Granted-step wi limit i now batch f x (omega arith) hw there refl)))
              ])
            ])

pub assign_locked-Granted :
    (wi limit now : ℕ) (f : Fleet)
    → Inv f
    → f.next_id + limit < u64_mod
    → is_some (get_elem? f.workers wi) ≡ true
    → Returns (Granted wi limit [] f) (assign_locked wi limit now f)
unfolding assign_locked
assign_locked-Granted wi limit now f v small hw =
    Returns-bind (λ w. get_elem? f.workers wi ≡ some w) (Granted wi limit [] f)
      (get_elem? f.workers wi) _ (Returns-self (get_elem? f.workers wi) hw)
      (λ w at.
        elim (Bool-cases
          (not f.ready || f.stopped || f.server.cancelled || not (is_empty w.error))) [
            | inl idle ↦ rw idle (Granted-none wi limit [] f v)
            | inr busy ↦ rw busy (
                Returns-bind (λ d. Unit {0}) (Granted wi limit [] f) (leased_duration f w.leases) _
                  (leased_duration-Returns wi now f w.leases v.links (held_known f wi w v.links at))
                  (λ d _. assign_loop-Granted wi now limit d [] f v small hw))
          ])
