-- ===== src/Worker/LoopLaws.antt =====
-- worker.go: the slots of a helper's loop.
use gotst.Prelude.{
  length-append, sym, ◌∙◌, subst, ◌&&◌, is_empty, not, if-cases, ap, ℕ, ◌+◌, ◌≤◌, ◌≡◌, refl, true,
  false, List, [], ◌∷◌, Option, none, nat_eq, contains, length, ltb, arith, ◌⊎◌, inl, inr,
  Bool-cases,
}
use gotst.Fleet.{WorkerRequest, WorkerWork}
use gotst.Worker.Loop.{
  returns_nil, returns_error, HelperExecution, WorkerLoop, is_active, start_queue, start_executions,
  add_work, cancel_all, take_out, send_ready, send_result, on_response, Exchange, exchange_failed,
  exchanged, on_ready, on_result, on_tick, send_request, goes_on, Step, sends, responds, prepared,
  refused, executed, receives_ready, receives_result, ticks, Reaches, starts, steps,
}

-- How many executions take a slot: those that have not sent a result, and those whose result has not
-- been received.
abbrev pub taken : WorkerLoop → ℕ
taken l = length l.preparing + length l.executing + length l.results

-- The counter of running executions is right, it is at most the number of slots, and a slot is free
-- only if no execution is queued.
pub record Full (jobs : ℕ) (l : WorkerLoop) : Type 0 where
  pub counts : l.running ≡ taken l
  pub bounded : l.running ≤ jobs
  pub busy : (l.running ≡ jobs) ⊎ (l.queue ≡ [])

abbrev Counted : ℕ → WorkerLoop → Type 0
Counted jobs l = (l.running ≡ taken l) × (l.running ≤ jobs)

start_queue-Full :
    (jobs : ℕ) (es : List HelperExecution) (l : WorkerLoop)
    → Counted jobs l
    → Full jobs (start_queue jobs es l)
unfolding start_queue
start_queue-Full jobs [] l h = record { counts = h.0; bounded = h.1; busy = inr refl }
start_queue-Full jobs (e ∷ es) l h = elim (Bool-cases (ltb l.running jobs)) [
  | inr full ↦
      rw (full, start_queue)
        (record { counts = h.0; bounded = h.1; busy = inl (ground (arith, full, h)) })
  | inl free ↦ elim (Bool-cases (is_active l.active e)) [
    | inr gone ↦ rw (free, gone, start_queue) (start_queue-Full jobs es l h)
    | inl here ↦
        rw (free, here, start_queue)
          (start_queue-Full jobs es _ (omega (arith, h.0), ground (arith, free)))
  ]
]

add_work-keeps :
    (ws : List WorkerWork) (l : WorkerLoop)
    → ((add_work ws l).running ≡ l.running) × (taken (add_work ws l) ≡ taken l)
unfolding add_work
add_work-keeps [] l = (refl, refl)
add_work-keeps (w ∷ ws) l = add_work-keeps ws _

length-take_out :
    (lease : ℕ) (leases : List ℕ)
    → contains leases lease ≡ true
    → length leases ≡ length (take_out lease leases) + 1
unfolding take_out contains
length-take_out lease [] h = ground arith
length-take_out lease (k ∷ ks) h = ground (arith, length-take_out lease ks)

start_executions-Full :
    (jobs : ℕ) (l : WorkerLoop) → Counted jobs l → Full jobs (start_executions jobs l)
unfolding start_executions
start_executions-Full jobs l h = start_queue-Full jobs l.queue l h

goes_on-injective : (l m : WorkerLoop) → goes_on l ≡ goes_on m → l ≡ m
goes_on-injective l m h = ap (λ s. elim s [ goes_on x ↦ x | returns_error ↦ l | returns_nil ↦ l ]) h

on_response-Full :
    (jobs : ℕ) (x : Exchange) (l m : WorkerLoop)
    → Full jobs l
    → on_response jobs x l ≡ goes_on m
    → Full jobs m
unfolding on_response
on_response-Full jobs exchange_failed l m f = λ e. absurd (ground (arith, e))
on_response-Full jobs (exchanged res) l m f =
    let cleared : WorkerLoop = record l {
      in_flight = false;
      active = cancel_all res.cancel l.active;
    } in
    let same = add_work-keeps res.work cleared in
    if-cases (λ s. s ≡ goes_on m → Full jobs m) (not (is_empty res.error)) returns_error _
      (λ h e. absurd (ground (arith, e)))
      λ h.
        if-cases (λ s. s ≡ goes_on m → Full jobs m) res.done returns_nil
          (goes_on (start_executions jobs (add_work res.work cleared)))
          (λ d e. absurd (ground (arith, e)))
          λ d e. subst (Full jobs) (goes_on-injective _ m e) (
            start_executions-Full jobs (add_work res.work cleared)
              (same.0 ∙ f.counts ∙ sym same.1, subst (λ n. n ≤ jobs) (sym same.0) f.bounded))

Step-Full : (jobs : ℕ) (l m : WorkerLoop) → Step jobs l m → Full jobs l → Full jobs m
unfolding send_request send_ready send_result on_ready on_result on_tick
Step-Full jobs l m (sends _) f =
    if-cases (λ (s : Option WorkerRequest × WorkerLoop). Full jobs s.1)
      (not (l.dirty && not l.in_flight)) (none, l) _ (λ h. f)
      λ h. record { counts = f.counts; bounded = f.bounded; busy = f.busy }
Step-Full jobs l m (responds _ _ x h e) f = on_response-Full jobs x l m f e
Step-Full jobs l m (prepared _ lease hash h room) f = record {
  counts = omega (arith, f.counts, length-take_out lease l.preparing h);
  bounded = f.bounded;
  busy = f.busy;
}
Step-Full jobs l m (refused _ r h room) f = record {
  counts =
      omega
        (arith, f.counts, length-take_out r.lease l.preparing h, length-append l.results (r ∷ []));
  bounded = f.bounded;
  busy = f.busy;
}
Step-Full jobs l m (executed _ r h room) f = record {
  counts =
      omega
        (arith, f.counts, length-take_out r.lease l.executing h, length-append l.results (r ∷ []));
  bounded = f.bounded;
  busy = f.busy;
}
Step-Full jobs l m (receives_ready _ lease hash rest h) f = record {
  counts = f.counts;
  bounded = f.bounded;
  busy = f.busy;
}
Step-Full jobs l m (receives_result _ r rest h) f =
    let received = ap length h in
    let after =
      start_executions-Full jobs _ (omega (arith, received, f.counts), omega (arith, f.bounded)) in
    record { counts = after.counts; bounded = after.bounded; busy = after.busy }
Step-Full jobs l m (ticks _) f = record { counts = f.counts; bounded = f.bounded; busy = f.busy }

-- After any order of the events of a helper's loop and of the sends of its goroutines, the counter
-- of running executions is the number of goroutines that have not sent a result and of results
-- that have not been received, it is at most the number of slots, and if a slot is free no
-- execution is queued.
pub Reaches-Full : (jobs : ℕ) (l : WorkerLoop) → Reaches jobs l → Full jobs l
Reaches-Full jobs l starts = record { counts = refl; bounded = omega arith; busy = inr refl }
Reaches-Full jobs l (steps k _ before step) = Step-Full jobs k l step (Reaches-Full jobs k before)
