-- ===== src/Progress/EtaLaws.antt =====
-- progress.go: the bounds of the estimated time.
use gotst.Prelude.{
  subst, if-cases, ap, Option-cases, ◌∙◌, zero, suc, ℕ, ◌+◌, ◌-◌, ◌*◌, ◌≤◌, ◌<◌, ◌≡◌, refl, Bool,
  true, List, [], ◌∷◌, ◌++◌, length, length-append, length-modify, modify, ltb, arith, Bool-cases,
  inl, inr,
}
use gotst.Server.{Server}
use gotst.Fleet.{FleetWorker}
use gotst.Progress.Eta.{
  shows_eta, RunPhase, test_eta_locked, residual, status_of, is_helper, Scheduled, Remaining,
  capacity_of, remaining_work, pad_slots, slots_of, least_from, least_slot, assign_queued, max_of,
  test_eta,
}

abbrev pub sum_of : List ℕ → ℕ
sum_of [] = 0
sum_of (d ∷ ds) = d + sum_of ds

sum_of-append : (as' bs : List ℕ) → sum_of (as' ++ bs) ≡ sum_of as' + sum_of bs
sum_of-append [] bs = omega arith
sum_of-append (a ∷ r) bs = omega (arith, sum_of-append r bs)

sum_of-modify :
    (i d : ℕ) (slots : List ℕ)
    → i < length slots
    → sum_of (modify i (λ n. n + d) slots) ≡ sum_of slots + d
unfolding modify
sum_of-modify i d [] h = absurd (omega (arith, h))
sum_of-modify zero d (s ∷ ss) h = omega arith
sum_of-modify (suc i) d (s ∷ ss) h = omega (arith, sum_of-modify i d ss (omega (arith, h)))

-- The loop ends at the best slot before it or at a later one.
least_from-below :
    (i least j : ℕ) (ds : List ℕ) (n : ℕ) → i < n → j + length ds ≤ n → least_from i least j ds < n
unfolding least_from
least_from-below i least j [] n h g = h
least_from-below i least j (d ∷ ds) n h g = elim (Bool-cases (ltb d least)) [
  | inl e ↦ rw (e) (least_from-below j d (j + 1) ds n (omega (arith, g)) (omega (arith, g)))
  | inr e ↦ rw (e) (least_from-below i least (j + 1) ds n h (omega (arith, g)))
]

least_slot-below : (slots : List ℕ) → 0 < length slots → least_slot slots < length slots
unfolding least_slot
least_slot-below [] h = h
least_slot-below (d ∷ ds) h = least_from-below 0 d 1 ds (suc (length ds)) h (omega arith)

assign_queued-sum :
    (ds slots : List ℕ)
    → 0 < length slots
    → (sum_of (assign_queued ds slots) ≡ sum_of slots + sum_of ds)
      × (length (assign_queued ds slots) ≡ length slots)
unfolding assign_queued
assign_queued-sum [] slots h = (omega arith, refl)
assign_queued-sum (d ∷ ds) slots h =
    let i = least_slot slots in
    let same = length-modify i (λ n. n + d) slots in
    let rest = assign_queued-sum ds (modify i (λ n. n + d) slots) (omega (arith, same, h)) in
    (omega (arith, rest.0, sum_of-modify i d slots (least_slot-below slots h)), rest.1 ∙ same)

max_of-upper : (ds : List ℕ) → max_of ds ≤ sum_of ds
unfolding max_of
max_of-upper [] = omega arith
max_of-upper (d ∷ ds) = omega (arith, max_of-upper ds)

sum_of-bound : (ds : List ℕ) (m : ℕ) → max_of ds ≤ m → sum_of ds ≤ length ds * m
unfolding max_of
sum_of-bound [] m h = omega arith
sum_of-bound (d ∷ ds) m h = ground (arith, sum_of-bound ds m)

pad_slots-empty : (n : ℕ) → (sum_of (pad_slots n) ≡ 0) × (length (pad_slots n) ≡ n)
unfolding pad_slots
pad_slots-empty zero = (refl, refl)
pad_slots-empty (suc n) = (omega (arith, pad_slots-empty n), omega (arith, pad_slots-empty n))

slots_of-sum :
    (capacity : ℕ) (r : Remaining)
    → length r.running ≤ capacity
    → (sum_of (slots_of capacity r) ≡ sum_of r.running) × (length (slots_of capacity r) ≡ capacity)
unfolding slots_of
slots_of-sum capacity r h =
    let pads = pad_slots-empty (capacity - length r.running) in
    (
      omega (arith, sum_of-append r.running (pad_slots (capacity - length r.running)), pads.0),
      omega (arith, length-append r.running (pad_slots (capacity - length r.running)), pads.1, h),
    )

-- No more running tests than slots are put into slots.
remaining_work-fits :
    (capacity now : ℕ) (s : Server) (ts : List Scheduled) (r : Remaining)
    → length r.running ≤ capacity
    → length (remaining_work capacity now s ts r).running ≤ capacity
unfolding remaining_work
remaining_work-fits capacity now s [] r h = h
remaining_work-fits capacity now s (t ∷ ts) r h = elim (Option-cases (status_of s t)) [
  | inl e ↦ rw (e, remaining_work) (remaining_work-fits capacity now s ts r h)
  | inr (st, e) ↦ elim (Bool-cases st.done) [
    | inl d ↦ rw (e, d, remaining_work) (remaining_work-fits capacity now s ts r h)
    | inr d ↦ elim (Bool-cases st.running) [
      | inr n ↦ rw (e, d, n, remaining_work) (remaining_work-fits capacity now s ts _ h)
      | inl n ↦ elim (Bool-cases (ltb (length r.running) capacity)) [
        | inl free ↦
            rw (e, d, n, free, remaining_work)
              (remaining_work-fits capacity now s ts _ (
                ground (
                  arith,
                  free,
                  length-append r.running (residual now t.estimate.duration st ∷ []),
                )))
        | inr full ↦ rw (e, d, n, full, remaining_work) (remaining_work-fits capacity now s ts _ h)
      ]
    ]
  ]
]

capacity_of-positive : (jobs : ℕ) (workers : List FleetWorker) → 0 < capacity_of jobs workers
unfolding capacity_of
capacity_of-positive jobs [] = omega arith
capacity_of-positive jobs (w ∷ ws) =
    if-cases (λ n. 0 < n) (is_helper w) (capacity_of jobs ws + w.slots) (capacity_of jobs ws)
      (λ e. omega (arith, capacity_of-positive jobs ws)) λ e. capacity_of-positive jobs ws

-- The work that is left for the schedule.
abbrev pub work_left : ℕ → List FleetWorker → ℕ → Server → List Scheduled → Remaining
work_left jobs workers now s schedule =
    remaining_work (capacity_of jobs workers) now s schedule
      (record { running = []; queued = []; unknown = 0 })

-- The work of the running tests and that of the tests in the queue.
abbrev pub total_left : ℕ → List FleetWorker → ℕ → Server → List Scheduled → ℕ
total_left jobs workers now s schedule =
    let r = work_left jobs workers now s schedule in sum_of r.running + sum_of r.queued

test_eta-bounds :
    (jobs : ℕ) (workers : List FleetWorker) (now : ℕ) (s : Server) (schedule : List Scheduled)
    → ((test_eta jobs workers now s schedule).0 ≤ total_left jobs workers now s schedule)
      × (total_left jobs workers now s schedule
          ≤ capacity_of jobs workers * (test_eta jobs workers now s schedule).0)
unfolding test_eta
test_eta-bounds jobs workers now s schedule =
    let cap = capacity_of jobs workers in
    let r = work_left jobs workers now s schedule in
    let slots = slots_of cap r in
    let shape = slots_of-sum cap r (remaining_work-fits cap now s schedule _ (omega arith)) in
    let spread =
      assign_queued-sum r.queued slots
        (omega (arith, shape.1, capacity_of-positive jobs workers)) in
    let full = assign_queued r.queued slots in
    let total : sum_of full ≡ sum_of r.running + sum_of r.queued =
      spread.0 ∙ ap (λ n. n + sum_of r.queued) shape.0 in
    let size : length full ≡ cap = spread.1 ∙ shape.1 in
    (
      subst (λ n. max_of full ≤ n) total (max_of-upper full),
      subst (λ n. n ≤ cap * max_of full) total
          (subst (λ n. sum_of full ≤ n * max_of full) size
            (sum_of-bound full (max_of full) (omega arith))),
    )

-- Once there are estimates and the phase shows them, the estimated time is at most all the work
-- that is left, running and queued, and at least its share for each slot of the leader and its
-- helpers.
pub test_eta_locked-bounds :
    (ready : Bool) (phase : RunPhase) (jobs : ℕ) (workers : List FleetWorker) (now : ℕ) (s : Server)
    (schedule : List Scheduled)
    → ready ≡ true
    → shows_eta phase ≡ true
    → ((test_eta_locked ready phase jobs workers now s schedule).0
        ≤ total_left jobs workers now s schedule)
      × (total_left jobs workers now s schedule
          ≤ capacity_of jobs workers * (test_eta_locked ready phase jobs workers now s schedule).0)
unfolding test_eta_locked
test_eta_locked-bounds ready phase jobs workers now s schedule r p =
    rw (r, p) (test_eta-bounds jobs workers now s schedule)
