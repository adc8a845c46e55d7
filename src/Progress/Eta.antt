-- ===== src/Progress/Eta.antt =====
-- progress.go: testETALocked. Durations are nanoseconds that are not negative.
use gotst.Prelude.{
  zero, suc, suc, ℕ, ◌+◌, ◌-◌, ◌/◌, max, Bool, true, false, not, ◌&&◌, List, [], ◌∷◌, ◌++◌, Option,
  none, some, Text, text, text_eq, ◌==◌, length, lookup, ltb, eqb, is_empty, modify, if◌then◌else◌,
}
use gotst.Go.Duration.{second}
use gotst.Server.{Server, TestStatus}
use gotst.Schedule.{TestEstimate}
use gotst.Fleet.{FleetWorker}

-- `runPhase`
pub data RunPhase : Type 0 where
  discovering building listing testing done failed : RunPhase

abbrev pub shows_eta : RunPhase → Bool
shows_eta testing = true
shows_eta done = true
shows_eta failed = true
shows_eta _ = false

-- A helper that is connected and has no error.
abbrev pub is_helper : FleetWorker → Bool
is_helper w = not (w.id == text "leader") && w.connected && is_empty w.error

-- The slots of the leader and its helpers.
unfoldable pub capacity_of : ℕ → List FleetWorker → ℕ
capacity_of jobs [] = max 1 jobs
capacity_of jobs (w ∷ ws) =
    let rest = capacity_of jobs ws in if is_helper w then rest + w.slots else rest

-- An entry of the schedule, whose name is cut at a zero byte.
pub record Scheduled : Type 0 where
  pub pkg : Text
  pub test : Text
  pub estimate : TestEstimate

unfoldable pub status_of : Server → Scheduled → Option TestStatus
status_of s t = elim (lookup t.pkg s.pkgs) [ none ↦ none | some p ↦ lookup t.test p.tests ]

-- What a running test is taken to need: a test beyond its estimate needs half of it, or a second. A
-- test that started at the zero time is beyond it.
unfoldable pub residual : ℕ → ℕ → TestStatus → ℕ
residual now estimate ts =
    let left : ℕ = elim ts.started [ none ↦ 0 | some t ↦ estimate - (now - t) ] in
    if eqb left 0 then max second (estimate / 2) else left

-- The variables of the first loop.
pub record Remaining : Type 0 where
  pub running : List ℕ
  pub queued : List ℕ
  pub unknown : ℕ

-- The first loop, for so many slots.
unfoldable pub remaining_work : ℕ → ℕ → Server → List Scheduled → Remaining → Remaining
unfolding status_of residual
remaining_work capacity now s [] r = r
remaining_work capacity now s (t ∷ ts) r = elim (status_of s t) [
  | none ↦ remaining_work capacity now s ts r
  | some st ↦ elim st.done [
    | true ↦ remaining_work capacity now s ts r
    | false ↦
        let counted = record r {
          unknown = if t.estimate.known then r.unknown else r.unknown + 1;
        } in
        elim st.running [
          | false ↦
              remaining_work capacity now s ts
                (record counted { queued = counted.queued ++ t.estimate.duration ∷ [] })
          | true ↦
              let left = residual now t.estimate.duration st in
              elim (ltb (length counted.running) capacity) [
                | true ↦
                    remaining_work capacity now s ts
                      (record counted { running = counted.running ++ left ∷ [] })
                | false ↦
                    remaining_work capacity now s ts
                      (record counted { queued = counted.queued ++ left ∷ [] })
              ]
        ]
  ]
]

-- The slots, of which the free ones are zero.
unfoldable pub pad_slots : ℕ → List ℕ
pad_slots zero = []
pad_slots (suc n) = 0 ∷ pad_slots n

unfoldable pub slots_of : ℕ → Remaining → List ℕ
unfolding pad_slots
slots_of capacity r = r.running ++ pad_slots (capacity - length r.running)

-- The loop for the first slot with the least work: `i` is the best one so far with its work `least`.
unfoldable pub least_from : ℕ → ℕ → ℕ → List ℕ → ℕ
least_from i least j [] = i
least_from i least j (d ∷ ds) =
    if ltb d least then least_from j d (j + 1) ds else least_from i least (j + 1) ds

unfoldable pub least_slot : List ℕ → ℕ
unfolding least_from
least_slot [] = 0
least_slot (d ∷ ds) = least_from 0 d 1 ds

-- The second loop.
unfoldable pub assign_queued : List ℕ → List ℕ → List ℕ
unfolding least_slot modify
assign_queued [] slots = slots
assign_queued (d ∷ ds) slots = assign_queued ds (modify (least_slot slots) (λ n. n + d) slots)

-- `slices.Max` of slots, of which there is one at least.
unfoldable pub max_of : List ℕ → ℕ
max_of [] = 0
max_of (d ∷ ds) = max d (max_of ds)

-- The loops of `testETALocked`: the time and the unknown tests.
unfoldable pub test_eta : ℕ → List FleetWorker → ℕ → Server → List Scheduled → ℕ × ℕ
unfolding capacity_of remaining_work slots_of assign_queued max_of
test_eta jobs workers now s schedule =
    let capacity = capacity_of jobs workers in
    let r =
      remaining_work capacity now s schedule (record { running = []; queued = []; unknown = 0 }) in
    (max_of (assign_queued r.queued (slots_of capacity r)), r.unknown)

-- `testETALocked`, with whether the estimates are there.
unfoldable pub test_eta_locked :
    Bool → RunPhase → ℕ → List FleetWorker → ℕ → Server → List Scheduled → ℕ × ℕ × Bool
unfolding test_eta
test_eta_locked ready phase jobs workers now s schedule =
    let eta = test_eta jobs workers now s schedule in
    if not (ready && shows_eta phase) then (0, 0, false) else (eta.0, eta.1, true)
