-- ===== src/Summary/Laws.antt =====
-- summary.go: the phases take all the time of the run, and a worker is not measured outside the tests.
use gotst.Prelude.{
  zero, suc, suc, ltb→lt, if◌then◌else◌, ℕ, ◌+◌, ◌-◌, ◌*◌, ◌≤◌, ◌<◌, ◌≡◌, refl, max, List, [], ◌∷◌,
  Option, none, some, ltb, arith, Bool-cases, inl, inr, All,
}
use gotst.Fleet.{FleetWorker}
use gotst.Summary.{
  FleetSummary, PhaseStart, PhaseDuration, is_end, is_testing, next_start, phase_durations,
  test_span, connected_until, busy_of, summarize, summarize_all, fleet_summary_locked,
}

abbrev pub total_of : List PhaseDuration → ℕ
total_of [] = 0
total_of (p ∷ ps) = p.duration + total_of ps

-- The durations of the phases of tests.
abbrev pub tested_of : List PhaseDuration → ℕ
tested_of [] = 0
tested_of (p ∷ ps) = if is_testing p.phase then p.duration + tested_of ps else tested_of ps

-- When the run was over, or else the end.
abbrev pub over_at : ℕ → List PhaseStart → ℕ
over_at end [] = end
over_at end (p ∷ ps) = if is_end p.phase then p.at else over_at end ps

-- The phases start one after the other, and the last one before the end.
abbrev pub InOrder : ℕ → List PhaseStart → Type 0
InOrder end [] = Unit
InOrder end (p ∷ ps) = (p.at ≤ next_start end ps) × InOrder end ps

phase_durations-total :
    (end : ℕ) (starts : List PhaseStart)
    → InOrder end starts
    → next_start end starts + total_of (phase_durations end starts) ≡ over_at end starts
unfolding phase_durations next_start
phase_durations-total end [] h = omega arith
phase_durations-total end (p ∷ ps) h = elim (Bool-cases (is_end p.phase)) [
  | inl e ↦ rw (e) (omega arith)
  | inr e ↦ rw (e) (omega (arith, h.0, phase_durations-total end ps h.1))
]

-- A span of time that is no longer than `m`.
abbrev pub Within : ℕ → Option (ℕ × ℕ) → Type 0
Within m none = Unit
Within m (some (a, b)) = b - a ≤ m

Within-more : (m n : ℕ) (span : Option (ℕ × ℕ)) → m ≤ n → Within m span → Within n span
Within-more m n none h g = tt
Within-more m n (some (a, b)) h g = omega (arith, h, g)

test_span-Within :
    (end m : ℕ) (starts : List PhaseStart) (span : Option (ℕ × ℕ))
    → Within m span
    → Within (m + tested_of (phase_durations end starts)) (test_span end starts span)
unfolding test_span phase_durations
test_span-Within end m [] span h = Within-more m (m + 0) span (omega arith) h
test_span-Within end m (p ∷ ps) span h =
    let d = next_start end ps - p.at in
    let rest = tested_of (phase_durations end ps) in
    elim (Bool-cases (is_end p.phase)) [
      | inl e ↦ rw (e) (Within-more m (m + 0) span (omega arith) h)
      | inr e ↦ elim (Bool-cases (is_testing p.phase)) [
        | inl t ↦
            rw (e, t)
              (Within-more (d + rest) (m + (d + rest))
                (test_span end ps (some (p.at, next_start end ps))) (omega arith)
                (test_span-Within end d ps (some (p.at, next_start end ps)) (omega arith)))
        | inr n ↦ rw (e, n) (test_span-Within end m ps span h)
      ]
    ]

-- What is measured of a worker, of at most so much time for each slot.
abbrev pub Measured : ℕ → ℕ → ℕ → Option (ℕ × ℕ) → Type 0
Measured m slots test_time none = Unit
Measured m slots test_time (some (d, t)) = (d ≡ test_time) × (0 < t) × (t ≤ m * slots)

connected_until-upper : (test_end : ℕ) (w : FleetWorker) → connected_until test_end w ≤ test_end
unfolding connected_until
connected_until-upper test_end w = ground arith

slots_positive : (x slots : ℕ) → 0 < x → 0 < slots → 0 < x * slots
slots_positive x zero h g = absurd (omega (arith, g))
slots_positive x (suc n) h g = ground arith

slots_mono : (x m slots : ℕ) → x ≤ m → x * slots ≤ m * slots
slots_mono x m zero h = ground arith
slots_mono x m (suc n) h = ground (arith, slots_mono x m n h)

busy_of-Measured :
    (m : ℕ) (span : Option (ℕ × ℕ)) (w : FleetWorker)
    → Within m span
    → Measured m w.slots w.duration (busy_of span w)
unfolding busy_of
busy_of-Measured m none w h = tt
busy_of-Measured m (some (a, b)) w h =
    let from = max w.joined a in
    let to = connected_until b w in
    elim (Bool-cases (ltb from to)) [
      | inr e ↦ rw (e) tt
      | inl e ↦ elim (Bool-cases (ltb 0 w.slots)) [
        | inr f ↦ rw (e, f) tt
        | inl f ↦
            rw (e, f)
              (
                refl,
                slots_positive (to - from) w.slots (omega (arith, ltb→lt from to e))
                    (ltb→lt 0 w.slots f),
                slots_mono (to - from) m w.slots (omega (arith, connected_until-upper b w, h)),
              )
      ]
    ]

summarize_all-Measured :
    (m start : ℕ) (span : Option (ℕ × ℕ)) (workers : List FleetWorker)
    → Within m span
    → All (λ ws. Measured m ws.slots ws.test_time ws.busy) (summarize_all start span workers)
unfolding summarize_all summarize
summarize_all-Measured m start span [] h = tt
summarize_all-Measured m start span (w ∷ ws) h =
    (busy_of-Measured m span w h, summarize_all-Measured m start span ws h)

-- What the summary of a run promises, with the time of all its phases and that of its phases of tests.
pub record Summarizes (starts : List PhaseStart) (end : ℕ) (sum : FleetSummary) : Type 0 where
  pub total : next_start end starts + total_of sum.phases ≡ over_at end starts
  pub measured :
      All (λ ws. Measured (tested_of sum.phases) ws.slots ws.test_time ws.busy) sum.workers

-- Where the phases start one after the other and before the end, their durations in the summary
-- add up to the time from the first start until the run was over or the end, and what is measured
-- of a worker is its test time against a time that is not zero and at most the phases of tests for
-- each of its slots.
pub fleet_summary_locked-Summarizes :
    (start : ℕ) (starts : List PhaseStart) (workers : List FleetWorker) (end : ℕ)
    → InOrder end starts
    → Summarizes starts end (fleet_summary_locked start starts workers end)
unfolding fleet_summary_locked
fleet_summary_locked-Summarizes start starts workers end h = record {
  total = phase_durations-total end starts h;
  measured =
      summarize_all-Measured (tested_of (phase_durations end starts)) start
        (test_span end starts none) workers
        (Within-more (0 + tested_of (phase_durations end starts))
          (tested_of (phase_durations end starts)) (test_span end starts none) (omega arith)
          (test_span-Within end 0 starts none tt));
}
