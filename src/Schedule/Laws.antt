-- ===== src/Schedule/Laws.antt =====
-- history.go: the newest observation of a history.
use gotst.Prelude.{ℕ, ◌≤◌, ◌≡◌, subst, List, [], ◌∷◌, some, arith, if◌then◌else◌, All}
use gotst.History.{Observation}
use gotst.Schedule.Latest.{newer, latest_of, latest}

-- No observation of the list is newer.
abbrev pub NotOlder : ℕ → List Observation → Type 0
NotOlder n = All (λ (o : Observation). o.observed_at ≤ n)

newer-le :
    (o l : Observation)
    → (l.observed_at ≤ (if newer o l then o else l).observed_at)
      × (o.observed_at ≤ (if newer o l then o else l).observed_at)
unfolding newer
newer-le o l = (ground arith, ground arith)

latest_of-NotOlder :
    (l : Observation) (os : List Observation)
    → (l.observed_at ≤ (latest_of l os).observed_at) × NotOlder (latest_of l os).observed_at os
unfolding latest_of
latest_of-NotOlder l [] = (omega arith, tt)
latest_of-NotOlder l (o ∷ os) =
    let acc = if newer o l then o else l in
    let (old, new) = newer-le o l in
    let (a, b) = latest_of-NotOlder acc os in (omega (arith, old, a), (omega (arith, new, a), b))

-- The newest observation of a history is not older than any observation of it.
pub latest-NotOlder :
    (os : List Observation) (o : Observation) → latest os ≡ some o → NotOlder o.observed_at os
unfolding latest
latest-NotOlder [] o h = ground arith
latest-NotOlder (x ∷ os) o h =
    let same : latest_of x os ≡ o = ground arith in
    subst (λ (y : Observation). NotOlder y.observed_at (x ∷ os)) same (latest_of-NotOlder x os)
