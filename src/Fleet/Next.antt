-- ===== src/Fleet/Next.antt =====
-- distributed.go: nextLocked, against a description of the queue by the fresh tasks alone.
use gotst.Prelude.{
  ℕ, zero, suc, ◌+◌, ◌-◌, ◌≡◌, refl, ◌/◌, Bool, true, not, ◌&&◌, ◌||◌, List, [], ◌∷◌, Option, none,
  some, arith, Text, text_eq, nat_eq, leb, is_empty, is_some, contains, take, if◌then◌else◌,
}
use gotst.Server.{bin_hash}
use gotst.Fleet.Data.{Fleet, FleetWorker, FleetTask}
use gotst.Fleet.Assign.{next_fresh, next_locked}

abbrev pub is_fresh : FleetTask → Bool
is_fresh t = not (t.done || not (is_empty t.leases))

-- The fresh tasks with their positions, counted from `i`.
unfoldable pub fresh_from : ℕ → List FleetTask → List (ℕ × FleetTask)
fresh_from i [] = []
fresh_from i (t ∷ ts) =
    let rest = fresh_from (suc i) ts in if is_fresh t then (i, t) ∷ rest else rest

-- The first of the tasks whose binary the worker has, and whose estimate is at least 80% of `e`.
unfoldable pub first_held : List Text → ℕ → List (ℕ × FleetTask) → Option ℕ
first_held binaries e [] = none
first_held binaries e ((i, t) ∷ ts) =
    if contains binaries (bin_hash t.task.bin.abs_bin) && leb (e - e / 5) t.estimate
    then some i
    else first_held binaries e ts

abbrev pub or_else : ℕ → Option ℕ → ℕ
or_else j none = j
or_else j (some k) = k

-- The choice among the first five fresh tasks.
unfoldable pub choose : List Text → List (ℕ × FleetTask) → Option ℕ
unfolding first_held
choose binaries [] = none
choose binaries ((i, t) ∷ ts) =
    some (or_else i (first_held binaries t.estimate (take 5 ((i, t) ∷ ts))))

next_fresh-later :
    (binaries : List Text) (i j e w k : ℕ) (ts : List FleetTask)
    → (w + suc k ≡ 5)
    → next_fresh binaries i (some (j, e)) w ts
      ≡ some (or_else j (first_held binaries e (take (suc k) (fresh_from i ts))))
unfolding next_fresh first_held fresh_from
next_fresh-later binaries i j e w k [] h = refl
next_fresh-later binaries i j e w zero (t ∷ ts) h =
    ground (arith, next_fresh-later binaries (suc i) j e w zero ts h)
next_fresh-later binaries i j e w (suc k) (t ∷ ts) h = ground (
  arith,
  next_fresh-later binaries (suc i) j e w (suc k) ts h,
  next_fresh-later binaries (suc i) j e (suc w) k ts,
)

-- The first loop of nextLocked chooses, among the first five tasks that are neither done nor
-- leased, the first whose binary the worker has and whose estimate is at least 80% of the first
-- one's, or else the first.
pub next_fresh-choose :
    (binaries : List Text) (i : ℕ) (ts : List FleetTask)
    → next_fresh binaries i none 0 ts ≡ choose binaries (fresh_from i ts)
unfolding next_fresh choose first_held fresh_from
next_fresh-choose binaries i [] = refl
next_fresh-choose binaries i (t ∷ ts) = ground (
  arith,
  next_fresh-choose binaries (suc i) ts,
  next_fresh-later binaries (suc i) i t.estimate 1 3 ts,
)

pub next_locked-choose :
    (wi now : ℕ) (w : FleetWorker) (f : Fleet)
    → is_some (choose w.binaries (fresh_from 0 f.work)) ≡ true
    → next_locked wi w now f ≡ choose w.binaries (fresh_from 0 f.work)
unfolding next_locked
next_locked-choose wi now w f h = ground (arith, next_fresh-choose w.binaries 0 f.work)
