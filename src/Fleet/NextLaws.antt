-- ===== src/Fleet/NextLaws.antt =====
-- distributed.go: the tasks that nextLocked picks and those that it leaves.
use gotst.Prelude.{
  ℕ, zero, suc, ◌+◌, ◌≡◌, refl, ◌∙◌, ap, Bool, true, false, not, ◌&&◌, ◌||◌, List, [], ◌∷◌, Option,
  none, some, arith, Text, text_eq, nat_eq, eqb, eqb_iff, is_empty, get_elem?, Option-cases, inl,
  inr, Bool-cases, ◌⊎◌, is_some,
}
use gotst.Fleet.Data.{Fleet, FleetWorker, FleetTask, WorkLease}
use gotst.Fleet.Assign.{next_fresh, next_overdue, next_locked, overdue}
use gotst.Fleet.Next.{is_fresh}

-- Whether a task has one lease, which is overdue.
unfoldable pub is_overdue : List (ℕ × WorkLease) → ℕ → ℕ → FleetTask → Bool
is_overdue objects wi now t = not t.done && elim t.leases [
  | [] ↦ false
  | id ∷ ids ↦ is_empty ids && overdue objects wi now t.estimate id
]

-- Whether the task at a position has a property.
unfoldable pub at : (FleetTask → Bool) → List FleetTask → ℕ → Bool
at p ts k = elim (get_elem? ts k) [ none ↦ false | some t ↦ p t ]

-- The same with positions counted from `i`.
unfoldable from : (FleetTask → Bool) → ℕ → List FleetTask → ℕ → Bool
from p i [] r = false
from p i (t ∷ ts) r = (eqb i r && p t) || from p (suc i) ts r

unfoldable exists : (FleetTask → Bool) → List FleetTask → Bool
exists p [] = false
exists p (t ∷ ts) = p t || exists p ts

from-at :
    (p : FleetTask → Bool) (i : ℕ) (ts : List FleetTask) (r : ℕ)
    → from p i ts r ≡ true
    → (k : ℕ) × (r ≡ i + k) × (at p ts k ≡ true)
unfolding from at get_elem?
from-at p i [] r h = ground arith
from-at p i (t ∷ ts) r h = elim (Bool-cases (eqb i r && p t)) [
  | inl e ↦ (0, ground (arith, eqb_iff i r), ground arith)
  | inr e ↦
      let (k, shift, holds) = from-at p (suc i) ts r (ground arith) in
      (suc k, omega (arith, shift), holds)
]

from-here :
    (p : FleetTask → Bool) (ts : List FleetTask) (r : ℕ) → from p 0 ts r ≡ true → at p ts r ≡ true
from-here p ts r h =
    let (k, shift, holds) = from-at p 0 ts r h in ap (at p ts) (omega (arith, shift)) ∙ holds

exists-at :
    (p : FleetTask → Bool) (ts : List FleetTask) (k : ℕ) → exists p ts ≡ false → at p ts k ≡ false
unfolding exists at get_elem?
exists-at p [] k h = refl
exists-at p (t ∷ ts) zero h = ground arith
exists-at p (t ∷ ts) (suc k) h = exists-at p ts k (ground arith)

abbrev first_is : Option (ℕ × ℕ) → ℕ → Bool
first_is none r = false
first_is (some p) r = eqb p.0 r

next_fresh-from :
    (binaries : List Text) (i : ℕ) (first : Option (ℕ × ℕ)) (w : ℕ) (ts : List FleetTask) (r : ℕ)
    → next_fresh binaries i first w ts ≡ some r
    → (first_is first r || from is_fresh i ts r) ≡ true
unfolding next_fresh from
next_fresh-from binaries i none w [] r h = ground arith
next_fresh-from binaries i (some p) w [] r h = ground (arith, eqb_iff p.0 r)
next_fresh-from binaries i none w (t ∷ ts) r h = ground (
  arith,
  eqb_iff i r,
  next_fresh-from binaries (suc i) none w ts r,
  next_fresh-from binaries (suc i) (some (i, t.estimate)) (suc w) ts r,
)
next_fresh-from binaries i (some p) w (t ∷ ts) r h = ground (
  arith,
  eqb_iff i r,
  eqb_iff p.0 r,
  next_fresh-from binaries (suc i) (some p) w ts r,
  next_fresh-from binaries (suc i) (some p) (suc w) ts r,
)

next_fresh-none :
    (binaries : List Text) (i : ℕ) (first : Option (ℕ × ℕ)) (w : ℕ) (ts : List FleetTask)
    → next_fresh binaries i first w ts ≡ none
    → (is_some first || exists is_fresh ts) ≡ false
unfolding next_fresh exists
next_fresh-none binaries i none w [] h = refl
next_fresh-none binaries i (some p) w [] h = ground arith
next_fresh-none binaries i none w (t ∷ ts) h = ground (
  arith,
  next_fresh-none binaries (suc i) none w ts,
  next_fresh-none binaries (suc i) (some (i, t.estimate)) (suc w) ts,
)
next_fresh-none binaries i (some p) w (t ∷ ts) h = ground (
  arith,
  next_fresh-none binaries (suc i) (some p) w ts,
  next_fresh-none binaries (suc i) (some p) (suc w) ts,
)

module _ (objects : List (ℕ × WorkLease)) (wi now : ℕ) where
  next_overdue-from :
      (i : ℕ) (ts : List FleetTask) (r : ℕ)
      → next_overdue objects wi now i ts ≡ some r
      → from (is_overdue objects wi now) i ts r ≡ true
  unfolding next_overdue from is_overdue
  next_overdue-from i [] r h = ground arith
  next_overdue-from i (t ∷ ts) r h = ground (arith, eqb_iff i r, next_overdue-from (suc i) ts r)

  next_overdue-none :
      (i : ℕ) (ts : List FleetTask)
      → next_overdue objects wi now i ts ≡ none
      → exists (is_overdue objects wi now) ts ≡ false
  unfolding next_overdue exists is_overdue
  next_overdue-none i [] h = refl
  next_overdue-none i (t ∷ ts) h = ground (arith, next_overdue-none (suc i) ts)

module _ (wi now : ℕ) (w : FleetWorker) (f : Fleet) where
  -- The task that is returned is fresh, or no task is fresh and it is overdue.
  abbrev pub Picks : ℕ → Type 0
  Picks r =
      (at is_fresh f.work r ≡ true)
      ⊎ (((k : ℕ) → at is_fresh f.work k ≡ false)
          × (at (is_overdue f.objects wi now) f.work r ≡ true))

  -- A task that nextLocked returns is neither done nor leased, or no task is such, and it has one
  -- lease, another worker's, that is overdue.
  pub next_locked-Picks : (r : ℕ) → next_locked wi w now f ≡ some r → Picks r
  unfolding next_locked
  next_locked-Picks r h = elim (Option-cases (next_fresh w.binaries 0 none 0 f.work)) [
    | inl e ↦ inr (
      (λ k.
          exists-at is_fresh f.work k (ground (arith, next_fresh-none w.binaries 0 none 0 f.work))),
      from-here (is_overdue f.objects wi now) f.work r
          (next_overdue-from f.objects wi now 0 f.work r (ground arith)),
    )
    | inr e ↦ inl (
        from-here is_fresh f.work r
          (ground (arith, next_fresh-from w.binaries 0 none 0 f.work r, e.1)))
  ]

  -- When nextLocked returns none, each task is done or leased, and none has just one lease,
  -- another worker's, that is overdue.
  pub next_locked-misses :
      next_locked wi w now f ≡ none
      → (k : ℕ) → (at is_fresh f.work k || at (is_overdue f.objects wi now) f.work k) ≡ false
  unfolding next_locked
  next_locked-misses h k = ground (
    arith,
    next_fresh-none w.binaries 0 none 0 f.work,
    next_overdue-none f.objects wi now 0 f.work,
    exists-at is_fresh f.work k,
    exists-at (is_overdue f.objects wi now) f.work k,
  )
