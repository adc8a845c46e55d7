-- ===== src/Fleet/Views.antt =====
-- distributed.go: what the fleet's three lease maps and its tasks show, position by position, and the
-- agreement of the maps.
use gotst.Prelude.{
  ℕ, ◌+◌, ◌<◌, ◌≡◌, Bool, true, false, ◌&&◌, List, [], ◌∷◌, Option, none, some, nat_eq, eqb,
  is_some, lookup, contains, get_elem?, if◌then◌else◌,
}
use gotst.Server.{TestTask}
use gotst.Fleet.Data.{Fleet, FleetWorker, FleetTask, WorkLease}

-- Whether worker `i` holds lease `id`, and whether task `j` is leased under it.
abbrev pub held_by : Option FleetWorker → ℕ → Bool
held_by none id = false
held_by (some w) id = contains w.leases id

unfoldable pub holds_in : List FleetWorker → ℕ → ℕ → Bool
holds_in ws i id = held_by (get_elem? ws i) id

abbrev pub connected_of : Option FleetWorker → Bool
connected_of none = false
connected_of (some w) = w.connected

-- Whether the worker at a position is connected.
unfoldable pub connected_in : List FleetWorker → ℕ → Bool
connected_in ws i = connected_of (get_elem? ws i)

abbrev pub leased_by : Option FleetTask → ℕ → Bool
leased_by none id = false
leased_by (some t) id = contains t.leases id

unfoldable pub leased_in : List FleetTask → ℕ → ℕ → Bool
leased_in ts j id = leased_by (get_elem? ts j) id

-- Whether the lease object `id` is of worker `i`, and for task `j`.
abbrev pub owned_by : Option WorkLease → ℕ → Bool
owned_by none i = false
owned_by (some l) i = eqb l.worker i

unfoldable pub owner_is : List (ℕ × WorkLease) → ℕ → ℕ → Bool
owner_is objects id i = owned_by (lookup id objects) i

abbrev pub targets : Option WorkLease → ℕ → Bool
targets none j = false
targets (some l) j = eqb l.work j

unfoldable pub target_is : List (ℕ × WorkLease) → ℕ → ℕ → Bool
target_is objects id j = targets (lookup id objects) j

unfoldable pub is_known : List (ℕ × WorkLease) → ℕ → Bool
is_known objects id = is_some (lookup id objects)

-- Whether task `j` is done, and what it is.
unfoldable pub done_in : List FleetTask → ℕ → Bool
done_in ts j = elim (get_elem? ts j) [ none ↦ false | some t ↦ t.done ]

unfoldable pub task_in : List FleetTask → ℕ → Option TestTask
task_in ts j = elim (get_elem? ts j) [ none ↦ none | some t ↦ some t.task ]

-- How many tasks are done, and how many results the workers are credited with.
unfoldable pub count_done : List FleetTask → ℕ
count_done [] = 0
count_done (t ∷ ts) = (if t.done then 1 else 0) + count_done ts

unfoldable pub sum_completed : List FleetWorker → ℕ
sum_completed [] = 0
sum_completed (w ∷ ws) = w.completed + sum_completed ws

-- The numbers of the three maps agree with each other and with the lease objects.
pub record Links (f : Fleet) : Type 0 where
  pub known : (id : ℕ) → contains f.leases id ≡ true → is_known f.objects id ≡ true
  pub workers :
      (i id : ℕ) → holds_in f.workers i id ≡ (contains f.leases id && owner_is f.objects id i)
  pub tasks :
      (j id : ℕ) → leased_in f.work j id ≡ (contains f.leases id && target_is f.objects id j)
  pub reachable :
      (id : ℕ) (l : WorkLease)
      → lookup id f.objects ≡ some l
      → is_some (get_elem? f.work l.work) ≡ true
  pub fresh : (id : ℕ) → contains f.leases id ≡ true → (id < f.next_id + 1)
