-- ===== src/Fleet/Tasks.antt =====
-- distributed.go: changes in place that keep what the tasks are, which are done, and the credit of the
-- workers.
use gotst.Prelude.{
  inr, none, if-cases, inl, Option-cases, Bool, ℕ, zero, suc, ◌+◌, ◌≡◌, refl, ap, true, false, ◌||◌,
  List, [], ◌∷◌, some, arith, nat_eq, eqb, is_some, contains, modify, get_elem?, get_elem?-modify,
}
use gotst.Fleet.Data.{FleetWorker, FleetTask}
use gotst.Fleet.Views.{
  connected_of, connected_in, holds_in, leased_in, done_in, task_in, count_done, sum_completed,
}

pub count_done-modify :
    (i : ℕ) (g : FleetTask → FleetTask) (ts : List FleetTask)
    → ((t : FleetTask) → (g t).done ≡ t.done)
    → count_done (modify i g ts) ≡ count_done ts
unfolding count_done modify
count_done-modify i g [] h = refl
count_done-modify zero g (t ∷ ts) h = ground (arith, h t)
count_done-modify (suc i) g (t ∷ ts) h = ground (arith, count_done-modify i g ts h)

pub sum_completed-modify :
    (i : ℕ) (g : FleetWorker → FleetWorker) (ws : List FleetWorker)
    → ((w : FleetWorker) → (g w).completed ≡ w.completed)
    → sum_completed (modify i g ws) ≡ sum_completed ws
unfolding sum_completed modify
sum_completed-modify i g [] h = refl
sum_completed-modify zero g (w ∷ ws) h = ground (arith, h w)
sum_completed-modify (suc i) g (w ∷ ws) h = ground (arith, sum_completed-modify i g ws h)

-- Changes of a task that leave what it is and whether it is done.
pub task_in-modify :
    (i : ℕ) (g : FleetTask → FleetTask) (ts : List FleetTask)
    → ((t : FleetTask) → (g t).task ≡ t.task)
    → (j : ℕ) → task_in (modify i g ts) j ≡ task_in ts j
unfolding task_in modify get_elem?
task_in-modify i g [] h j = refl
task_in-modify zero g (t ∷ ts) h zero = ap some (h t)
task_in-modify zero g (t ∷ ts) h (suc j) = refl
task_in-modify (suc i) g (t ∷ ts) h zero = refl
task_in-modify (suc i) g (t ∷ ts) h (suc j) = task_in-modify i g ts h j

pub done_in-modify :
    (i : ℕ) (g : FleetTask → FleetTask) (ts : List FleetTask)
    → ((t : FleetTask) → (g t).done ≡ t.done)
    → (j : ℕ) → done_in (modify i g ts) j ≡ done_in ts j
unfolding done_in modify get_elem?
done_in-modify i g [] h j = refl
done_in-modify zero g (t ∷ ts) h zero = h t
done_in-modify zero g (t ∷ ts) h (suc j) = refl
done_in-modify (suc i) g (t ∷ ts) h zero = refl
done_in-modify (suc i) g (t ∷ ts) h (suc j) = done_in-modify i g ts h j

pub present-modify {ℓ} :
    {A : Type ℓ} (i : ℕ) (g : A → A) (xs : List A) (j : ℕ)
    → is_some (get_elem? (modify i g xs) j) ≡ is_some (get_elem? xs j)
present-modify i g xs j = ground (arith, get_elem?-modify i j g xs)

-- Changes in place that keep the leases.
pub holds_in-modify :
    (i : ℕ) (g : FleetWorker → FleetWorker) (ws : List FleetWorker)
    → ((w : FleetWorker) → (g w).leases ≡ w.leases)
    → (j k : ℕ) → holds_in (modify i g ws) j k ≡ holds_in ws j k
unfolding holds_in modify get_elem?
holds_in-modify i g [] h j k = refl
holds_in-modify zero g (w ∷ ws) h zero k = ap (λ (l : List ℕ). contains l k) (h w)
holds_in-modify zero g (w ∷ ws) h (suc j) k = refl
holds_in-modify (suc i) g (w ∷ ws) h zero k = refl
holds_in-modify (suc i) g (w ∷ ws) h (suc j) k = holds_in-modify i g ws h j k

pub leased_in-modify :
    (i : ℕ) (g : FleetTask → FleetTask) (ts : List FleetTask)
    → ((t : FleetTask) → (g t).leases ≡ t.leases)
    → (j k : ℕ) → leased_in (modify i g ts) j k ≡ leased_in ts j k
unfolding leased_in modify get_elem?
leased_in-modify i g [] h j k = refl
leased_in-modify zero g (t ∷ ts) h zero k = ap (λ (l : List ℕ). contains l k) (h t)
leased_in-modify zero g (t ∷ ts) h (suc j) k = refl
leased_in-modify (suc i) g (t ∷ ts) h zero k = refl
leased_in-modify (suc i) g (t ∷ ts) h (suc j) k = leased_in-modify i g ts h j k

-- One more task done, and one more result credited.
abbrev pub set_done : FleetTask → FleetTask
set_done t = record t { done = true }

pub done_in-set_done :
    (i : ℕ) (ts : List FleetTask)
    → is_some (get_elem? ts i) ≡ true
    → (j : ℕ) → done_in (modify i set_done ts) j ≡ (eqb i j || done_in ts j)
unfolding done_in modify get_elem?
done_in-set_done i [] h j = ground arith
done_in-set_done zero (t ∷ ts) h zero = refl
done_in-set_done zero (t ∷ ts) h (suc j) = ground arith
done_in-set_done (suc i) (t ∷ ts) h zero = ground arith
done_in-set_done (suc i) (t ∷ ts) h (suc j) = ground (arith, done_in-set_done i ts h j)

pub count_done-set_done :
    (i : ℕ) (t : FleetTask) (ts : List FleetTask)
    → get_elem? ts i ≡ some t
    → t.done ≡ false
    → count_done (modify i set_done ts) ≡ count_done ts + 1
unfolding count_done modify get_elem?
count_done-set_done i t [] e h = ground arith
count_done-set_done zero t (x ∷ ts) e h = ground arith
count_done-set_done (suc i) t (x ∷ ts) e h = ground (arith, count_done-set_done i t ts e h)

pub sum_completed-one_more :
    (i : ℕ) (g : FleetWorker → FleetWorker) (ws : List FleetWorker)
    → is_some (get_elem? ws i) ≡ true
    → ((w : FleetWorker) → (g w).completed ≡ w.completed + 1)
    → sum_completed (modify i g ws) ≡ sum_completed ws + 1
unfolding sum_completed modify get_elem?
sum_completed-one_more i g [] h k = ground arith
sum_completed-one_more zero g (w ∷ ws) h k = ground (arith, k w)
sum_completed-one_more (suc i) g (w ∷ ws) h k = ground (arith, sum_completed-one_more i g ws h k)

pub connected_in-modify :
    (i : ℕ) (f : FleetWorker → FleetWorker) (ws : List FleetWorker)
    → ((w : FleetWorker) → (f w).connected ≡ w.connected)
    → (j : ℕ) → connected_in (modify i f ws) j ≡ connected_in ws j
unfolding connected_in
connected_in-modify i f ws h j =
    rw (get_elem?-modify i j f ws) (elim (Option-cases (get_elem? ws j)) [
      | inl e ↦
          rw e (if-cases (λ o. connected_of o ≡ false) (eqb i j) none none (λ d. refl) λ d. refl)
      | inr (w, e) ↦ rw e (
          if-cases (λ o. connected_of o ≡ w.connected) (eqb i j) (some (f w)) (some w) (λ d. h w)
            λ d. refl)
    ])

-- A change at a position leaves what it makes of the worker.
pub connected_in_self :
    (i : ℕ) (f : FleetWorker → FleetWorker) (ws : List FleetWorker) (b : Bool)
    → ((w : FleetWorker) → (f w).connected ≡ b)
    → is_some (get_elem? ws i) ≡ true
    → connected_in (modify i f ws) i ≡ b
unfolding connected_in modify get_elem?
connected_in_self i f [] b h p = ground arith
connected_in_self zero f (w ∷ ws) b h p = h w
connected_in_self (suc i) f (w ∷ ws) b h p = connected_in_self i f ws b h p
