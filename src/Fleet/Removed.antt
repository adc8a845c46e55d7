-- ===== src/Fleet/Removed.antt =====
-- distributed.go: what is left of the fleet once leases are removed, and how removals compose.
use gotst.Prelude.{
  ℕ, ◌≡◌, refl, ◌∙◌, not, ◌&&◌, List, [], ◌∷◌, arith, nat_eq, is_some, contains, get_elem?,
}
use gotst.Server.StatusLaws.{Keeps-trans, Keeps, Keeps-refl}
use gotst.Fleet.Data.{Fleet}
use gotst.Fleet.Views.{
  connected_in, Links, owner_is, target_is, is_known, done_in, task_in, count_done, sum_completed,
}

-- `g` is `f` without the leases `ids`.
pub record Removed (ids : List ℕ) (f g : Fleet) : Type 0 where
  pub links : Links g
  pub server : Keeps f.server g.server
  pub contains : (k : ℕ) → contains g.leases k ≡ (contains f.leases k && not (contains ids k))
  pub targets : (k j : ℕ) → target_is g.objects k j ≡ target_is f.objects k j
  pub owners : (k i : ℕ) → owner_is g.objects k i ≡ owner_is f.objects k i
  pub known : (k : ℕ) → is_known g.objects k ≡ is_known f.objects k
  pub tasks : (j : ℕ) → task_in g.work j ≡ task_in f.work j
  pub dones : (j : ℕ) → done_in g.work j ≡ done_in f.work j
  pub count : count_done g.work ≡ count_done f.work
  pub credit : sum_completed g.workers ≡ sum_completed f.workers
  pub present : (i : ℕ) → is_some (get_elem? g.workers i) ≡ is_some (get_elem? f.workers i)
  pub connections : (i : ℕ) → connected_in g.workers i ≡ connected_in f.workers i
  pub done : g.done ≡ f.done
  pub next_id : g.next_id ≡ f.next_id
  pub stopped : g.stopped ≡ f.stopped
  pub ready : g.ready ≡ f.ready

pub Removed-none : (f : Fleet) → Links f → Removed [] f f
unfolding contains
Removed-none f v = record {
  links = v;
  server = Keeps-refl f.server;
  contains = λ k. ground arith;
  targets = λ k j. refl;
  owners = λ k i. refl;
  known = λ k. refl;
  tasks = λ j. refl;
  dones = λ j. refl;
  count = refl;
  credit = refl;
  present = λ i. refl;
  connections = λ i. refl;
  done = refl;
  next_id = refl;
  stopped = refl;
  ready = refl;
}

pub Removed-cons :
    (id : ℕ) (ids : List ℕ) (f g h : Fleet)
    → Removed (id ∷ []) f g
    → Removed ids g h
    → Removed (id ∷ ids) f h
unfolding contains
Removed-cons id ids f g h a b = record {
  links = b.links;
  server = Keeps-trans f.server g.server h.server a.server b.server;
  contains = λ k. ground (arith, a.contains k, b.contains k);
  targets = λ k j. b.targets k j ∙ a.targets k j;
  owners = λ k i. b.owners k i ∙ a.owners k i;
  known = λ k. b.known k ∙ a.known k;
  tasks = λ j. b.tasks j ∙ a.tasks j;
  dones = λ j. b.dones j ∙ a.dones j;
  count = b.count ∙ a.count;
  credit = b.credit ∙ a.credit;
  present = λ i. b.present i ∙ a.present i;
  connections = λ i. b.connections i ∙ a.connections i;
  done = b.done ∙ a.done;
  next_id = b.next_id ∙ a.next_id;
  stopped = b.stopped ∙ a.stopped;
  ready = b.ready ∙ a.ready;
}
