-- ===== src/Fleet/AddLease.antt =====
-- distributed.go: a new lease in the three lease maps.
use mathlib.Core.Option
use gotst.Prelude.{
  ◌∙◌, ℕ, ◌+◌, ◌%◌, ◌<◌, ◌≡◌, ap, Bool, true, ◌&&◌, ◌||◌, [], ◌∷◌, ◌++◌, Option, none, some, arith,
  nat_eq, eqb, eqb_iff, is_some, lookup-insert, contains, contains-append, get_elem?,
  get_elem?-modify, if◌then◌else◌,
}
use gotst.Fleet.Data.{Fleet, FleetWorker, FleetTask, u64_mod}
use gotst.Fleet.Assign.{add_lease, new_lease}
use gotst.Fleet.Views.{
  held_by, holds_in, leased_by, leased_in, owner_is, target_is, is_known, Links,
}

contains-one : (n k : ℕ) → contains (n ∷ []) k ≡ eqb n k
unfolding contains
contains-one n k = ground arith

abbrev pub push_held : ℕ → FleetWorker → FleetWorker
push_held id w = record w { leases = w.leases ++ id ∷ [] }

abbrev pub push_leased : ℕ → FleetTask → FleetTask
push_leased id t = record t { leases = t.leases ++ id ∷ [] }

held_by-push :
    (b : Bool) (id k : ℕ) (o : Option FleetWorker)
    → (b ≡ true → is_some o ≡ true)
    → held_by (if b then Option.map (push_held id) o else o) k ≡ (held_by o k || (b && eqb id k))
held_by-push b id k none h = ground arith
held_by-push b id k (some w) h =
    ground (arith, contains-append w.leases (id ∷ []) k, contains-one id k)

leased_by-push :
    (b : Bool) (id k : ℕ) (o : Option FleetTask)
    → (b ≡ true → is_some o ≡ true)
    → leased_by (if b then Option.map (push_leased id) o else o) k
      ≡ (leased_by o k || (b && eqb id k))
leased_by-push b id k none h = ground arith
leased_by-push b id k (some t) h =
    ground (arith, contains-append t.leases (id ∷ []) k, contains-one id k)

module _ (wi i now : ℕ) (f : Fleet) where
  abbrev id : ℕ
  id = (f.next_id + 1) % u64_mod

  pub add_lease-holds :
      is_some (get_elem? f.workers wi) ≡ true
      → (j k : ℕ)
      → holds_in (add_lease wi i now f).workers j k
        ≡ (holds_in f.workers j k || (eqb wi j && eqb id k))
  unfolding add_lease holds_in
  add_lease-holds h j k =
      ap (λ o. held_by o k) (get_elem?-modify wi j (push_held id) f.workers)
      ∙ held_by-push (eqb wi j) id k (get_elem? f.workers j)
          (λ e. ground (arith, (eqb_iff wi j).0 e))

  pub add_lease-leased :
      is_some (get_elem? f.work i) ≡ true
      → (j k : ℕ)
      → leased_in (add_lease wi i now f).work j k ≡ (leased_in f.work j k || (eqb i j && eqb id k))
  unfolding add_lease leased_in
  add_lease-leased h j k =
      ap (λ o. leased_by o k) (get_elem?-modify i j (push_leased id) f.work)
      ∙ leased_by-push (eqb i j) id k (get_elem? f.work j) (λ e. ground (arith, (eqb_iff i j).0 e))

  pub add_lease-contains :
      (k : ℕ) → contains (add_lease wi i now f).leases k ≡ (contains f.leases k || eqb id k)
  unfolding add_lease
  add_lease-contains k = ground (arith, contains-append f.leases (id ∷ []) k, contains-one id k)

  add_lease-owner :
      (k j : ℕ)
      → owner_is (add_lease wi i now f).objects k j
        ≡ (if eqb id k then eqb wi j else owner_is f.objects k j)
  unfolding add_lease owner_is
  add_lease-owner k j = ground (arith, lookup-insert id k (new_lease wi i now) f.objects)

  add_lease-target :
      (k j : ℕ)
      → target_is (add_lease wi i now f).objects k j
        ≡ (if eqb id k then eqb i j else target_is f.objects k j)
  unfolding add_lease target_is
  add_lease-target k j = ground (arith, lookup-insert id k (new_lease wi i now) f.objects)

  add_lease-known :
      (k : ℕ) → is_known (add_lease wi i now f).objects k ≡ (eqb id k || is_known f.objects k)
  unfolding add_lease is_known
  add_lease-known k = ground (arith, lookup-insert id k (new_lease wi i now) f.objects)

  pub add_lease-Links :
      Links f
      → f.next_id + 1 < u64_mod
      → is_some (get_elem? f.workers wi) ≡ true
      → is_some (get_elem? f.work i) ≡ true
      → Links (add_lease wi i now f)
  unfolding add_lease
  add_lease-Links v small hw ht = record {
    known = λ k h. ground (arith, add_lease-known k, add_lease-contains k, v.known k);
    workers = λ j k. ground (
      arith,
      add_lease-holds hw j k,
      add_lease-contains k,
      add_lease-owner k j,
      v.workers j k,
      v.fresh k,
    );
    tasks = λ j k. ground (
      arith,
      add_lease-leased ht j k,
      add_lease-contains k,
      add_lease-target k j,
      v.tasks j k,
      v.fresh k,
    );
    reachable = λ k o e. ground (
      arith,
      lookup-insert id k (new_lease wi i now) f.objects,
      v.reachable k o,
      get_elem?-modify i o.work (push_leased id) f.work,
    );
    fresh = λ k h. ground (arith, add_lease-contains k, v.fresh k);
  }
