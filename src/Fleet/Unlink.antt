-- ===== src/Fleet/Unlink.antt =====
-- distributed.go: a removed lease in the three lease maps.
use mathlib.Core.Option
use gotst.Prelude.{
  ◌∙◌, ℕ, ◌≡◌, ap, Bool, false, ◌&&◌, Option, none, some, arith, nat_eq, eqb, lookup, lookup-insert,
  contains, contains-delete, delete, get_elem?, get_elem?-modify, if◌then◌else◌,
}
use gotst.Server.{Server}
use gotst.Fleet.Data.{Fleet, FleetWorker, FleetTask, WorkLease}
use gotst.Fleet.Leases.{unlink, call}
use gotst.Fleet.Views.{
  held_by, holds_in, leased_by, leased_in, owner_is, target_is, is_known, Links,
}

abbrev pub drop_held : ℕ → FleetWorker → FleetWorker
drop_held id w = record w { leases = delete id w.leases }

abbrev pub drop_leased : ℕ → FleetTask → FleetTask
drop_leased id t = record t { leases = delete id t.leases }

-- The maps do not depend on the server.
pub Links-server : (f : Fleet) (s : Server) → Links f → Links (record f { server = s })
Links-server f s v = record {
  known = v.known;
  workers = v.workers;
  tasks = v.tasks;
  reachable = v.reachable;
  fresh = v.fresh;
}

held_by-drop :
    (b : Bool) (id k : ℕ) (o : Option FleetWorker)
    → held_by (if b then Option.map (drop_held id) o else o) k
      ≡ (if eqb id k && b then false else held_by o k)
held_by-drop b id k none = ground arith
held_by-drop b id k (some w) = ground (arith, contains-delete id k w.leases)

leased_by-drop :
    (b : Bool) (id k : ℕ) (o : Option FleetTask)
    → leased_by (if b then Option.map (drop_leased id) o else o) k
      ≡ (if eqb id k && b then false else leased_by o k)
leased_by-drop b id k none = ground arith
leased_by-drop b id k (some t) = ground (arith, contains-delete id k t.leases)

module _ (f : Fleet) (id : ℕ) (l : WorkLease) where
  pub unlink-holds :
      (i k : ℕ)
      → holds_in (unlink id l f).workers i k
        ≡ (if eqb id k && eqb l.worker i then false else holds_in f.workers i k)
  unfolding unlink holds_in
  unlink-holds i k =
      ap (λ o. held_by o k) (get_elem?-modify l.worker i (drop_held id) f.workers)
      ∙ held_by-drop (eqb l.worker i) id k (get_elem? f.workers i)

  pub unlink-leased :
      (j k : ℕ)
      → leased_in (unlink id l f).work j k
        ≡ (if eqb id k && eqb l.work j then false else leased_in f.work j k)
  unfolding unlink leased_in
  unlink-leased j k =
      ap (λ o. leased_by o k) (get_elem?-modify l.work j (drop_leased id) f.work)
      ∙ leased_by-drop (eqb l.work j) id k (get_elem? f.work j)

  pub unlink-contains :
      (k : ℕ)
      → contains (unlink id l f).leases k ≡ (if eqb id k then false else contains f.leases k)
  unfolding unlink
  unlink-contains k = contains-delete id k f.leases

  module _ (found : lookup id f.objects ≡ some l) where
    pub unlink-owner : (k i : ℕ) → owner_is (unlink id l f).objects k i ≡ owner_is f.objects k i
    unfolding unlink owner_is
    unlink-owner k i =
        ground (arith, lookup-insert id k (record l { cancel = call l.cancel }) f.objects)

    pub unlink-target : (k j : ℕ) → target_is (unlink id l f).objects k j ≡ target_is f.objects k j
    unfolding unlink target_is
    unlink-target k j =
        ground (arith, lookup-insert id k (record l { cancel = call l.cancel }) f.objects)

    pub unlink-known : (k : ℕ) → is_known (unlink id l f).objects k ≡ is_known f.objects k
    unfolding unlink is_known
    unlink-known k =
        ground (arith, lookup-insert id k (record l { cancel = call l.cancel }) f.objects)

    unlink-workers :
        Links f
        → (i k : ℕ)
        → holds_in (unlink id l f).workers i k
          ≡ (contains (unlink id l f).leases k && owner_is (unlink id l f).objects k i)
    unfolding owner_is
    unlink-workers v i k =
        ground (arith, unlink-holds i k, unlink-contains k, unlink-owner k i, v.workers i k)

    pub unlink-Links : Links f → Links (unlink id l f)
    unfolding owner_is target_is unlink
    unlink-Links v = record {
      known = λ k h. ground (arith, unlink-known k, unlink-contains k, v.known k);
      workers = unlink-workers v;
      tasks = λ j k.
          ground (arith, unlink-leased j k, unlink-contains k, unlink-target k j, v.tasks j k);
      reachable = λ k o e. ground (
        arith,
        lookup-insert id k (record l { cancel = call l.cancel }) f.objects,
        v.reachable k o,
        v.reachable k l,
        get_elem?-modify l.work o.work (drop_leased id) f.work,
      );
      fresh = λ k h. ground (arith, unlink-contains k, v.fresh k);
    }
