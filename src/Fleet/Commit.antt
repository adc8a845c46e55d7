-- ===== src/Fleet/Commit.antt =====
-- distributed.go: the part of accept that commits a result, and the invariant.
use gotst.Prelude.{
  ℕ, ◌+◌, ◌≡◌, refl, Bool, sym, ◌∙◌, true, false, not, ◌&&◌, ◌||◌, ◌++◌, some, arith, nat_eq, eqb,
  is_some, contains, get_elem?, if◌then◌else◌, Returns, Returns-map, text_eq, map,
}
use gotst.History.{Observation}
use gotst.Server.{Server, TestTask, history_key_for_task, find_test, put_test}
use gotst.Server.StatusLaws.{
  has_test, Keeps, Keeps-trans, with_test, put_test-Keeps, finish_test_locked-Keeps,
}
use gotst.Fleet.Data.{Fleet, FleetTask, WorkerResult}
use gotst.Fleet.Accept.{mark_committed, commit_server, count_result, trigger_on_failure}
use gotst.Fleet.Views.{Links, leased_in, target_is, done_in}
use gotst.Fleet.Removal.{HasTests}
use gotst.Fleet.Removed.{Removed}
use gotst.Fleet.Tasks.{
  holds_in-modify, leased_in-modify, present-modify, sum_completed-one_more, task_in-modify,
  set_done, done_in-set_done, count_done-set_done,
}
use gotst.Fleet.Invariant.{Inv}

pub commit_server-Keeps :
    (now : ℕ) (task : TestTask) (r : WorkerResult) (s : Server)
    → has_test s task ≡ true
    → Returns (Keeps s) (commit_server now task r s)
unfolding commit_server
commit_server-Keeps now task r s h = with_test (Keeps s) s task _ h (λ ps ts e.
    let noted = put_test s task ps (record ts { attempts = r.attempts; attrs = r.attrs }) in
    let kept : Keeps s noted = put_test-Keeps s task ps ps ts _ e refl in
    let counted : Server = record noted {
      cache_checks = s.cache_checks + r.cache_checks;
      cache_hits = if r.cached then s.cache_hits + 1 else s.cache_hits;
      history_pending =
          s.history_pending
          ++ map
              (λ (o : Observation). record o { key = history_key_for_task s.flags task s.profile })
              r.history;
    } in
    let same : Keeps noted counted = record {
      tests = λ x p. unfold has_test find_test in p;
      flags = refl;
      profile = refl;
      cancelled = refl;
    } in
    Returns-map (Keeps counted) (Keeps s) _
      (finish_test_locked-Keeps counted task r.passed r.duration _ _ r.cached now
        (same.tests task (kept.tests task h)))
      (λ u k. Keeps-trans s counted u (Keeps-trans s noted counted kept same) k))

-- The state between the marks and the removals of a commit.
module _ (wi ti : ℕ) (t : FleetTask) (r : WorkerResult) (s : Server) (f : Fleet) where
  pub mark_committed-Links : Links f → Links (mark_committed wi ti t r s f)
  unfolding mark_committed count_result
  mark_committed-Links v = record {
    known = v.known;
    workers = λ i n. holds_in-modify wi (count_result r) f.workers (λ w. refl) i n ∙ v.workers i n;
    tasks = λ j n. leased_in-modify ti set_done f.work (λ x. refl) j n ∙ v.tasks j n;
    reachable = λ k l e. present-modify ti set_done f.work l.work ∙ v.reachable k l e;
    fresh = v.fresh;
  }

  pub mark_committed-HasTests :
      HasTests f.server f.work
      → Keeps f.server s
      → HasTests (mark_committed wi ti t r s f).server (mark_committed wi ti t r s f).work
  unfolding mark_committed
  mark_committed-HasTests h k j x e =
      k.tests x (h j x (sym (task_in-modify ti set_done f.work (λ y. refl) j) ∙ e))

  module _ (g : Fleet) (v : Inv f) (at : get_elem? f.work ti ≡ some t) (open_task : t.done ≡ false)
      (present : is_some (get_elem? f.workers wi) ≡ true)
      (rest : Removed t.leases (mark_committed wi ti t r s f) g) where
    committed-leases :
        (k : ℕ) → contains g.leases k ≡ (contains f.leases k && not (contains t.leases k))
    unfolding mark_committed
    committed-leases k = rest.contains k

    pub committed-dones : (j : ℕ) → done_in g.work j ≡ (eqb ti j || done_in f.work j)
    unfolding mark_committed
    committed-dones j = rest.dones j ∙ done_in-set_done ti f.work (ground arith) j

    pub committed-targets : (k j : ℕ) → target_is g.objects k j ≡ target_is f.objects k j
    unfolding mark_committed
    committed-targets k j = rest.targets k j

    task_leases : (k : ℕ) → contains t.leases k ≡ (contains f.leases k && target_is f.objects k ti)
    unfolding leased_in
    task_leases k = ground (arith, v.links.tasks ti k)

    committed-done_free : (j k : ℕ) → done_in g.work j ≡ true → leased_in g.work j k ≡ false
    committed-done_free j k h = ground (
      arith,
      rest.links.tasks j k,
      committed-leases k,
      committed-targets k j,
      committed-dones j,
      task_leases k,
      v.links.tasks j k,
      v.done_free j k,
    )

    pub committed-Inv : HasTests g.server g.work → Inv g
    unfolding mark_committed count_result
    committed-Inv h = record {
      links = rest.links;
      tests = h;
      done_free = committed-done_free;
      counted =
          omega
            (arith, rest.done, rest.count, count_done-set_done ti t f.work at open_task, v.counted);
      credited = omega (
        arith,
        rest.done,
        rest.credit,
        sum_completed-one_more wi (count_result r) f.workers present (λ w. refl),
        v.credited,
      );
    }

-- Fail-fast stops the run and changes nothing else.
pub trigger-Inv :
    (passed : Bool) (f : Fleet)
    → Inv f
    → Inv (record f { server = trigger_on_failure passed f.server })
unfolding trigger_on_failure
trigger-Inv passed f v = record {
  links = record {
    known = v.links.known;
    workers = v.links.workers;
    tasks = v.links.tasks;
    reachable = v.links.reachable;
    fresh = v.links.fresh;
  };
  tests = λ j x e. unfold has_test find_test in ground (arith, v.tests j x e);
  done_free = v.done_free;
  counted = v.counted;
  credited = v.credited;
}
