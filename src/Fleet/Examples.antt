-- ===== src/Fleet/Examples.antt =====
-- distributed.go: a leader with two slots and a helper, and two tests of one package.
use gotst.Prelude.{
  ℕ, ◌≡◌, refl, true, false, [], ◌∷◌, List, none, some, Text, text, text_eq, text_beq,
  if◌then◌else◌, ◌==◌, nat_eq, Returns, Returns-value, value-eq, ◌||◌, value, ◌∙◌, get_elem?,
  modify, is_some, lookup, insert, contains, arith,
}
use gotst.Profile.{empty_profile}
use gotst.Go.Sort.{insert_sorted, sort_by}
use gotst.Server.{Server, TestTask, PackageStatus, TestStatus, built, find_test, bin_hash}
use gotst.Go.Paths.{base, trim_slashes, after_last_slash, has_slash}
use gotst.Server.StatusLaws.{has_test}
use gotst.Fleet.Data.{Fleet, FleetWorker, WorkerResult, WorkerRequest, new_fleet}
use gotst.Fleet.Leases.{add_worker}
use gotst.Fleet.Assign.{add_lease, next_locked, next_fresh, next_overdue}
use gotst.Fleet.Accept.{accept}
use gotst.Fleet.Exchange.{stop}
use gotst.Fleet.Run.{start, Local, ends, local_assign}
use gotst.Fleet.Reach.{local_assign-Inv, Reaches, Reaches-Inv, created, joined, started, assigned}
use gotst.Fleet.Views.{done_in, target_is}
use gotst.Fleet.Invariant.{Inv, new_fleet-Inv}
use gotst.Fleet.AcceptLaws.{Accepted, commits, accept-Accepted}
use gotst.Fleet.Next.{is_fresh, choose, fresh_from, next_fresh-choose}
use gotst.Fleet.NextLaws.{at, is_overdue, Picks, next_locked-Picks, next_locked-misses}
use gotst.Fleet.Batch.{add_lease-Inv}
use gotst.Fleet.Rounds.{Stopped, stop-Stopped, accept-once}
use gotst.Fleet.Start.{add_worker-Inv, Started, start-Started}

abbrev pending : TestStatus
pending = record {
  running = false;
  done = false;
  passed = false;
  passed_in = 0;
  cached = false;
  fails = [];
  attempts = 0;
  attrs = [];
  started = none;
  changed = 0;
}

abbrev pkg_p : PackageStatus
pkg_p = record {
  pkg_state = built;
  exe_hash = text "h";
  tests = (text "TestA", pending) ∷ (text "TestB", pending) ∷ [];
  num_fails = 0;
  run_err = [];
  run_in = 0;
  changed = 0;
}

abbrev server : Server
server = record {
  flags = record {
    jobs = 2;
    max_retries = 2;
    test_count = 1;
    fail_fast = false;
    json_summary = false;
    goos = text "linux";
    goarch = text "amd64";
  };
  profile = empty_profile;
  cancelled = false;
  pkgs = (text "p", pkg_p) ∷ [];
  cache_checks = 0;
  cache_hits = 0;
  fail_fast_triggered = false;
  history_pending = [];
}

abbrev task : Text → TestTask
task test = record {
  bin = record { pkg = text "p"; abs_bin = text "/tmp/h"; work_dir = text "/src"; args = [] };
  test = test;
}

abbrev estimate : TestTask → ℕ
estimate x = if x.test == text "TestA" then 1_000_000_000 else 2_000_000_000

abbrev tasks : List TestTask
tasks = task (text "TestA") ∷ task (text "TestB") ∷ []

abbrev crew : Fleet
crew = add_worker 0 (text "vm") 1 false (add_worker 0 (text "local") 2 true (new_fleet server))

crew-Inv : Inv crew
crew-Inv =
    add_worker-Inv 0 (text "vm") 1 false _
      (add_worker-Inv 0 (text "local") 2 true _ (new_fleet-Inv server))

abbrev begun : Fleet
begun = start estimate 0 tasks crew

start-Started_example : Started estimate tasks begun
unfolding has_test find_test lookup text_beq add_worker new_fleet
start-Started_example = start-Started estimate 0 tasks crew crew-Inv refl (refl, (refl, tt))

-- The leader holds the longest test, TestB.
abbrev pub leased : Fleet
leased = add_lease 0 0 5 begun

pub leased-Inv : Inv leased
unfolding add_worker new_fleet start sort_by insert_sorted text_beq get_elem? modify done_in
leased-Inv = add_lease-Inv 0 0 5 begun start-Started_example.inv (omega arith) refl refl refl

abbrev result : WorkerResult
result = record {
  lease = 1;
  passed = true;
  cached = false;
  duration = 1_500_000_000;
  attempts = 1;
  cache_checks = 1;
  failures = [];
  attrs = [];
  history = [];
  error = [];
  infra = false;
}

accept-Accepted_example : Returns (Accepted 0 result leased) (accept 9 0 result leased)
unfolding add_worker new_fleet start add_lease get_elem? modify
accept-Accepted_example = accept-Accepted 9 0 result leased leased-Inv refl

result_counts : commits leased 0 result ≡ true
unfolding commits add_worker new_fleet start add_lease get_elem? modify contains sort_by
    insert_sorted text_beq lookup
result_counts = refl

add_worker-Inv_example : Inv (add_worker 6 (text "late") 4 false leased)
add_worker-Inv_example = add_worker-Inv 6 (text "late") 4 false leased leased-Inv

-- The helper is sent what is left.
abbrev pub request : WorkerRequest
request = record { active = (7, text "running") ∷ []; binaries = []; results = [] }

stop-Stopped_example : Returns (Stopped leased) (stop 9 leased)
stop-Stopped_example = stop-Stopped 9 leased leased-Inv

next_fresh-choose_example :
    next_fresh [] 0 none 0 leased.work ≡ choose [] (fresh_from 0 leased.work)
next_fresh-choose_example = next_fresh-choose [] 0 leased.work

-- The test is over, and its result is counted.
abbrev committed : Fleet
committed = value (accept 9 0 result leased) leased

committed-Accepted : Accepted 0 result leased committed
committed-Accepted =
    Returns-value (Accepted 0 result leased) (accept 9 0 result leased) leased
      accept-Accepted_example

target : target_is leased.objects 1 0 ≡ true
unfolding target_is lookup insert add_lease start add_worker new_fleet
target = refl

first_done : done_in committed.work 0 ≡ true
first_done = ground (arith, committed-Accepted.dones 0, result_counts, target)

there : is_some (get_elem? leased.workers 0) ≡ true
unfolding add_worker new_fleet start add_lease get_elem? modify
there = refl

accept-once_example : accept 10 0 result committed ≡ some committed
accept-once_example =
    accept-once 10 0 0 result committed committed-Accepted.inv
      (committed-Accepted.present 0 ∙ there) first_done (committed-Accepted.targets 1 0 ∙ target)

abbrev vm : FleetWorker
vm = record {
  id = text "h2";
  name = text "vm";
  slots = 1;
  connected = true;
  last_seen = 0;
  joined = 0;
  left = none;
  completed = 0;
  cached = 0;
  failed = 0;
  duration = 0;
  error = [];
  binaries = text "h" ∷ [];
  leases = [];
}

next_locked-Picks_example : Picks 1 3 vm begun 0
unfolding add_worker new_fleet start sort_by insert_sorted text_beq get_elem? modify next_locked
    next_fresh contains bin_hash base trim_slashes after_last_slash has_slash
next_locked-Picks_example = next_locked-Picks 1 3 vm begun 0 refl

next_locked-misses_example : (at is_fresh [] 3 || at (is_overdue crew.objects 1 3) [] 3) ≡ false
unfolding add_worker new_fleet next_locked next_fresh next_overdue
next_locked-misses_example = next_locked-misses 1 3 vm crew refl 3

-- The leader and the helper join, the tests are queued, and the leader takes the longest.
begun-Reaches : Reaches begun
unfolding has_test find_test lookup text_beq add_worker new_fleet
begun-Reaches =
    started estimate 0 tasks
      (joined 0 (text "vm") 1 false (joined 0 (text "local") 2 true (created server))) refl
      (refl, (refl, tt))

abbrev tested : Local × Fleet
tested = value (local_assign 9 0 begun) (ends, begun)

begun_assign : Returns (λ (r : Local × Fleet). Inv r.1) (local_assign 9 0 begun)
unfolding add_worker new_fleet start get_elem? modify
begun_assign = local_assign-Inv 9 0 begun start-Started_example.inv (omega arith) refl

Reaches-Inv_example : Inv tested.1
unfolding add_worker new_fleet start get_elem? modify
Reaches-Inv_example = Reaches-Inv (
    assigned {f = begun} {l = tested.0} 9 0 begun-Reaches (omega arith) refl (
      value-eq (λ (r : Local × Fleet). Inv r.1) (local_assign 9 0 begun) (ends, begun)
        begun_assign))
