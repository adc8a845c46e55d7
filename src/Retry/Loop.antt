-- ===== src/Retry/Loop.antt =====
-- gotst.go: the two loops of runTest, and runTest around them. The retries left are the recursion's
-- measure: `retry == *maxRetries` holds when none is left.
use gotst.Prelude.{
  ℕ, zero, suc, ◌+◌, Bool, true, false, not, ◌&&◌, List, [], ◌∷◌, ◌++◌, Option, none, some, Text,
  is_empty, eqb, if◌then◌else◌, ◌>>=◌,
}
use gotst.History.{TestOutcome, pass, fail, flaky, Dependency}
use gotst.TestCache.{CacheDependency, Lookup, hit, miss, failed}
use gotst.Server.{
  Server, TestTask, testing, find_test, put_test, finish_test_locked, history_key_for_task,
}
use gotst.Retry.Data.{
  attempt_passed, attempt_cancelled, attempt_failed, Attempt, Tries, record_test_attempt,
  record_test_attrs, stop_running_test,
}

-- The bookkeeping after an attempt.
unfoldable pub note : TestTask → Attempt → Tries → Option Tries
unfolding record_test_attempt record_test_attrs
note task a t = do
  noted ← record_test_attrs task a.attrs t.server
  counted ← record_test_attempt task noted
  some (record t {
    total = t.total + a.duration;
    attempts = t.attempts + 1;
    complete = elim a.deps [ none ↦ false | some deps ↦ t.complete ];
    history_deps = elim a.deps [ none ↦ t.history_deps | some deps ↦ t.history_deps ++ deps ];
    server = counted;
  })

pub data LoopEnd : Type 0 where
  loop_passed loop_cancelled : Tries → LoopEnd
  loop_failed : Tries → Text → LoopEnd

abbrev pub keep_deps : ℕ → Attempt → Tries → Tries
keep_deps test_count a t = record t {
  cache_deps = if is_empty t.failures && eqb test_count 1 then a.deps else t.cache_deps;
}

abbrev pub add_failure : Attempt → Tries → Tries
add_failure a t = record t {
  failures = t.failures ++ record { dur = a.duration; out = a.output } ∷ [];
}

module _ (task : TestTask) (test_count : ℕ) (attempt : ℕ → ℕ → Attempt) (repetition : ℕ) where
  unfoldable pub retry_loop : ℕ → ℕ → Tries → Option LoopEnd
  unfolding note
  retry_loop zero retry t = do
    let a = attempt repetition retry
    n ← note task a t
    elim a.result [
      | attempt_passed ↦ some (loop_passed (keep_deps test_count a n))
      | attempt_cancelled ↦ some (loop_cancelled n)
      | attempt_failed e ↦ some (loop_failed (add_failure a n) e)
    ]
  retry_loop (suc left) retry t = do
    let a = attempt repetition retry
    n ← note task a t
    elim a.result [
      | attempt_passed ↦ some (loop_passed (keep_deps test_count a n))
      | attempt_cancelled ↦ some (loop_cancelled n)
      | attempt_failed e ↦ retry_loop left (suc retry) (add_failure a n)
    ]

module _ (task : TestTask) (test_count max_retries : ℕ) (attempt : ℕ → ℕ → Attempt) where
  -- The repetitions that are left, from `repetition` on.
  unfoldable pub repeat_loop : ℕ → ℕ → Tries → Option LoopEnd
  unfolding retry_loop
  repeat_loop zero repetition t = some (loop_passed t)
  repeat_loop (suc left) repetition t = do
    r ← retry_loop task test_count attempt repetition max_retries 0 t
    elim r [
      | loop_passed n ↦ repeat_loop left (suc repetition) n
      | loop_cancelled n ↦ some (loop_cancelled n)
      | loop_failed n e ↦ some (loop_failed n e)
    ]

-- What runTest reads besides the server: the cache, the clock, and what the outside returns.
pub record Surroundings : Type 0 where
  pub has_cache : Bool
  pub debug_pass : ℕ
  pub cached : Lookup
  pub valid : List CacheDependency → Option Bool
  pub acquired : Bool
  pub attempt : ℕ → ℕ → Attempt
  pub keeps_history : Bool
  pub observation_id : Text
  pub portable : List CacheDependency → List Dependency
  pub now : ℕ

-- How runTest ends, with the dependencies of the entry that it puts into the cache.
pub data RunEnd : Type 0 where
  run_cancelled run_cached : RunEnd
  run_failed : Text → RunEnd
  run_passed : Option (List CacheDependency) → RunEnd

unfoldable pub record_history : Surroundings → TestTask → TestOutcome → Tries → Server → Server
record_history x task outcome t s = if not x.keeps_history then s else record s {
  history_pending =
      s.history_pending
      ++ record {
        id = x.observation_id;
        key = history_key_for_task s.flags task s.profile;
        observed_at = x.now;
        outcome = outcome;
        duration = t.total;
        attempts = t.attempts;
        peak_rss_bytes = 0;
        dependencies = if t.complete then some (x.portable t.history_deps) else none;
      }
        ∷ [];
}

-- The test runs from now on.
unfoldable pub start_test : ℕ → TestTask → Server → Option Server
start_test now task s = do
  found ← find_test s task
  some (
      put_test s task (record found.0 { pkg_state = testing; changed = now })
        (record found.1 { running = true; started = some now; changed = now }))

-- runTest once its loops are over.
unfoldable pub end_test : Surroundings → TestTask → LoopEnd → Option (RunEnd × Server)
unfolding record_history stop_running_test
end_test x task (loop_cancelled t) = do
  s ← stop_running_test x.now task t.server
  some (run_cancelled, s)
end_test x task (loop_failed t e) = do
  s ← finish_test_locked t.server task false t.total t.failures (some e) false x.now
  some (run_failed e, record_history x task fail t s)
end_test x task (loop_passed t) = do
  s ← finish_test_locked t.server task true t.total t.failures none false x.now
  let outcome = if is_empty t.failures then pass else flaky
  let entry = if is_empty t.failures && x.has_cache then t.cache_deps else none
  some (run_passed entry, record_history x task outcome t s)

-- The time of a cached result that is valid.
abbrev pub cached_time : Surroundings → Option ℕ
cached_time x = elim x.cached [
  | miss ↦ none
  | failed ↦ none
  | hit e ↦ elim (x.valid e.dependencies) [
    | none ↦ none
    | some b ↦ if b then some e.passed_in else none
  ]
]

abbrev pub consults : Surroundings → Bool
consults x = x.has_cache && not (eqb x.debug_pass 1)

unfoldable pub execute : Surroundings → TestTask → Server → Option (RunEnd × Server)
unfolding start_test repeat_loop end_test
execute x task s = if not x.acquired then some (run_cancelled, s) else do
  begun ← start_test x.now task s
  r ←
      repeat_loop task s.flags.test_count s.flags.max_retries x.attempt s.flags.test_count 0
        (record {
          total = 0;
          failures = [];
          cache_deps = none;
          history_deps = [];
          complete = true;
          attempts = 0;
          server = begun;
        })
  end_test x task r

unfoldable pub run_test : Surroundings → TestTask → Server → Option (RunEnd × Server)
unfolding execute
run_test x task s =
    let checked : Server = record s {
      cache_checks = if consults x then s.cache_checks + 1 else s.cache_checks;
    } in
    if s.cancelled then some (run_cancelled, s) else elim (consults x) [
      | false ↦ execute x task checked
      | true ↦ elim (cached_time x) [
        | none ↦ execute x task checked
        | some d ↦ do
          let counted = record checked { cache_hits = checked.cache_hits + 1 }
          u ← finish_test_locked counted task true d [] none true x.now
          some (run_cached, u)
      ]
    ]
