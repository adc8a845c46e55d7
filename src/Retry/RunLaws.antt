-- ===== src/Retry/RunLaws.antt =====
-- gotst.go: what the result of runTest says of the attempts.
use gotst.Prelude.{◌⊎◌, ℕ, ◌+◌, ◌≤◌, ◌<◌, ◌≡◌, true, false, is_some, Returns}
use gotst.Server.{PackageStatus, TestStatus, Server, TestTask, find_test}
use gotst.Server.StatusLaws.{Keeps, Finished}
use gotst.Retry.Data.{attempt_cancelled}
use gotst.Retry.Loop.{
  Surroundings, RunEnd, run_cancelled, run_cached, run_failed, run_passed, cached_time, consults,
}
use gotst.Retry.Laws.{IsFailure, Passes}

-- The test does not run.
abbrev pub Idle : TestTask → Server → Type 0
Idle task s = Returns (λ (r : PackageStatus × TestStatus). r.1.running ≡ false) (find_test s task)

module _ (x : Surroundings) (task : TestTask) (s : Server) where
  -- What the end of a run claims about the attempts, and about the test after it.
  abbrev pub Honest : RunEnd → Server → Type 0
  Honest run_cancelled u =
      (s.cancelled ≡ true)
      ⊎ (x.acquired ≡ false)
      ⊎ (Idle task u
          × ((i k : ℕ) × (i < s.flags.test_count)
              × (k ≤ s.flags.max_retries)
              × ((x.attempt i k).result ≡ attempt_cancelled)))
  Honest run_cached u =
      (consults x ≡ true) × (is_some (cached_time x) ≡ true) × Finished task true true u
  Honest (run_failed e) u =
      Finished task false false u
      × ((i : ℕ) × (i < s.flags.test_count)
          × ((k : ℕ) → k ≤ s.flags.max_retries → IsFailure (x.attempt i k).result))
  Honest (run_passed deps) u =
      Finished task true false u
      × ((i : ℕ)
          → i < s.flags.test_count
          → Passes task s.flags.test_count s.flags.max_retries x.attempt i)

  abbrev pub Runs : RunEnd × Server → Type 0
  Runs r = Keeps s r.1 × Honest r.0 r.1

  -- The server after the cache was consulted.
  abbrev checked : ℕ → Server
  checked c = record s { cache_checks = c }

  abbrev hit_server : ℕ → Server
  hit_server c = record s { cache_checks = c; cache_hits = s.cache_hits + 1 }
