-- ===== src/Retry/Data.antt =====
-- gotst.go: the variables of runTest, and the changes of the server between two attempts. An attempt
-- is what runTestAttempt returns; executing the test binary stays outside.
use gotst.Prelude.{
  ℕ, ◌+◌, Bool, false, List, [], ◌∷◌, Option, some, Text, text_eq, insert, is_empty, if◌then◌else◌,
  ◌>>=◌,
}
use gotst.TestCache.{CacheDependency}
use gotst.Server.{Server, TestTask, FailInfo, find_test, put_test}

pub data AttemptEnd : Type 0 where
  attempt_passed attempt_cancelled : AttemptEnd
  attempt_failed : Text → AttemptEnd

-- The dependencies are `none` if they could not be captured.
pub record Attempt : Type 0 where
  pub duration : ℕ
  pub output : Text
  pub attrs : List (Text × Text)
  pub deps : Option (List CacheDependency)
  pub result : AttemptEnd

pub record Tries : Type 0 where
  pub total : ℕ
  pub failures : List FailInfo
  pub cache_deps : Option (List CacheDependency)
  pub history_deps : List CacheDependency
  pub complete : Bool
  pub attempts : ℕ
  pub server : Server

unfoldable pub record_test_attempt : TestTask → Server → Option Server
record_test_attempt task s = do
  found ← find_test s task
  some (put_test s task found.0 (record found.1 { attempts = found.1.attempts + 1 }))

abbrev pub insert_all : List (Text × Text) → List (Text × Text) → List (Text × Text)
insert_all known [] = known
insert_all known ((k, v) ∷ rest) = insert_all (insert k v known) rest

unfoldable pub record_test_attrs : TestTask → List (Text × Text) → Server → Option Server
record_test_attrs task attrs s = if is_empty attrs then some s else do
  found ← find_test s task
  some (put_test s task found.0 (record found.1 { attrs = insert_all found.1.attrs attrs }))

unfoldable pub stop_running_test : ℕ → TestTask → Server → Option Server
stop_running_test now task s = do
  found ← find_test s task
  some (
      put_test s task (record found.0 { changed = now })
        (record found.1 { running = false; changed = now }))
