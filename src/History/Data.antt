-- ===== src/History/Data.antt =====
-- history/history.go: the data model of test history.
use gotst.Prelude.{ℕ, List, Option, Text}

-- `Key`
pub record Key : Type 0 where
  pub package_path : Text
  pub test : Text
  pub goos : Text
  pub goarch : Text
  pub tags : List Text
  pub args : List Text

-- `Outcome`
pub data TestOutcome : Type 0 where
  pass fail flaky : TestOutcome

-- `Dependency`
pub record Dependency : Type 0 where
  pub operation : Text
  pub name : Text
  pub path : Text

-- `Observation`; times and durations in nanoseconds. `none` for the dependencies is Go's nil.
pub record Observation : Type 0 where
  pub id : Text
  pub key : Key
  pub observed_at : ℕ
  pub outcome : TestOutcome
  pub duration : ℕ
  pub attempts : ℕ
  pub peak_rss_bytes : ℕ
  pub dependencies : Option (List Dependency)

-- `History`
pub record TestHistory : Type 0 where
  pub version : ℕ
  pub key : Key
  pub observations : List Observation
