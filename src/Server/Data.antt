-- ===== src/Server/Data.antt =====
-- gotst.go: the types of the run's state. Times and durations are nanoseconds; the zero time is
-- `none`. Fields that only the web page and the build read are left out.
use gotst.Prelude.{ℕ, Bool, List, Option, Text}
use gotst.Profile.{RunProfile}
use gotst.History.{Observation}

-- The command line's flags that the execution of tests reads.
pub record Flags : Type 0 where
  pub jobs : ℕ
  pub max_retries : ℕ
  pub test_count : ℕ
  pub fail_fast : Bool
  pub json_summary : Bool
  pub goos : Text
  pub goarch : Text

-- `capturedTestBinary` and `testTask`.
pub record CapturedTestBinary : Type 0 where
  pub pkg : Text
  pub abs_bin : Text
  pub work_dir : Text
  pub args : List Text

pub record TestTask : Type 0 where
  pub bin : CapturedTestBinary
  pub test : Text

-- `failInfo`
pub record FailInfo : Type 0 where
  pub dur : ℕ
  pub out : Text

-- `pkgState`
pub data PkgState : Type 0 where
  discovered built testing done : PkgState

-- `testStatus`
pub record TestStatus : Type 0 where
  pub running : Bool
  pub done : Bool
  pub passed : Bool
  pub passed_in : ℕ
  pub cached : Bool
  pub fails : List FailInfo
  pub attempts : ℕ
  pub attrs : List (Text × Text)
  pub started : Option ℕ
  pub changed : ℕ

-- `packageStatus`
pub record PackageStatus : Type 0 where
  pub pkg_state : PkgState
  pub exe_hash : Text
  pub tests : List (Text × TestStatus)
  pub num_fails : ℕ
  pub run_err : Text
  pub run_in : ℕ
  pub changed : ℕ

-- `Server`; `cancelled` is `ctx.Err() != nil`.
pub record Server : Type 0 where
  pub flags : Flags
  pub profile : RunProfile
  pub cancelled : Bool
  pub pkgs : List (Text × PackageStatus)
  pub cache_checks : ℕ
  pub cache_hits : ℕ
  pub fail_fast_triggered : Bool
  pub history_pending : List Observation
