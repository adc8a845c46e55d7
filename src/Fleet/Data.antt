-- ===== src/Fleet/Data.antt =====
-- distributed.go: the fleet's state. Workers and tasks are pointers in the code, and positions in
-- `workers` and `work` here; a lease is a pointer too, and `objects` holds what it points to. The
-- three maps from lease numbers to leases are the lists of their keys, in the order of insertion.
use gotst.Prelude.{ℕ, Bool, false, List, [], Option, Text}
use gotst.Server.{Server, TestTask}
use gotst.History.{Observation}

pub data LeaseState : Type 0 where
  queued building running : LeaseState

-- The `cancel` function of a lease: nil, not yet called, or called.
pub data Cancel : Type 0 where
  no_cancel armed called : Cancel

-- `workLease`; its id is its key in `objects`.
pub record WorkLease : Type 0 where
  pub work : ℕ
  pub worker : ℕ
  pub assigned : ℕ
  pub started : Option ℕ
  pub state : LeaseState
  pub cancel : Cancel

-- `fleetTask`
pub record FleetTask : Type 0 where
  pub task : TestTask
  pub estimate : ℕ
  pub done : Bool
  pub leases : List ℕ

-- `fleetWorker`; `binaries` are the keys of the map.
pub record FleetWorker : Type 0 where
  pub id : Text
  pub name : Text
  pub slots : ℕ
  pub connected : Bool
  pub last_seen : ℕ
  pub joined : ℕ
  pub left : Option ℕ
  pub completed : ℕ
  pub cached : ℕ
  pub failed : ℕ
  pub duration : ℕ
  pub error : Text
  pub binaries : List Text
  pub leases : List ℕ

-- `fleet`; `wake` is whether the channel of capacity one holds a token, and `test_schedule` is the
-- server's `testSchedule` as the run sets it.
pub record Fleet : Type 0 where
  pub server : Server
  pub workers : List FleetWorker
  pub work : List FleetTask
  pub leases : List ℕ
  pub objects : List (ℕ × WorkLease)
  pub next_id : ℕ
  pub ready : Bool
  pub stopped : Bool
  pub done : ℕ
  pub infra : List Text
  pub wake : Bool
  pub test_schedule : List Text

-- `workerWork`, `workerRequest`, `workerResponse`, `workerFailure` and `workerResult`.
pub record WorkerWork : Type 0 where
  pub lease : ℕ
  pub package_path : Text
  pub test : Text
  pub binary : Text
  pub args : List Text

pub record WorkerFailure : Type 0 where
  pub duration : ℕ
  pub output : Text

pub record WorkerResult : Type 0 where
  pub lease : ℕ
  pub passed : Bool
  pub cached : Bool
  pub duration : ℕ
  pub attempts : ℕ
  pub cache_checks : ℕ
  pub failures : List WorkerFailure
  pub attrs : List (Text × Text)
  pub history : List Observation
  pub error : Text
  pub infra : Bool

pub record WorkerRequest : Type 0 where
  pub active : List (ℕ × Text)
  pub binaries : List Text
  pub results : List WorkerResult

pub record WorkerResponse : Type 0 where
  pub work : List WorkerWork
  pub cancel : List ℕ
  pub done : Bool
  pub error : Text

abbrev pub worker_batch_limit : ℕ
worker_batch_limit = 10

abbrev pub worker_batch_target : ℕ
worker_batch_target = 3_000_000_000

abbrev pub u64_mod : ℕ
u64_mod = 18_446_744_073_709_551_616

-- `newFleet`
unfoldable pub new_fleet : Server → Fleet
new_fleet s = record {
  server = s;
  workers = [];
  work = [];
  leases = [];
  objects = [];
  next_id = 0;
  ready = false;
  stopped = false;
  done = 0;
  infra = [];
  wake = false;
  test_schedule = [];
}
