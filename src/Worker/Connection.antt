-- ===== src/Worker/Connection.antt =====
-- worker.go: serveWorker and shutdown on the leader, and the start of a helper's connection.
use gotst.Prelude.{
  ℕ, Bool, true, false, not, ◌&&◌, ◌||◌, List, [], ◌∷◌, Option, none, some, Text, text, text_eq,
  ◌==◌, length, ltb, eqb, is_empty, if◌then◌else◌, ◌>>=◌,
}
use gotst.Server.{Server, Flags}
use gotst.Fleet.{
  Fleet, FleetWorker, WorkerRequest, WorkerResponse, add_worker, disconnect, exchange,
}

abbrev pub worker_protocol_version : ℕ
worker_protocol_version = 1

-- `workerHello`; a number of slots below zero is refused as zero is.
pub record WorkerHello : Type 0 where
  pub version : ℕ
  pub name : Text
  pub slots : ℕ
  pub goos : Text
  pub goarch : Text

-- Why a helper is refused.
pub data Reject : Type 0 where
  bad_version bad_system bad_slots bad_name : Reject

unfoldable pub reject_reason : Flags → WorkerHello → Option Reject
reject_reason flags hello =
    if not (eqb hello.version worker_protocol_version)
    then some bad_version
    else if not (hello.goos == flags.goos) || not (hello.goarch == flags.goarch)
    then some bad_system
    else if ltb hello.slots 1 || ltb 1024 hello.slots
    then some bad_slots
    else if ltb 256 (length hello.name)
    then some bad_name
    else none

-- What a call of Decode finds.
pub data Received : Type 0 where
  end_of_input : Received
  decode_failed : Text → Received
  received : ℕ → WorkerRequest → Received

-- A round of the loop of `serveWorker`: what the calls of other connections, the local workers and the
-- run make of the fleet while the lock is free, the message, and the error of the encoder.
pub record Round : Type 0 where
  pub others : Fleet → Option Fleet
  pub message : Received
  pub encode_error : Option Text

-- The loop, with the responses that it makes; the error is none at the end of the input and after the
-- last response.
pub record Served : Type 0 where
  pub error : Option Text
  pub responses : List WorkerResponse
  pub fleet : Fleet

unfoldable pub serve_rounds : ℕ → List Round → Fleet → Option Served
serve_rounds wi [] f = some (record { error = none; responses = []; fleet = f })
serve_rounds wi (x ∷ xs) f = do
  g ← x.others f
  elim x.message [
    | end_of_input ↦ some (record { error = none; responses = []; fleet = g })
    | decode_failed err ↦ some (record { error = some err; responses = []; fleet = g })
    | received now req ↦ do
      r ← exchange now wi req g
      elim x.encode_error [
        | some err ↦ some (record { error = some err; responses = r.0 ∷ []; fleet = r.1 })
        | none ↦ elim (r.0.done || not (is_empty r.0.error)) [
          | true ↦ some (record { error = none; responses = r.0 ∷ []; fleet = r.1 })
          | false ↦ do
            rest ← serve_rounds wi xs r.1
            some (record rest { responses = r.0 ∷ rest.responses })
        ]
      ]
  ]

-- `serveWorker` behind the hello, with the responses: `config_error` is the result of sending the
-- configuration, and `others` is what other calls make of the fleet before the disconnect.
unfoldable pub serve_worker :
    ℕ
    → ℕ
    → WorkerHello
    → Option Text
    → List Round
    → (Fleet → Option Fleet)
    → Fleet
    → Option (List WorkerResponse × Fleet)
unfolding serve_rounds
serve_worker now later hello config_error rounds others f =
    elim (reject_reason f.server.flags hello) [
      | some reason ↦ some ([], f)
      | none ↦ do
        let wi = length f.workers
        let joined = add_worker now hello.name hello.slots false f
        ended ← elim config_error [
          | some err ↦ some (record { error = some err; responses = []; fleet = joined })
          | none ↦ serve_rounds wi rounds joined
        ]
        g ← others ended.fleet
        left ← disconnect later wi ended.error g
        some (ended.responses, left)
    ]

-- Whether `shutdown` goes on waiting after it has stopped the fleet.
unfoldable pub has_helpers : List FleetWorker → Bool
has_helpers [] = false
has_helpers (w ∷ ws) = (not (w.id == text "leader") && w.connected) || has_helpers ws

-- `workerConfig`; no number is below zero.
pub record WorkerConfig : Type 0 where
  pub version : ℕ
  pub id : Text
  pub error : Text
  pub tags : List Text
  pub race : Bool
  pub count : ℕ
  pub count_set : Bool
  pub max_retries : ℕ
  pub max_output : ℕ
  pub cache : Bool
  pub history : Bool
  pub fail_fast : Bool
  pub json : Bool

-- `config`; the flags that Flags leaves out are arguments.
unfoldable pub worker_config : Bool → ℕ → Bool → Bool → Text → Server → WorkerConfig
worker_config count_set max_output has_cache has_history id s = record {
  version = worker_protocol_version;
  id = id;
  error = [];
  tags = s.profile.tags;
  race = s.profile.race;
  count = s.flags.test_count;
  count_set = count_set;
  max_retries = s.flags.max_retries;
  max_output = max_output;
  cache = has_cache;
  history = has_history;
  fail_fast = s.flags.fail_fast;
  json = s.flags.json_summary;
}

-- The checks of `runWorkerConnection`
unfoldable pub config_refused : WorkerConfig → Bool
config_refused c =
    not (is_empty c.error) || not (eqb c.version worker_protocol_version) || ltb c.count 1
