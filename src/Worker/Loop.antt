-- ===== src/Worker/Loop.antt =====
-- worker.go: workerLoop, whose select takes one event after the other. The goroutines that build and
-- run tests, and the one that sends requests, are the sources of its events.
use gotst.Prelude.{
  length, ℕ, ◌+◌, ◌-◌, ◌≡◌, Bool, true, false, not, ◌&&◌, List, [], ◌∷◌, ◌++◌, Option, none, some,
  Text, text, nat_eq, ◌==◌, lookup, insert, ltb, eqb, is_some, is_empty, if◌then◌else◌, contains,
}
use gotst.Fleet.{WorkerWork, WorkerResult, WorkerRequest, WorkerResponse}

pub data ExecutionState : Type 0 where
  queued building running : ExecutionState

-- `helperExecution` without its cancel function; the pointers to two executions are equal if their
-- serial numbers are.
pub record HelperExecution : Type 0 where
  pub serial : ℕ
  pub work : WorkerWork
  pub state : ExecutionState

-- The variables of `workerLoop`, with what its two channels hold. `preparing` has the leases whose
-- goroutine has sent nothing yet, `executing` those whose goroutine has sent that its binary is ready
-- and no result, and `serials` is how many executions there were.
pub record WorkerLoop : Type 0 where
  pub active : List (ℕ × HelperExecution)
  pub queue : List HelperExecution
  pub running : ℕ
  pub preparing : List ℕ
  pub executing : List ℕ
  pub ready : List (ℕ × Text)
  pub results : List WorkerResult
  pub serials : ℕ
  pub pending : List WorkerResult
  pub binaries : List Text
  pub dirty : Bool
  pub in_flight : Bool

abbrev pub new_loop : WorkerLoop
new_loop = record {
  active = [];
  queue = [];
  running = 0;
  preparing = [];
  executing = [];
  ready = [];
  results = [];
  serials = 0;
  pending = [];
  binaries = [];
  dirty = true;
  in_flight = false;
}

-- `delete(active, id)`
unfoldable pub remove_active : ℕ → List (ℕ × HelperExecution) → List (ℕ × HelperExecution)
remove_active id [] = []
remove_active id ((k, e) ∷ rest) =
    let r = remove_active id rest in if k == id then r else (k, e) ∷ r

-- Whether the execution is the active one of its lease.
unfoldable pub is_active : List (ℕ × HelperExecution) → HelperExecution → Bool
is_active active e = elim (lookup e.work.lease active) [
  | none ↦ false
  | some a ↦ eqb a.serial e.serial
]

-- `start`, along the queue.
unfoldable pub start_queue : ℕ → List HelperExecution → WorkerLoop → WorkerLoop
unfolding is_active
start_queue jobs [] l = record l { queue = [] }
start_queue jobs (e ∷ es) l = elim (ltb l.running jobs) [
  | false ↦ record l { queue = e ∷ es }
  | true ↦ elim (is_active l.active e) [
    | false ↦ start_queue jobs es l
    | true ↦ start_queue jobs es (record l {
      active = insert e.work.lease (record e { state = building }) l.active;
      running = l.running + 1;
      preparing = e.work.lease ∷ l.preparing;
    })
  ]
]

unfoldable pub start_executions : ℕ → WorkerLoop → WorkerLoop
unfolding start_queue
start_executions jobs l = start_queue jobs l.queue l

abbrev pub state_text : ExecutionState → Text
state_text queued = text "queued"
state_text building = text "building"
state_text running = text "running"

unfoldable pub active_states : List (ℕ × HelperExecution) → List (ℕ × Text)
active_states [] = []
active_states ((id, e) ∷ rest) = (id, state_text e.state) ∷ active_states rest

-- The request at the top of the loop, if one is due.
unfoldable pub send_request : WorkerLoop → Option WorkerRequest × WorkerLoop
unfolding active_states
send_request l = if not (l.dirty && not l.in_flight) then (none, l) else (
  some (record { active = active_states l.active; binaries = l.binaries; results = l.pending }),
  record l { pending = []; binaries = []; dirty = false; in_flight = true },
)

-- The loop over `res.Cancel`; the contexts that it cancels are those of the goroutines outside.
unfoldable pub cancel_all : List ℕ → List (ℕ × HelperExecution) → List (ℕ × HelperExecution)
unfolding remove_active
cancel_all [] active = active
cancel_all (id ∷ ids) active = cancel_all ids (remove_active id active)

-- The loop over `res.Work`
unfoldable pub add_work : List WorkerWork → WorkerLoop → WorkerLoop
add_work [] l = l
add_work (w ∷ ws) l =
    let e : HelperExecution = record { serial = l.serials; work = w; state = queued } in
    add_work ws (record l {
      active = insert w.lease e l.active;
      queue = l.queue ++ e ∷ [];
      serials = l.serials + 1;
    })

-- What `exchange.err` and a response are.
pub data Exchange : Type 0 where
  exchange_failed : Exchange
  exchanged : WorkerResponse → Exchange

-- How an event leaves the loop: it goes on, or it returns with or without an error.
pub data LoopStep : Type 0 where
  goes_on : WorkerLoop → LoopStep
  returns_error returns_nil : LoopStep

unfoldable pub on_response : ℕ → Exchange → WorkerLoop → LoopStep
unfolding cancel_all add_work start_executions
on_response jobs exchange_failed l = returns_error
on_response jobs (exchanged res) l =
    if not (is_empty res.error)
    then returns_error
    else if res.done
    then returns_nil
    else goes_on (
        start_executions jobs (
          add_work res.work
            (record l { in_flight = false; active = cancel_all res.cancel l.active })))

-- The loop receives that a binary is ready for the execution of a lease.
unfoldable pub on_ready : ℕ → Text → WorkerLoop → WorkerLoop
on_ready lease hash l = record l {
  binaries = l.binaries ++ hash ∷ [];
  active = elim (lookup lease l.active) [
    | none ↦ l.active
    | some e ↦ insert lease (record e { state = running }) l.active
  ];
  dirty = true;
}

unfoldable pub on_result : ℕ → WorkerResult → WorkerLoop → WorkerLoop
unfolding remove_active start_executions
on_result jobs r l =
    let known = is_some (lookup r.lease l.active) in
    let after = start_executions jobs (record l {
      running = l.running - 1;
      active = if known then remove_active r.lease l.active else l.active;
      pending = if known then l.pending ++ r ∷ [] else l.pending;
    }) in
    record after { dirty = true }

unfoldable pub on_tick : WorkerLoop → WorkerLoop
on_tick l = record l { dirty = true }

-- A lease is taken from the first place where it stands.
unfoldable pub take_out : ℕ → List ℕ → List ℕ
take_out lease [] = []
take_out lease (k ∷ ks) = let rest = take_out lease ks in if k == lease then ks else k ∷ rest

-- The sends of a goroutine.
unfoldable pub send_ready : ℕ → Text → WorkerLoop → WorkerLoop
unfolding take_out
send_ready lease hash l = record l {
  preparing = take_out lease l.preparing;
  executing = lease ∷ l.executing;
  ready = l.ready ++ (lease, hash) ∷ [];
}

unfoldable pub send_result : WorkerResult → WorkerLoop → WorkerLoop
send_result r l = record l { results = l.results ++ r ∷ [] }

-- The steps of the loop and its goroutines while the context is not done. Both channels have a place
-- for each slot, and their order does not bind one to the other: that a binary is ready may be
-- received after the result. A response comes after a request.
pub data Step (jobs : ℕ) : WorkerLoop → WorkerLoop → Type 0 where
  sends : (l : WorkerLoop) → Step jobs l (send_request l).1
  responds :
      (l m : WorkerLoop) (x : Exchange)
      → l.in_flight ≡ true
      → on_response jobs x l ≡ goes_on m
      → Step jobs l m
  prepared :
      (l : WorkerLoop) (lease : ℕ) (hash : Text)
      → contains l.preparing lease ≡ true
      → ltb (length l.ready) jobs ≡ true
      → Step jobs l (send_ready lease hash l)
  refused :
      (l : WorkerLoop) (r : WorkerResult)
      → contains l.preparing r.lease ≡ true
      → ltb (length l.results) jobs ≡ true
      → Step jobs l (send_result r (record l { preparing = take_out r.lease l.preparing }))
  executed :
      (l : WorkerLoop) (r : WorkerResult)
      → contains l.executing r.lease ≡ true
      → ltb (length l.results) jobs ≡ true
      → Step jobs l (send_result r (record l { executing = take_out r.lease l.executing }))
  receives_ready :
      (l : WorkerLoop) (lease : ℕ) (hash : Text) (rest : List (ℕ × Text))
      → l.ready ≡ (lease, hash) ∷ rest
      → Step jobs l (on_ready lease hash (record l { ready = rest }))
  receives_result :
      (l : WorkerLoop) (r : WorkerResult) (rest : List WorkerResult)
      → l.results ≡ r ∷ rest
      → Step jobs l (on_result jobs r (record l { results = rest }))
  ticks : (l : WorkerLoop) → Step jobs l (on_tick l)

pub data Reaches (jobs : ℕ) : WorkerLoop → Type 0 where
  starts : Reaches jobs new_loop
  steps : (l m : WorkerLoop) → Reaches jobs l → Step jobs l m → Reaches jobs m
