-- ===== src/Worker/Examples.antt =====
-- worker.go: tests and examples.
use gotst.Prelude.{
  modify, Option, some, lookup, insert, arith, List, ◌≡◌, refl, true, false, [], ◌∷◌, none, text,
  Returns,
}
use gotst.Fleet.{Fleet, start, new_fleet, add_worker, add_lease, WorkerWork, WorkerResponse}
use gotst.Fleet.Start.{add_worker-Inv}
use gotst.Fleet.Examples.{leased, leased-Inv, request}
use gotst.Worker.Loop.{
  queued, WorkerLoop, HelperExecution, building, new_loop, on_response, exchanged, goes_on,
  send_request, sends, responds, Reaches, starts, steps,
}
use gotst.Worker.LoopLaws.{Full, Reaches-Full}
use gotst.Worker.Connection.{
  reject_reason, WorkerHello, Round, received, end_of_input, serve_worker,
}
use gotst.Worker.ConnectionLaws.{KeepsFleet, Ends, present-add_worker, serve_worker-Ends}

-- Two tasks for one slot.
abbrev first_work : WorkerWork
first_work = record {
  lease = 1;
  package_path = text "p";
  test = text "TestA";
  binary = text "b";
  args = [];
}

abbrev second_work : WorkerWork
second_work = record first_work { lease = 2; test = text "TestB" }

abbrev two_tasks : WorkerResponse
two_tasks = record { work = first_work ∷ second_work ∷ []; cancel = []; done = false; error = [] }

abbrev first_runs : HelperExecution
first_runs = record { serial = 0; work = first_work; state = building }

abbrev second_waits : HelperExecution
second_waits = record { serial = 1; work = second_work; state = queued }

abbrev filled : WorkerLoop
filled = record new_loop {
  active = (1, first_runs) ∷ (2, second_waits) ∷ [];
  queue = second_waits ∷ [];
  running = 1;
  preparing = 1 ∷ [];
  serials = 2;
  dirty = false;
}

fills : on_response 1 (exchanged two_tasks) (send_request new_loop).1 ≡ goes_on filled
unfolding on_response send_request lookup insert
fills = refl

sent_flag : (send_request new_loop).1.in_flight ≡ true
unfolding send_request
sent_flag = refl

reaches_filled : Reaches 1 filled
reaches_filled =
    steps _ _ (steps _ _ starts (sends new_loop))
      (responds _ filled (exchanged two_tasks) sent_flag fills)

Reaches-Full_example : Full 1 filled
Reaches-Full_example = Reaches-Full 1 filled reaches_filled

abbrev test_hello : WorkerHello
test_hello = record {
  version = 1;
  name = text "h";
  slots = 2;
  goos = leased.server.flags.goos;
  goarch = leased.server.flags.goarch;
}

-- Before the request of the helper another one joins.
abbrev another_joins : Fleet → Option Fleet
another_joins f = some (add_worker 7 (text "other") 1 false f)

test_rounds-keep : KeepsFleet 2 0 another_joins
unfolding add_worker
test_rounds-keep f v p room = (
  add_worker-Inv 7 (text "other") 1 false f v,
  present-add_worker f 7 (text "other") 1 2 p,
  omega arith,
)

abbrev test_rounds : List Round
test_rounds =
    record { others = another_joins; message = received 8 request; encode_error = none }
    ∷ record { others = some; message = end_of_input; encode_error = none }
    ∷ []

keeps_none : KeepsFleet 2 0 some
keeps_none f v p room = (v, p, omega arith)

serve_worker-Ends_example :
    Returns
      (Ends (reject_reason leased.server.flags test_hello) leased)
      (serve_worker 8 9 test_hello none test_rounds some leased)
unfolding add_lease start add_worker new_fleet modify
serve_worker-Ends_example =
    serve_worker-Ends 8 9 0 test_hello none test_rounds some leased
      (test_rounds-keep, (keeps_none, tt)) keeps_none leased-Inv (omega arith)
