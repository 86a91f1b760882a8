-- ===== src/Reconciler/Tests.antt =====
-- The theorems at concrete endpoints, and runs of the reducer.
use botroost.Prelude.{◌≤◌, ◌≡◌, refl, ◌≢◌, ◌↔◌, true, none, some, [], ◌∷◌, arith}
use botroost.Json.{end}
use botroost.Reconciler.{
  EndpointDesiredState, Protocol, Convergence, EndpointSimulation, OperationResult, Outcome,
  desired_event, operation_result, disconnected_event, connected_event, conflict_event,
  initial_endpoint, reduce_endpoint, run,
}
use botroost.Reconciler.Fencing.{Accepted, result_changes_iff}
use botroost.Reconciler.Invariant.{
  Inv, desired_generation, run_monotone, stale_epoch_ignored, stale_generation_ignored,
  run-initial-Inv,
}

abbrev start_desired : EndpointDesiredState
start_desired = record {
  enabled = true;
  generation = 2;
  active_operation_id = "op-1";
  configuration = end;
}

abbrev running : EndpointSimulation
running = record (initial_endpoint "ep") {
  desired = some start_desired;
  protocol = Protocol.connected;
  convergence = Convergence.reconciling;
  connection_epoch = 3;
}

abbrev success : OperationResult
success = record {
  operation_id = "op-1";
  generation = 2;
  connection_epoch = 3;
  outcome = Outcome.succeeded;
  error = none;
}

abbrev failure : OperationResult
failure = record success { outcome = Outcome.failed; error = some "boom" }

converges : (reduce_endpoint running (operation_result success)).convergence ≡ Convergence.converged
unfolding reduce_endpoint initial_endpoint
converges = refl

fails_with_message : (reduce_endpoint running (operation_result failure)).last_error ≡ some "boom"
unfolding reduce_endpoint initial_endpoint
fails_with_message = refl

reconnects :
    (run running (disconnected_event ∷ connected_event ∷ operation_result success ∷ [])).convergence
    ≡ Convergence.reconciling
unfolding reduce_endpoint run initial_endpoint
reconnects = refl

result_changes_iff_example :
    (reduce_endpoint running (operation_result success) ≢ running) ↔ Accepted running success
result_changes_iff_example = result_changes_iff running success

run_monotone_example :
    (3 ≤ (run running (disconnected_event ∷ [])).connection_epoch)
    × (2 ≤ desired_generation (run running (disconnected_event ∷ [])).desired)
run_monotone_example = run_monotone running (disconnected_event ∷ [])

stale_epoch_ignored_example :
    reduce_endpoint
      (run running (connected_event ∷ []))
      (operation_result (record success { connection_epoch = 2 }))
    ≡ run running (connected_event ∷ [])
stale_epoch_ignored_example =
    stale_epoch_ignored running (connected_event ∷ []) (record success { connection_epoch = 2 })
      (omega arith)

stale_generation_ignored_example :
    reduce_endpoint
      (run running (connected_event ∷ []))
      (operation_result (record success { generation = 1 }))
    ≡ run running (connected_event ∷ [])
stale_generation_ignored_example =
    stale_generation_ignored running (connected_event ∷ []) (record success { generation = 1 })
      (omega arith)

run-initial-Inv_example : Inv (
    run
      (initial_endpoint "ep")
      (desired_event start_desired ∷ connected_event ∷ conflict_event "clash" ∷ []))
run-initial-Inv_example =
    run-initial-Inv "ep"
      (desired_event start_desired ∷ connected_event ∷ conflict_event "clash" ∷ [])
