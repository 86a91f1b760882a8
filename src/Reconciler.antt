-- ===== src/Reconciler.antt =====
-- packages/reconciler/src/index.ts, with `EndpointDesiredState` of packages/contracts/src/index.ts.
-- Generations and connection epochs are non-negative integers, as the contracts demand.
pub mod Fencing
pub mod Invariant
mod Tests
use botroost.Prelude.{
  ℕ, ◌+◌, String, Bool, true, false, not, ◌&&◌, ◌||◌, Option, none, some, List, [], ◌∷◌, ◌++◌, ltb,
  ◌==◌, number_test, text_test, if◌then◌else◌, any,
}
use botroost.Json.{Fields}

pub record EndpointDesiredState : Type 0 where
  pub enabled : Bool
  pub generation : ℕ
  pub active_operation_id : String
  pub configuration : Fields

pub data Protocol : Type 0 where
  unknown connected disconnected : Protocol

pub data Convergence : Type 0 where
  unknown reconciling converged failed conflicted : Convergence

pub record Completed : Type 0 where
  pub operation_id : String
  pub generation : ℕ
  pub connection_epoch : ℕ

pub record EndpointSimulation : Type 0 where
  pub endpoint_id : String
  pub desired : Option EndpointDesiredState
  pub protocol : Protocol
  pub convergence : Convergence
  pub connection_epoch : ℕ
  pub completed_results : List Completed
  pub conflict : Option String
  pub last_error : Option String

pub data Outcome : Type 0 where
  succeeded failed : Outcome

-- The fields of an `operation-result` event.
pub record OperationResult : Type 0 where
  pub operation_id : String
  pub generation : ℕ
  pub connection_epoch : ℕ
  pub outcome : Outcome
  pub error : Option String

pub data Event : Type 0 where
  desired_event : EndpointDesiredState → Event
  operation_result : OperationResult → Event
  disconnected_event connected_event : Event
  conflict_event : String → Event

pub initial_endpoint : String → EndpointSimulation
initial_endpoint endpoint_id = record {
  endpoint_id = endpoint_id;
  desired = none;
  protocol = Protocol.unknown;
  convergence = Convergence.unknown;
  connection_epoch = 0;
  completed_results = [];
  conflict = none;
  last_error = none;
}

without_errors : EndpointSimulation → EndpointSimulation
without_errors state = record state { conflict = none; last_error = none }

abbrev is_connected : Protocol → Bool
is_connected Protocol.connected = true
is_connected _ = false

abbrev is_disconnected : Protocol → Bool
is_disconnected Protocol.disconnected = true
is_disconnected _ = false

-- The two early returns of a `desired` event: an older generation, or the same operation of the
-- same generation.
is_stale_desired : Option EndpointDesiredState → EndpointDesiredState → Bool
is_stale_desired none new = false
is_stale_desired (some old) new =
    ltb new.generation old.generation
    || (new.generation == old.generation && new.active_operation_id == old.active_operation_id)

reduce_desired : EndpointSimulation → EndpointDesiredState → EndpointSimulation
unfolding is_stale_desired without_errors
reduce_desired state new =
    if is_stale_desired state.desired new
    then state
    else record (without_errors state) { desired = some new; convergence = Convergence.reconciling }

reduce_disconnected : EndpointSimulation → EndpointSimulation
reduce_disconnected state = if is_disconnected state.protocol then state else record state {
  protocol = Protocol.disconnected;
  convergence = Convergence.unknown;
  connection_epoch = state.connection_epoch + 1;
}

abbrev reconciling_if_desired : Option EndpointDesiredState → Convergence → Convergence
reconciling_if_desired none c = c
reconciling_if_desired (some d) c = Convergence.reconciling

reduce_connected : EndpointSimulation → EndpointSimulation
reduce_connected state = record state {
  protocol = Protocol.connected;
  convergence = reconciling_if_desired state.desired state.convergence;
}

abbrev pub same_result : OperationResult → Completed → Bool
same_result event completed =
    completed.operation_id == event.operation_id
    && (completed.generation == event.generation
        && completed.connection_epoch == event.connection_epoch)

abbrev pub names_desired : OperationResult → Option EndpointDesiredState → Bool
names_desired event none = false
names_desired event (some d) =
    event.generation == d.generation && event.operation_id == d.active_operation_id

-- The negation of the guard under which an `operation-result` is ignored.
pub accepts : EndpointSimulation → OperationResult → Bool
accepts state event =
    is_connected state.protocol
    && (names_desired event state.desired
        && (event.connection_epoch == state.connection_epoch
            && not (any (same_result event) state.completed_results)))

abbrev outcome_convergence : Outcome → Convergence
outcome_convergence succeeded = Convergence.converged
outcome_convergence Outcome.failed = Convergence.failed

-- `event.outcome === "failed" && event.error`: an empty message counts as none.
abbrev reported_error : Outcome → Option String → Option String
reported_error succeeded error = none
reported_error Outcome.failed none = none
reported_error Outcome.failed (some message) = if message == "" then none else some message

abbrev pub completed_of : OperationResult → Completed
completed_of event = record {
  operation_id = event.operation_id;
  generation = event.generation;
  connection_epoch = event.connection_epoch;
}

finish : EndpointSimulation → OperationResult → EndpointSimulation
unfolding without_errors
finish state event = record (without_errors state) {
  completed_results = state.completed_results ++ completed_of event ∷ [];
  convergence = outcome_convergence event.outcome;
  last_error = reported_error event.outcome event.error;
}

reduce_result : EndpointSimulation → OperationResult → EndpointSimulation
unfolding accepts finish
reduce_result state event = if accepts state event then finish state event else state

pub reduce_endpoint : EndpointSimulation → Event → EndpointSimulation
unfolding reduce_desired reduce_disconnected reduce_connected reduce_result
reduce_endpoint state (desired_event new) = reduce_desired state new
reduce_endpoint state disconnected_event = reduce_disconnected state
reduce_endpoint state connected_event = reduce_connected state
reduce_endpoint state (conflict_event reason) = record state {
  convergence = Convergence.conflicted;
  conflict = some reason;
}
reduce_endpoint state (operation_result event) = reduce_result state event

-- A history of events, oldest first.
pub run : EndpointSimulation → List Event → EndpointSimulation
run state [] = state
run state (event ∷ events) = run (reduce_endpoint state event) events
