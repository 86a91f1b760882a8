-- ===== src/Reconciler/Invariant.antt =====
-- Histories of events of packages/reconciler/src/index.ts: what holds after each of them.
use botroost.Prelude.{
  ℕ, ◌≤◌, ◌<◌, ◌≡◌, refl, ◌≢◌, Option, none, some, List, [], ◌∷◌, ◌++◌, arith, All, All-append,
  Bool-cases, number_test, text_test, inl, inr, String,
}
use botroost.Reconciler.{
  EndpointDesiredState, Protocol, Convergence, Completed, EndpointSimulation, OperationResult,
  Event, desired_event, operation_result, disconnected_event, connected_event, conflict_event,
  completed_of, accepts, finish, reduce_result, initial_endpoint, reduce_endpoint, run,
}
use botroost.Reconciler.Fencing.{Accepted, accepts_sound}

-- The generation that the endpoint is to reach; 0 before any is desired.
abbrev pub desired_generation : Option EndpointDesiredState → ℕ
desired_generation none = 0
desired_generation (some d) = d.generation

-- No step moves the connection epoch or the desired generation back, or drops what is desired.
record Progress (s t : EndpointSimulation) : Type 0 where
  epoch : s.connection_epoch ≤ t.connection_epoch
  generation : desired_generation s.desired ≤ desired_generation t.desired

desired-Progress :
    (s : EndpointSimulation) (new : EndpointDesiredState) (o : Option EndpointDesiredState)
    → s.desired ≡ o
    → Progress s (reduce_endpoint s (desired_event new))
unfolding reduce_endpoint
desired-Progress s new none e = ground arith
desired-Progress s new (some old) e = ground arith

reduce-Progress : (s : EndpointSimulation) (event : Event) → Progress s (reduce_endpoint s event)
unfolding reduce_endpoint
reduce-Progress s (desired_event new) = desired-Progress s new s.desired refl
reduce-Progress s _ = ground arith

-- No history of events moves the connection epoch or the desired generation back.
pub run_monotone :
    (s : EndpointSimulation) (events : List Event)
    → (s.connection_epoch ≤ (run s events).connection_epoch)
      × (desired_generation s.desired ≤ desired_generation (run s events).desired)
unfolding run
run_monotone s [] = omega arith
run_monotone s (event ∷ events) =
    ground (arith, reduce-Progress s event, run_monotone (reduce_endpoint s event) events)

-- A result of an earlier connection epoch is ignored, whatever has happened since.
pub stale_epoch_ignored :
    (s : EndpointSimulation) (events : List Event) (event : OperationResult)
    → event.connection_epoch < s.connection_epoch
    → reduce_endpoint (run s events) (operation_result event) ≡ run s events
unfolding reduce_endpoint accepts
stale_epoch_ignored s events event h = ground (arith, run_monotone s events)

-- So is a result for a generation that a newer desired state had replaced.
pub stale_generation_ignored :
    (s : EndpointSimulation) (events : List Event) (event : OperationResult)
    → event.generation < desired_generation s.desired
    → reduce_endpoint (run s events) (operation_result event) ≡ run s events
unfolding reduce_endpoint reduce_result
stale_generation_ignored s events event h = elim (Bool-cases (accepts (run s events) event)) [
  | inl taken ↦
      let a = accepts_sound (run s events) event taken in
      absurd (ground (arith, run_monotone s events, a.desired, a.generation))
  | inr refused ↦ rw (refused, reduce_result)
]

-- Results that differ in operation, generation or epoch.
abbrev pub Distinct : List Completed → Type 0
Distinct [] = Unit
Distinct (c ∷ cs) = All (λ d. c ≢ d) cs × Distinct cs

-- A completed result answers the desired state on the current connection.
abbrev pub Answers : EndpointSimulation → EndpointDesiredState → Completed → Type 0
Answers s d c =
    (c.operation_id ≡ d.active_operation_id)
    × (c.generation ≡ d.generation)
    × (c.connection_epoch ≡ s.connection_epoch)

abbrev pub Backed : EndpointSimulation → Type 0
Backed s =
    (s.protocol ≡ Protocol.connected)
    × (d : EndpointDesiredState) × (before : List Completed) × (c : Completed) × (s.desired
        ≡ some d)
    × (s.completed_results ≡ before ++ c ∷ [])
    × Answers s d c

abbrev pub IsOld : EndpointSimulation → Completed → Type 0
IsOld s c =
    (c.connection_epoch ≤ s.connection_epoch) × (c.generation ≤ desired_generation s.desired)

pub record Inv (s : EndpointSimulation) : Type 0 where
  pub distinct : Distinct s.completed_results
  pub old : All (IsOld s) s.completed_results
  pub converged_backed : s.convergence ≡ Convergence.converged → Backed s

All-IsOld :
    (s t : EndpointSimulation)
    → Progress s t
    → (cs : List Completed) → All (IsOld s) cs
    → All (IsOld t) cs
All-IsOld s t p [] h = tt
All-IsOld s t p (c ∷ cs) h = (
  (omega (arith, p.epoch, p.generation), omega (arith, p.epoch, p.generation)),
  All-IsOld s t p cs h.1,
)

Distinct-append :
    (cs : List Completed) (c : Completed)
    → Distinct cs
    → All (λ b. b ≢ c) cs
    → Distinct (cs ++ c ∷ [])
Distinct-append [] c h k = (tt, tt)
Distinct-append (b ∷ cs) c h k =
    (All-append (λ d. b ≢ d) cs (c ∷ []) h.0 (k.0, tt), Distinct-append cs c h.1 k.1)

initial-Inv : (endpoint_id : String) → Inv (initial_endpoint endpoint_id)
unfolding initial_endpoint
initial-Inv endpoint_id = record { distinct = tt; old = tt; converged_backed = λ e. cc }

finish-Inv :
    (s : EndpointSimulation) (event : OperationResult)
    → Accepted s event
    → Inv s
    → Inv (finish s event)
unfolding finish
finish-Inv s event a v = record {
  distinct = Distinct-append s.completed_results (completed_of event) v.distinct a.fresh;
  old =
      All-append (IsOld (finish s event)) s.completed_results (completed_of event ∷ []) v.old
        ((omega (arith, a.epoch), ground (arith, a.desired, a.generation)), tt);
  converged_backed = λ _. (
    a.connected,
    a.target,
    s.completed_results,
    completed_of event,
    a.desired,
    refl,
    (a.operation, a.generation, a.epoch),
  );
}

-- The results that are already there stay old: nothing moves back.
reduce_endpoint-IsOld :
    (s : EndpointSimulation) (event : Event)
    → Inv s
    → All (IsOld (reduce_endpoint s event)) s.completed_results
reduce_endpoint-IsOld s event v =
    All-IsOld s (reduce_endpoint s event) (reduce-Progress s event) s.completed_results v.old

reduce_desired-Inv :
    (s : EndpointSimulation) (new : EndpointDesiredState)
    → Inv s
    → Inv (reduce_endpoint s (desired_event new))
unfolding reduce_endpoint
reduce_desired-Inv s new v = ground (arith, reduce_endpoint-IsOld s (desired_event new) v)

reduce_disconnected-Inv :
    (s : EndpointSimulation) → Inv s → Inv (reduce_endpoint s disconnected_event)
unfolding reduce_endpoint
reduce_disconnected-Inv s v = ground (arith, reduce_endpoint-IsOld s disconnected_event v)

reduce_connected-Inv : (s : EndpointSimulation) → Inv s → Inv (reduce_endpoint s connected_event)
unfolding reduce_endpoint
reduce_connected-Inv s v = record {
  distinct = v.distinct;
  old = v.old;
  converged_backed = backed s.desired refl;
}
  where
    backed :
        (o : Option EndpointDesiredState)
        → s.desired ≡ o
        → (reduce_endpoint s connected_event).convergence ≡ Convergence.converged
        → Backed (reduce_endpoint s connected_event)
    backed none e h = let b = v.converged_backed (rw e at h) in cc (b.4)
    backed (some d) e h = cc

reduce-Inv : (s : EndpointSimulation) (event : Event) → Inv s → Inv (reduce_endpoint s event)
unfolding reduce_endpoint
reduce-Inv s (desired_event new) v = reduce_desired-Inv s new v
reduce-Inv s disconnected_event v = reduce_disconnected-Inv s v
reduce-Inv s connected_event v = reduce_connected-Inv s v
reduce-Inv s (conflict_event reason) v = record {
  distinct = v.distinct;
  old = v.old;
  converged_backed = λ e. cc;
}
reduce-Inv s (operation_result event) v = elim (Bool-cases (accepts s event)) [
  | inl taken ↦ rw (taken, reduce_result) (finish-Inv s event (accepts_sound s event taken) v)
  | inr refused ↦ rw (refused, reduce_result) v
]

run-Inv : (s : EndpointSimulation) (events : List Event) → Inv s → Inv (run s events)
unfolding run
run-Inv s [] v = v
run-Inv s (event ∷ events) v = run-Inv (reduce_endpoint s event) events (reduce-Inv s event v)

-- After any history of a new endpoint the completed results are distinct, none of them is of a
-- later epoch or generation than the current ones, and the endpoint counts as converged only while
-- it is connected, with a completed result for the desired operation, the desired generation and
-- the current epoch.
pub run-initial-Inv :
    (endpoint_id : String) (events : List Event) → Inv (run (initial_endpoint endpoint_id) events)
run-initial-Inv endpoint_id events = run-Inv _ events (initial-Inv endpoint_id)
