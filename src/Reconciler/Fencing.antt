-- ===== src/Reconciler/Fencing.antt =====
-- The results that the reducer of packages/reconciler/src/index.ts takes.
use botroost.Prelude.{
  ◌+◌, ◌≡◌, refl, ap, ◌≢◌, ◌↔◌, inl, inr, true, false, Option, none, some, List, [], ◌∷◌, arith,
  eq_iff, any, any-append, All, Bool-cases, length, length-append, number_test, text_test,
}
use botroost.Reconciler.{
  EndpointDesiredState, Protocol, Completed, EndpointSimulation, OperationResult, operation_result,
  names_desired, same_result, completed_of, accepts, finish, reduce_result, reduce_endpoint,
}

-- What a result must meet to be taken.
pub record Accepted (s : EndpointSimulation) (event : OperationResult) : Type 0 where
  pub connected : s.protocol ≡ Protocol.connected
  pub target : EndpointDesiredState
  pub desired : s.desired ≡ some target
  pub generation : event.generation ≡ target.generation
  pub operation : event.operation_id ≡ target.active_operation_id
  pub epoch : event.connection_epoch ≡ s.connection_epoch
  pub fresh : All (λ c. c ≢ completed_of event) s.completed_results

same_result_iff :
    (event : OperationResult) (c : Completed)
    → (same_result event c ≡ true) ↔ (c ≡ completed_of event)
same_result_iff event c = ground (arith, eq_iff c.operation_id event.operation_id)

fresh_sound :
    (event : OperationResult) (cs : List Completed)
    → any (same_result event) cs ≡ false
    → All (λ c. c ≢ completed_of event) cs
fresh_sound event [] h = tt
fresh_sound event (c ∷ cs) h = ground (arith, same_result_iff event c, fresh_sound event cs)

fresh_complete :
    (event : OperationResult) (cs : List Completed)
    → All (λ c. c ≢ completed_of event) cs
    → any (same_result event) cs ≡ false
fresh_complete event [] h = refl
fresh_complete event (c ∷ cs) h =
    ground (arith, same_result_iff event c, fresh_complete event cs h.1)

names_desired_sound :
    (event : OperationResult) (o : Option EndpointDesiredState)
    → names_desired event o ≡ true
    → (d : EndpointDesiredState) × (o ≡ some d)
      × (event.generation ≡ d.generation)
      × (event.operation_id ≡ d.active_operation_id)
names_desired_sound event none h = cc
names_desired_sound event (some d) h =
    (d, refl, ground arith, ground (arith, eq_iff event.operation_id d.active_operation_id))

pub accepts_sound :
    (s : EndpointSimulation) (event : OperationResult) → accepts s event ≡ true → Accepted s event
unfolding accepts
accepts_sound s event h =
    let named : names_desired event s.desired ≡ true = ground arith in
    let (d, desired, generation, operation) = names_desired_sound event s.desired named in
    record {
      connected = ground arith;
      target = d;
      desired = desired;
      generation = generation;
      operation = operation;
      epoch = ground arith;
      fresh = fresh_sound event s.completed_results (ground arith);
    }

accepts_complete :
    (s : EndpointSimulation) (event : OperationResult) → Accepted s event → accepts s event ≡ true
unfolding accepts
accepts_complete s event a = ground (
  arith,
  fresh_complete event s.completed_results a.fresh,
  eq_iff event.operation_id a.target.active_operation_id,
)

length-finish :
    (s : EndpointSimulation) (event : OperationResult)
    → length (finish s event).completed_results ≡ length s.completed_results + 1
unfolding finish
length-finish s event = omega (arith, length-append s.completed_results (completed_of event ∷ []))

finish-ne : (s : EndpointSimulation) (event : OperationResult) → finish s event ≢ s
finish-ne s event e = omega (arith, length-finish s event, ap (λ r. length r.completed_results) e)

-- A result changes the endpoint exactly when the endpoint is connected, the result carries the
-- desired generation and operation and the current connection epoch, and no result with the same
-- three has been completed.
pub result_changes_iff :
    (s : EndpointSimulation) (event : OperationResult)
    → (reduce_endpoint s (operation_result event) ≢ s) ↔ Accepted s event
unfolding reduce_endpoint reduce_result
result_changes_iff s event = elim (Bool-cases (accepts s event)) [
  | inl taken ↦ rw (taken, reduce_result) (λ _. accepts_sound s event taken, λ _. finish-ne s event)
  | inr refused ↦
      rw (refused, reduce_result)
        (λ changed. absurd (changed refl), λ a. cc (accepts_complete s event a))
]

-- A second result for the same operation, generation and epoch changes nothing, whatever its
-- outcome and message.
result_twice :
    (s : EndpointSimulation) (first second : OperationResult)
    → completed_of second ≡ completed_of first
    → reduce_endpoint (reduce_endpoint s (operation_result first)) (operation_result second)
      ≡ reduce_endpoint s (operation_result first)
unfolding reduce_endpoint reduce_result accepts finish
result_twice s first second same = ground (
  arith,
  eq_iff first.operation_id second.operation_id,
  any-append (same_result second) s.completed_results (completed_of first ∷ []),
)
