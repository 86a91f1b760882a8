-- ===== src/Agent/Poll.antt =====
-- `pollOnce` of DurableFakeAgent, in apps/agent/src/index.ts.
use Prim.Native.String.{◌++◌ as join_text}
use botroost.Prelude.{
  ℕ, ◌+◌, String, Bool, true, false, not, ◌||◌, Option, none, some, [], ◌==◌, text_test,
  number_test, leb, ltb, if◌then◌else◌, is_some, lookup,
}
use botroost.Json.{Json, Fields, str, num, obj, field, end}
use botroost.Journal.{JournalEntry}
use botroost.Programs.{return, throw, ◌>>=◌, ◌>>◌, catch, throw_if, when, given}
use botroost.Agent.{
  Claim, Agent, Task, now, get_last, claim, fence_error, set_last, heartbeat, get_entry,
  record_receipt, send_receipt, send_result, record_effect, record_result, send_progress, apply,
}
use botroost.Agent.Runtimes.{call_of, runtime_for, report_idle}

-- `receipt`
unfoldable pub receipt_of : Claim → Fields
receipt_of command = field "operationId" (str command.operation_id) (
    field "generation" (num command.generation)
      (field "connectionEpoch" (num command.connection_epoch) end))

-- `command.attempt ?? 1`
unfoldable pub attempt_of : Claim → String
attempt_of command = elim command.attempt [ none ↦ "1" | some attempt ↦ attempt ]

unfoldable pub effect_id_of : Claim → String
effect_id_of command = join_text "runtime:" command.command_id

abbrev pub has_receipt : Option JournalEntry → Bool
has_receipt none = false
has_receipt (some entry) = is_some entry.receipt

unfoldable pub result_in : Option JournalEntry → Option Fields
result_in none = none
result_in (some entry) = entry.result

unfoldable pub effect_in : Claim → Option JournalEntry → Option Fields
unfolding effect_id_of
effect_in command none = none
effect_in command (some entry) = lookup (effect_id_of command) entry.effects

-- `fields[key]`, where `null` and a missing member are no value.
unfoldable pub value_of : String → Fields → Option Json
value_of key end = none
value_of key (field k Json.null rest) = if key == k then none else value_of key rest
value_of key (field k v rest) =
    let others = value_of key rest in if key == k then some v else others

abbrev observations : String → String → String → String → Json
observations runtime provider protocol convergence = obj (
    field "node" (str "online") (
      field "runtime" (str runtime) (
        field "provider" (str provider)
          (field "protocol" (str protocol) (field "convergence" (str convergence) end)))))

-- The observations of an effect that has none.
unfoldable pub default_observations : Claim → Json
default_observations command =
    observations
      (if (command.action == "stop") || (command.action == "delete") then "stopped" else "ready")
      "available" "connected" "converged"

unfoldable pub observations_of : Claim → Option Fields → Json
unfolding default_observations value_of
observations_of command none = default_observations command
observations_of command (some applied) = elim (value_of "observations" applied) [
  | none ↦ default_observations command
  | some seen ↦ seen
]

-- `...(applied?.metadata ? { metadata: applied.metadata } : {})`
unfoldable pub metadata_of : Option Fields → Fields
unfolding value_of
metadata_of none = end
metadata_of (some applied) = elim (value_of "metadata" applied) [
  | none ↦ end
  | some metadata ↦ field "metadata" metadata end
]

unfoldable pub succeeded : Claim → Option Fields → Fields
unfolding attempt_of observations_of metadata_of
succeeded command applied = field "operationId" (str command.operation_id) (
    field "endpointId" (str command.endpoint_id) (
      field "generation" (num command.generation) (
        field "connectionEpoch" (num command.connection_epoch) (
          field "attempt" (num (attempt_of command)) (
            field "outcome" (str "succeeded")
              (field "observations" (observations_of command applied) (metadata_of applied)))))))

unfoldable pub failed_result : Claim → String → Fields
unfolding attempt_of
failed_result command message = field "operationId" (str command.operation_id) (
    field "generation" (num command.generation) (
      field "connectionEpoch" (num command.connection_epoch) (
        field "endpointId" (str command.endpoint_id) (
          field "attempt" (num (attempt_of command)) (
            field "outcome" (str "failed") (
              field "error" (str message) (
                field "observations" (observations "unknown" "unknown" "unknown" "failed")
                  end)))))))

-- `if (fenceError) throw fenceError`
unfoldable pub check_fence : Task (Unit {0})
check_fence = call_of fence_error >>= λ e. given e (return tt) (λ message. throw message)

abbrev pub acknowledged : Claim → Fields
acknowledged command = field "endpointId" (str command.endpoint_id) (
    field "phase" (str "agent-acknowledged")
      (field "percent" (num "15") (field "message" (str "Agent acknowledged command") end)))

-- `await report(latest)`: the first report, which has sequence 1.
unfoldable pub acknowledge : Agent → Claim → Task (Unit {0})
acknowledge agent command =
    catch (call_of (send_progress command.command_id 1 (acknowledged command)))
      (λ e. if agent.errors.is_legacy e then return tt else throw e)

-- What the runtime does, or has done before: `applied`.
unfoldable pub applied_effect : String → Claim → Task (Option Fields)
unfolding effect_in effect_id_of
applied_effect runtime command = do
  entry ← call_of (get_entry command.command_id)
  given (effect_in command entry) (call_of (apply runtime (effect_id_of command) command))
      (λ effect. return (some effect))

unfoldable pub keep_effect : Claim → Option Fields → Task (Unit {0})
unfolding effect_id_of
keep_effect command applied =
    given applied (return tt)
      (λ effect. call_of (record_effect command.command_id (effect_id_of command) effect))

-- The body of the `try`.
unfoldable pub carry_out : Agent → Claim → Task Fields
unfolding runtime_for applied_effect check_fence keep_effect succeeded
carry_out agent command = do
  runtime ← runtime_for agent command
  applied ← applied_effect runtime command
  check_fence
  keep_effect command applied
  check_fence
  call_of (record_result command.command_id (succeeded command applied))
  return (succeeded command applied)

-- The `catch`: exceptions that leave the command open are passed on, others are its result.
unfoldable pub give_up : Agent → Claim → String → Task Fields
unfolding check_fence failed_result
give_up agent command e = do
  check_fence
  throw_if (agent.errors.is_fence e) e
  throw_if (agent.errors.is_transient e) e
  call_of (record_result command.command_id (failed_result command (agent.errors.safe e)))
  return (failed_result command (agent.errors.safe e))

-- The result, from the journal or from the runtime.
unfoldable pub settle : Agent → Claim → Option Fields → Task Fields
unfolding carry_out give_up
settle agent command (some result) = return result
settle agent command none = catch (carry_out agent command) (give_up agent command)

-- `delete fields[key]`, and `{ ...fields, [key]: value }`
unfoldable pub without : String → Fields → Fields
without key end = end
without key (field k v rest) =
    let others = without key rest in if key == k then others else field k v others

unfoldable pub with_value : String → Json → Fields → Fields
with_value key value end = field key value end
with_value key value (field k v rest) =
    let others = with_value key value rest in
    if key == k then field k value rest else field k v others

-- The argument of `transport.result`.
unfoldable pub outgoing : Claim → Fields → Fields
unfolding without with_value attempt_of
outgoing command result =
    field "commandId" (str command.command_id)
      (without "commandId" (with_value "attempt" (num (attempt_of command)) result))

unfoldable pub deliver : Claim → Fields → Task Bool
unfolding check_fence outgoing
deliver command result = do
  check_fence
  call_of (send_result command.command_id (outgoing command result))
  return true

-- After the receipt is in the journal.
unfoldable pub answer_claim : Agent → Claim → Task Bool
unfolding receipt_of acknowledge result_in settle deliver
answer_claim agent command = do
  call_of (send_receipt command.command_id (receipt_of command))
  acknowledge agent command
  stored ← call_of (get_entry command.command_id)
  result ← settle agent command (result_in stored)
  deliver command result

-- A command has been claimed.
unfoldable pub work : Agent → Claim → Task Bool
unfolding receipt_of answer_claim
work agent command = do
  call_of (set_last none)
  existing ← call_of (get_entry command.command_id)
  when (not (has_receipt existing))
      (call_of (record_receipt command.command_id (receipt_of command)))
  answer_claim agent command

-- `observationDue`; none is the negative infinity of the start.
unfoldable pub is_due : ℕ → Option ℕ → Bool
is_due time none = true
is_due time (some last) = leb (last + 5000) time || ltb time last

-- `pollOnce`
unfoldable pub poll_once : Agent → Task Bool
unfolding is_due report_idle work
poll_once agent = do
  time ← call_of now
  last ← call_of get_last
  when (is_due time last) (call_of (heartbeat []) >> call_of (set_last (some time)))
  claimed ← call_of claim
  given claimed (report_idle (is_due time last)) (work agent)
