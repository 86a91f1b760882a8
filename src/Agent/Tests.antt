-- ===== src/Agent/Tests.antt =====
-- Runs of pollOnce of apps/agent/src/index.ts on small inputs, and uses of the theorems about it.
use botroost.Prelude.{true, false, none, some, List, [], ◌∷◌, ◌≡◌, refl, length, arith, All, lookup}
use botroost.Json.{Json, Fields, field, str, end}
use botroost.Journal.{empty_entry}
use botroost.Programs.{Answer, gave, raised, ◌>>=◌, answer_of, given, catch}
use botroost.Programs.Runs.{Always, finished, Surroundings, run}
use botroost.Agent.{
  Claim, Agent, Op, Reply, now, get_last, has_runtimes, active_runtimes, claim, fence_error,
  get_entry, get_runtime, set_last, record_receipt, send_receipt, send_progress, apply,
  record_effect, record_result, send_result,
}
use botroost.Agent.Runtimes.{batches}
use botroost.Agent.Poll.{work}
use botroost.Agent.Order.{order, fresh}
use botroost.Agent.Orderly.{Answered, work-Answered}
use botroost.Agent.Journaled.{Journaled, work-Journaled}
use botroost.Agent.Batches.{concat, Small, concat-batches}

abbrev some_claim : Claim
some_claim = record {
  command_id = "c";
  endpoint_id = "e";
  operation_id = "o";
  generation = "1";
  connection_epoch = "1";
  attempt = none;
  action = "start";
  provider = none;
}

abbrev some_agent : Agent
some_agent = record {
  default_provider = "fake";
  has_factory = false;
  errors = record {
    is_fence = λ e. false;
    is_transient = λ e. false;
    is_legacy = λ e. false;
    safe = λ e. e;
  };
}

abbrev some_effect : Fields
some_effect = field "state" (str "running") end

-- A journal that has nothing of the command, and a runtime that applies it.
answer_for : (op : Op) → Answer (Reply op)
answer_for now = gave 0
answer_for get_last = gave none
answer_for has_runtimes = gave true
answer_for active_runtimes = gave []
answer_for claim = gave none
answer_for fence_error = gave none
answer_for (get_entry id) = gave none
answer_for (get_runtime provider) = gave (some "fake")
answer_for (apply runtime effect_id command) = gave (some some_effect)
answer_for (set_last t) = gave tt
answer_for (record_receipt id payload) = gave tt
answer_for (send_receipt id payload) = gave tt
answer_for (send_progress id n progress) = gave tt
answer_for (record_effect id effect_id effect) = gave tt
answer_for (record_result id result) = gave tt
answer_for (send_result id result) = gave tt
answer_for _ = raised "not there"

abbrev node : Surroundings Op Reply
node = record { State = Unit {0}; answer = λ s op. (answer_for op, s) }

-- The command is carried out, with 15 calls.
work_test :
    ((run node (work some_agent some_claim) tt).0 ≡ finished true)
    × (length (run node (work some_agent some_claim) tt).1.0 ≡ 15)
unfolding run work answer_for ◌>>=◌ answer_of given catch lookup
work_test = (refl, refl)

work-Answered_example : Always (order some_claim) Answered fresh (work some_agent some_claim)
work-Answered_example = work-Answered some_agent some_claim

abbrev two_observations : List Json
two_observations = Json.null ∷ Json.null ∷ []

concat-batches_example :
    (concat (batches 2 two_observations) ≡ two_observations)
    × All Small (batches 2 two_observations)
concat-batches_example = concat-batches 2 two_observations (omega arith)

work-Journaled_example : Journaled some_claim empty_entry (work some_agent some_claim)
work-Journaled_example = work-Journaled some_agent some_claim empty_entry
