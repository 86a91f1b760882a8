-- ===== src/Agent.antt =====
-- DurableFakeAgent of apps/agent/src/index.ts, which carries out the commands of its node. What it
-- awaits, and what timers change under it, are calls: of the transport to the control plane, of the
-- journal, of the runtimes, and of its own fields. `fenceError`, which the reports of a runtime and
-- the keepalive timer set while something else is awaited, is read by a call whenever it is tested.
pub mod Runtimes
pub mod Poll
pub mod Order
pub mod Carrying
pub mod Batches
pub mod Journaled
pub mod Orderly
mod Tests
use botroost.Prelude.{ℕ, String, Bool, Option, List, Assoc}
use botroost.Json.{Json, Fields}
use botroost.Journal.{JournalEntry}
use botroost.Programs.{Program}

-- A claimed `RuntimeCommand`, as far as the agent reads it. Numbers are the texts JSON has for them.
pub record Claim : Type 0 where
  pub command_id : String
  pub endpoint_id : String
  pub operation_id : String
  pub generation : String
  pub connection_epoch : String
  pub attempt : Option String
  pub action : String
  pub provider : Option String

-- The tests that the agent makes on exceptions, of which the model keeps the text:
-- `isCommandFenceRejection`, `isTransientTransportError` and `isLegacyProgressUnsupported`, and the
-- text that `safeRuntimeError` reports.
pub record Errors : Type 0 where
  pub is_fence : String → Bool
  pub is_transient : String → Bool
  pub is_legacy : String → Bool
  pub safe : String → String

-- What the agent is constructed with; a runtime is known by its name.
pub record Agent : Type 0 where
  pub default_provider : String
  pub has_factory : Bool
  pub errors : Errors

pub data Op : Type 0 where
  now get_last has_runtimes active_runtimes claim fence_error : Op
  set_last : Option ℕ → Op
  heartbeat : List Json → Op
  observe get_entry get_runtime make_runtime : String → Op
  set_runtime : String → String → Op
  record_receipt send_receipt send_result : String → Fields → Op
  record_effect : String → String → Fields → Op
  record_result : String → Fields → Op
  send_progress : String → ℕ → Fields → Op
  apply : String → String → Claim → Op

abbrev pub Reply : Op → Type 0
Reply now = ℕ
Reply get_last = Option ℕ
Reply has_runtimes = Bool
Reply active_runtimes = List String
Reply claim = Option Claim
Reply fence_error = Option String
Reply (observe runtime) = List Json
Reply (get_entry id) = Option JournalEntry
Reply (get_runtime provider) = Option String
Reply (make_runtime provider) = Option String
Reply (apply runtime effect_id command) = Option Fields
Reply _ = Unit {0}

abbrev pub Task : Type 0 → Type 0
Task A = Program Op Reply A
