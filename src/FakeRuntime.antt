-- ===== src/FakeRuntime.antt =====
-- `FakeRuntime` of apps/agent/src/index.ts. The queue of an endpoint makes its calls wait for each
-- other: a call looks for its effect when it is made, and again when its turn comes. A turn is one
-- step here; in the source turns of different endpoints can mix while they report or write. Effect
-- ids begin with `runtime:`, so that the members of the state file's object are in the order of
-- their insertion. The runtime has a state file.
pub mod Once
pub mod Reopening
mod Tests
use botroost.Prelude.{
  String, Bool, true, false, ◌||◌, Option, none, some, List, [], ◌∷◌, ◌++◌, ◌==◌, text_test,
  if◌then◌else◌, Assoc, lookup, insert,
}

pub data State : Type 0 where
  running stopped : State

pub record Applied : Type 0 where
  pub endpoint_id : String
  pub action : String
  pub state : State

-- What the runtime keeps in memory.
pub record Memory : Type 0 where
  pub effect_records : Assoc String Applied
  pub effects : Assoc String (List String)
  pub states : Assoc String State

-- The memory with the records of the state file.
pub record FakeRuntime : Type 0 where
  pub memory : Memory
  pub file : Assoc String Applied

abbrev pub no_effects : Memory
no_effects = record { effect_records = []; effects = []; states = [] }

abbrev list_or_empty : Option (List String) → List String
list_or_empty none = []
list_or_empty (some list) = list

-- The three `set` calls for one effect, in `open` and in `apply`.
unfoldable pub set_effect : String → Applied → Memory → Memory
set_effect effect_id effect m = record {
  effect_records = insert effect_id effect m.effect_records;
  effects =
      insert effect.endpoint_id
        (list_or_empty (lookup effect.endpoint_id m.effects) ++ effect.action ∷ []) m.effects;
  states = insert effect.endpoint_id effect.state m.states;
}

unfoldable pub restore : Assoc String Applied → Memory → Memory
restore [] m = m
restore ((effect_id, effect) ∷ rest) m = restore rest (set_effect effect_id effect m)

-- `open`, on a state file that is there; without one the records are empty.
unfoldable pub open_runtime : Assoc String Applied → FakeRuntime
open_runtime file = record { memory = restore file no_effects; file = file }

pub record Command : Type 0 where
  pub endpoint_id : String
  pub action : String

unfoldable pub state_after : String → State
state_after action = if action == "stop" || action == "delete" then State.stopped else State.running

-- What goes on around one call: whether its two reports of progress and the writing of the state
-- file succeed.
pub record Around : Type 0 where
  pub inspecting : Bool
  pub working : Bool
  pub persisted : Bool

pub data Answer : Type 0 where
  done : State → Answer
  threw : Answer

abbrev pub effect_of : Command → Applied
effect_of command = record {
  endpoint_id = command.endpoint_id;
  action = command.action;
  state = state_after command.action;
}

-- The end of `apply`: the effect is set in memory, then written. A write that fails leaves the file
-- as it was, because the new one is renamed into its place.
persist : Around → Applied → Memory → FakeRuntime → Answer × FakeRuntime
persist around effect m s =
    if around.persisted
    then (done effect.state, record { memory = m; file = m.effect_records })
    else (threw, record s { memory = m })

carry_out : Around → String → Command → FakeRuntime → Answer × FakeRuntime
unfolding persist
carry_out around effect_id command s =
    if around.working
    then persist around (effect_of command) (set_effect effect_id (effect_of command) s.memory) s
    else (threw, s)

-- The turn of a call, from the await of the queue on.
unfoldable pub take_turn : Around → String → Command → FakeRuntime → Answer × FakeRuntime
unfolding carry_out
take_turn around effect_id command s =
    if around.inspecting
    then elim (lookup effect_id s.memory.effect_records) [
      | some replay ↦ (done replay.state, s)
      | none ↦ carry_out around effect_id command s
    ]
    else (threw, s)

-- The look that `apply` takes when it is called: an answer at once, or the call waits.
unfoldable pub ask : String → FakeRuntime → Option Answer
ask effect_id s = elim (lookup effect_id s.memory.effect_records) [
  | some existing ↦ some (done existing.state)
  | none ↦ none
]

unfoldable pub effects_for : String → FakeRuntime → List String
effects_for endpoint_id s = list_or_empty (lookup endpoint_id s.memory.effects)

-- The turns of calls, in the order in which the queues let them run.
pub record Turn : Type 0 where
  pub around : Around
  pub effect_id : String
  pub command : Command

unfoldable pub run : List Turn → FakeRuntime → FakeRuntime
run [] s = s
run (t ∷ ts) s = run ts (take_turn t.around t.effect_id t.command s).1
