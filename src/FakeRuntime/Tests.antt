-- ===== src/FakeRuntime/Tests.antt =====
-- The theorems at concrete calls, and a run of the runtime.
use botroost.Prelude.{◌≡◌, refl, true, false, some, List, [], ◌∷◌, text_test, lookup, insert}
use botroost.FakeRuntime.{
  State, FakeRuntime, Command, Around, done, threw, take_turn, ask, Turn, run, open_runtime,
  restore, set_effect, state_after, effects_for,
}
use botroost.FakeRuntime.Once.{effect_once}
use botroost.FakeRuntime.Reopening.{open_runtime-run}

abbrev well : Around
well = record { inspecting = true; working = true; persisted = true }

abbrev disk_full : Around
disk_full = record well { persisted = false }

abbrev start : Command
start = record { endpoint_id = "ep"; action = "start" }

abbrev stop : Command
stop = record { endpoint_id = "ep"; action = "stop" }

abbrev empty : FakeRuntime
empty = open_runtime []

abbrev turns : List Turn
turns =
    record { around = well; effect_id = "runtime:1"; command = start }
    ∷ record { around = well; effect_id = "runtime:1"; command = start }
    ∷ record { around = well; effect_id = "runtime:2"; command = stop }
    ∷ []

each_effect_once : effects_for "ep" (run turns empty) ≡ "start" ∷ "stop" ∷ []
unfolding run take_turn open_runtime restore set_effect state_after lookup insert effects_for
each_effect_once = refl

answers : (take_turn well "runtime:1" start empty).0 ≡ done State.running
unfolding take_turn open_runtime restore set_effect state_after lookup insert
answers = refl

full_disk_throws : (take_turn disk_full "runtime:1" start empty).0 ≡ threw
unfolding take_turn open_runtime restore set_effect state_after lookup insert
full_disk_throws = refl

effect_once_example :
    (ask "runtime:1" (run turns (take_turn well "runtime:1" start empty).1)
      ≡ some (done State.running))
    × ((take_turn disk_full "runtime:1" stop
          (run turns (take_turn well "runtime:1" start empty).1)).1
        ≡ run turns (take_turn well "runtime:1" start empty).1)
effect_once_example =
    effect_once well disk_full "runtime:1" start stop State.running empty turns answers

open_runtime-run_example :
    open_runtime (run turns (open_runtime [])).file ≡ run turns (open_runtime [])
open_runtime-run_example = open_runtime-run turns (refl, (refl, (refl, tt)))
