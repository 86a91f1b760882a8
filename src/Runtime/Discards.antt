-- ===== src/Runtime/Discards.antt =====
-- Which calls of the three runtimes give up what an endpoint has stored.
pub mod Napcat
pub mod Websockets
pub mod Llbot
pub mod Snowluma
pub mod OnlyDelete
use botroost.Prelude.{
  ℕ, String, Bool, true, false, not, ◌&&◌, ◌||◌, Option, none, some, List, [], ◌∷◌, ◌==◌, text_test,
  ◌≡◌, refl,
}
use botroost.Programs.{Program, return, throw, call, ◌>>=◌, ◌>>◌, throw_if, when, catch}
use botroost.Programs.Only.{
  Only, only_rules, Only-bind, Only-return, Only-throw, Only-if, Only-catch, Only-option,
}
use botroost.Runtime.{
  Options, Command, Container, Phase, Op, Reply, Task, Applied, Cache, RuntimeStatus, remove,
  remove_host_endpoint, remove_tree, driver_delete, driver_delete_data, drop_command, drop_desired,
}
use botroost.Runtime.Common.{
  call_of, remember, snapshot_or, begin_apply, pass_fence, inspect_owned, endpoint_path,
  read_container_logs, forget_all,
}

unfoldable pub spares_data : Op → Bool
spares_data (remove name (some owner)) = false
spares_data (remove_host_endpoint root id image) = false
spares_data (remove_tree path) = false
spares_data (driver_delete name) = false
spares_data (driver_delete_data name owner) = false
spares_data (drop_command id) = false
spares_data (drop_desired id) = false
spares_data _ = true

abbrev pub Spares : {A : Type 0} → Task A → Type 0
Spares p = Only Op Reply spares_data p

pub remember-Spares : (command : Command) → Spares (remember command)
unfolding remember spares_data
remember-Spares command = search only_rules depth 20

pub logs-Spares :
    (options : Options) (title provider name : String) (command : Command)
    (existing : Option Container)
    → Spares (read_container_logs options title provider name command existing)
unfolding read_container_logs spares_data
logs-Spares options title provider name command none = search only_rules depth 20
logs-Spares options title provider name command (some existing) = search only_rules depth 30

pub snapshot_or-Spares :
    (shown : String → String) (runtime : RuntimeStatus) (command : Command)
    → Spares (snapshot_or shown runtime command)
unfolding snapshot_or spares_data
snapshot_or-Spares shown runtime command = search only_rules depth 20

pub path-Spares :
    (options : Options) (base endpoint_id : String) (child : List String)
    → Spares (endpoint_path options base endpoint_id child)
unfolding endpoint_path
path-Spares options base endpoint_id child = search only_rules depth 20

pub forget_all-Spares :
    (caches : List Cache) (endpoint_id : String) → Spares (forget_all caches endpoint_id)
unfolding forget_all spares_data
forget_all-Spares [] endpoint_id = search only_rules
forget_all-Spares (cache ∷ caches) endpoint_id =
    let rest = forget_all-Spares caches endpoint_id in search only_rules depth 20

-- A program before the checks, of any of the runtimes.
pub begin-Spares :
    (title provider : String) (allowed : Bool) (load : Task (Unit {0})) (name_of : Task String)
    (command : Command)
    → Spares load
    → Spares name_of
    → Spares (begin_apply title provider allowed load name_of command)
unfolding begin_apply pass_fence inspect_owned spares_data
begin-Spares title provider allowed load name_of command h g = search only_rules depth 40

pub ruleset shared_spares = (
  only_rules, remember-Spares, logs-Spares, snapshot_or-Spares, path-Spares, forget_all-Spares,
  begin-Spares,
)
