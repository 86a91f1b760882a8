-- ===== src/Runtime/Discards/Snowluma.antt =====
-- What SnowLumaRuntime.applySerial of apps/agent/src/snowluma-runtime.ts does when it is not asked to
-- delete.
use botroost.Prelude.{String, false, Option, none, some, List, [], ◌∷◌, ◌==◌, text_test, ◌≡◌}
use botroost.Programs.{Answer, gave, raised}
use botroost.Programs.Only.{Only-else}
use botroost.Runtime.{Op, Reply, Options, Command, Container, OneBotConfig}
use botroost.Runtime.Members.{Numbers}
use botroost.Runtime.Discards.{Spares, spares_data, shared_spares}
use botroost.Runtime.Discards.Websockets.{snowluma_map-Only}
use botroost.Runtime.SnowlumaCreate.{
  replace_container, make_place, prepare_local, host_directory, mounts_of, seed_config,
  seed_if_absent, ensure_all, open_all,
}
use botroost.Runtime.SnowlumaActions.{
  change_websockets, remember_desired, try_webui, write_file_config, adopt_applied,
  update_websockets,
}
use botroost.Runtime.Snowluma.{
  force_restart, mutation, finish, reconcile, configure, keep_or_change, act,
}

change_websockets-Spares :
    (numbers : Numbers) (name : String) (command : Command) (existing : Container)
    (found : OneBotConfig)
    → Spares (change_websockets numbers name command existing found)
unfolding change_websockets remember_desired try_webui write_file_config adopt_applied spares_data
change_websockets-Spares numbers name command existing found =
    search (shared_spares, snowluma_map-Only) depth 100

update_websockets-Spares :
    (numbers : Numbers) (name : String) (command : Command) (existing : Option Container)
    → Spares (update_websockets numbers name command existing)
unfolding update_websockets spares_data
update_websockets-Spares numbers name command none = search shared_spares depth 20
update_websockets-Spares numbers name command (some existing) =
    search (shared_spares, change_websockets-Spares) depth 40

directory-Spares :
    (options : Options) (endpoint_id child : String)
    → Spares (host_directory options endpoint_id child)
unfolding host_directory
directory-Spares options endpoint_id child = search shared_spares

mounts-Spares :
    (options : Options) (endpoint_id : String) (children : List (String × String))
    → Spares (mounts_of options endpoint_id children)
unfolding mounts_of
mounts-Spares options endpoint_id [] = search shared_spares
mounts-Spares options endpoint_id ((child, target) ∷ rest) =
    let others = mounts-Spares options endpoint_id rest in
    search (shared_spares, directory-Spares) depth 20

seed-Spares : (name path : String) → Spares (seed_config name path)
unfolding seed_config seed_if_absent spares_data
seed-Spares name path = search (shared_spares, absent-Spares) depth 20
  where
    absent-Spares : (r : Answer String) → Spares (seed_if_absent name path r)
    absent-Spares (gave text) = search shared_spares
    absent-Spares (raised e) = search shared_spares depth 20

ensure-Spares : (name : String) (mounts : List (String × String)) → Spares (ensure_all name mounts)
unfolding ensure_all spares_data
ensure-Spares name [] = search shared_spares
ensure-Spares name ((source, target) ∷ rest) =
    let others = ensure-Spares name rest in search shared_spares depth 20

open-Spares : (mounts : List (String × String)) → Spares (open_all mounts)
unfolding open_all spares_data
open-Spares [] = search shared_spares
open-Spares ((source, target) ∷ rest) =
    let others = open-Spares rest in search shared_spares depth 20

replace_container-Spares :
    (options : Options) (name : String) (command : Command) (existing : Option Container)
    → Spares (replace_container options name command existing)
unfolding replace_container make_place prepare_local spares_data
replace_container-Spares options name command existing =
    search (shared_spares, directory-Spares, mounts-Spares, seed-Spares, ensure-Spares, open-Spares)
      depth 80

force_restart-Spares :
    (options : Options) (command : Command) (existing : Option Container)
    → Spares (force_restart options command existing)
unfolding force_restart spares_data
force_restart-Spares options command none = search shared_spares
force_restart-Spares options command (some existing) = search shared_spares depth 60

mutation-Spares :
    (options : Options) (name : String) (command : Command) (existing : Option Container)
    → Spares (mutation options name command existing)
unfolding mutation spares_data
mutation-Spares options name command existing =
    search (shared_spares, force_restart-Spares) depth 60

finish-Spares : (command : Command) → Spares (finish command)
unfolding finish spares_data
finish-Spares command = search shared_spares depth 40

configure-Spares :
    (options : Options) (name : String) (command : Command) (existing : Option Container)
    → Spares (configure options name command existing)
unfolding configure reconcile
configure-Spares options name command existing =
    search (shared_spares, replace_container-Spares, mutation-Spares, finish-Spares) depth 40

others-Spares :
    (options : Options) (numbers : Numbers) (name : String) (command : Command)
    (existing : Option Container)
    → Spares (keep_or_change options numbers name command existing)
unfolding keep_or_change
others-Spares options numbers name command existing =
    search (shared_spares, update_websockets-Spares, configure-Spares) depth 10

pub act-Spares :
    (options : Options) (numbers : Numbers) (command : Command) (found : String × Option Container)
    → command.action == "delete" ≡ false
    → Spares (act options numbers command found)
unfolding act
act-Spares options numbers command (name, existing) e =
    Only-else Op Reply spares_data _ _ _ e (others-Spares options numbers name command existing)
