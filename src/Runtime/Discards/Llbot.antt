-- ===== src/Runtime/Discards/Llbot.antt =====
-- What LLBotRuntime.applySerial of apps/agent/src/llbot-runtime.ts does when it is not asked to
-- delete.
use botroost.Prelude.{String, false, Option, none, some, ◌==◌, text_test, ◌≡◌}
use botroost.Programs.Only.{Only-else}
use botroost.Runtime.{Op, Reply, Options, Command, Container}
use botroost.Runtime.Members.{Numbers}
use botroost.Runtime.Discards.{Spares, spares_data, shared_spares}
use botroost.Runtime.Discards.Websockets.{llbot_map-Only}
use botroost.Runtime.LlbotActions.{change_websockets, update_websockets}
use botroost.Runtime.Llbot.{
  mount_of, replace_container, force_restart, mutation, finish, reconcile, configure,
  keep_or_change, act,
}

update_websockets-Spares :
    (numbers : Numbers) (name : String) (command : Command) (existing : Option Container)
    → Spares (update_websockets numbers name command existing)
unfolding update_websockets change_websockets spares_data
update_websockets-Spares numbers name command existing =
    search (shared_spares, llbot_map-Only) depth 80

replace_container-Spares :
    (options : Options) (name : String) (command : Command) (existing : Option Container)
    → Spares (replace_container options name command existing)
unfolding replace_container mount_of spares_data
replace_container-Spares options name command existing = search shared_spares depth 60

force_restart-Spares :
    (options : Options) (command : Command) (existing : Option Container)
    → Spares (force_restart options command existing)
unfolding force_restart spares_data
force_restart-Spares options command none = search shared_spares
force_restart-Spares options command (some existing) = search shared_spares depth 60

mutation-Spares :
    (options : Options) (name : String) (command : Command) (existing : Option Container)
    → Spares (mutation options name command existing)
unfolding mutation spares_data
mutation-Spares options name command existing =
    search (shared_spares, force_restart-Spares) depth 60

finish-Spares : (command : Command) → Spares (finish command)
unfolding finish spares_data
finish-Spares command = search shared_spares depth 40

configure-Spares :
    (options : Options) (name : String) (command : Command) (existing : Option Container)
    → Spares (configure options name command existing)
unfolding configure reconcile
configure-Spares options name command existing =
    search (shared_spares, replace_container-Spares, mutation-Spares, finish-Spares) depth 40

others-Spares :
    (options : Options) (numbers : Numbers) (name : String) (command : Command)
    (existing : Option Container)
    → Spares (keep_or_change options numbers name command existing)
unfolding keep_or_change
others-Spares options numbers name command existing =
    search (shared_spares, update_websockets-Spares, configure-Spares) depth 10

pub act-Spares :
    (options : Options) (numbers : Numbers) (command : Command) (found : String × Option Container)
    → command.action == "delete" ≡ false
    → Spares (act options numbers command found)
unfolding act
act-Spares options numbers command (name, existing) e =
    Only-else Op Reply spares_data _ _ _ e (others-Spares options numbers name command existing)
