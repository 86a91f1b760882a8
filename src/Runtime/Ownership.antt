-- ===== src/Runtime/Ownership.antt =====
-- Whose containers `applySerial` of the three runtimes touches: apps/agent/src/index.ts,
-- apps/agent/src/llbot-runtime.ts and apps/agent/src/snowluma-runtime.ts.
use botroost.Prelude.{String, not, ◌||◌, refl, ltb, leb}
use botroost.Programs.{return, throw, ◌>>◌}
use botroost.Programs.Runs.{Always, Always-last, Always-perform}
use botroost.Runtime.{Options, Command, load_commands, load_desired}
use botroost.Runtime.EndpointId.{is_endpoint_id}
use botroost.Runtime.Common.{call_of, container_name}
use botroost.Runtime.Guard.{
  Guarded, guard, IsSilent, IsSilent-if, Quiet, unread, permits, clear, Clears-Guarded,
  begin_apply-Clears,
}
use botroost.Runtime.Members.{Numbers}
use botroost.Runtime.Napcat
use botroost.Runtime.Llbot
use botroost.Runtime.Snowluma
use botroost.Runtime.Snowluma.{room_of, short_name, workload_name}

container_name-IsSilent :
    (options : Options) (endpoint_id : String) → IsSilent (container_name options endpoint_id)
unfolding container_name IsSilent
container_name-IsSilent options endpoint_id = IsSilent-if (is_endpoint_id endpoint_id) _ _ tt tt

short_name-IsSilent :
    (options : Options) (endpoint_id : String) → IsSilent (short_name options endpoint_id)
unfolding short_name IsSilent
short_name-IsSilent options endpoint_id =
    IsSilent-if {A = String} (ltb (room_of options) 1) (throw _) (return _) tt tt

workload_name-IsSilent :
    (options : Options) (endpoint_id : String) → IsSilent (workload_name options endpoint_id)
unfolding workload_name IsSilent
workload_name-IsSilent options endpoint_id =
    IsSilent-if (is_endpoint_id endpoint_id) _ _
      (IsSilent-if (not options.is_kubernetes || leb _ 52) (return _)
        (short_name options endpoint_id) tt (short_name-IsSilent options endpoint_id))
      tt

load_commands-Quiet :
    (provider : String) (command : Command)
    → Always (guard provider command) (Quiet unread) unread (call_of load_commands)
unfolding permits clear
load_commands-Quiet provider command =
    Always-last (guard provider command) load_commands (Quiet unread) unread refl (λ a. refl)
      (λ e. tt)

load_both-Quiet :
    (provider : String) (command : Command)
    → Always
        (guard provider command)
        (Quiet unread)
        unread
        (call_of load_commands >> call_of load_desired)
unfolding permits clear
load_both-Quiet provider command =
    Always-perform (guard provider command) (Quiet unread) unread load_commands _ refl
      (λ a.
        Always-last (guard provider command) load_desired (Quiet unread) unread refl (λ a. refl)
          (λ e. tt))
      (λ e. tt)

-- Whatever its calls answer, and whatever exceptions they throw, a command of any of the three
-- runtimes does nothing but report, load and look up what is stored, and inspect containers, until
-- the remembered command of its endpoint is found not to have a higher generation, and after that
-- a container is found not to exist or to be labelled with the command's workspace and endpoint
-- and with the provider.
pub apply_serial-Guarded :
    (options : Options) (numbers : Numbers) (effect_id : String) (command : Command)
    → Guarded "napcat" command (Napcat.apply_serial options effect_id command)
      × (Guarded "llbot" command (Llbot.apply_serial options numbers command)
          × Guarded "snowluma" command (Snowluma.apply_serial options numbers command))
unfolding Napcat.apply_serial Napcat.begin Llbot.apply_serial Llbot.begin Snowluma.apply_serial
    Snowluma.begin
apply_serial-Guarded options numbers effect_id command = (
  Clears-Guarded "napcat" command _ _ (
      begin_apply-Clears "NapCat" "napcat" _ _ _ command (load_commands-Quiet "napcat" command)
        (container_name-IsSilent options command.endpoint_id)),
  (
    Clears-Guarded "llbot" command _ _ (
        begin_apply-Clears "LLBot" "llbot" _ _ _ command (load_commands-Quiet "llbot" command)
          (container_name-IsSilent options command.endpoint_id)),
    Clears-Guarded "snowluma" command _ _ (
        begin_apply-Clears "SnowLuma" "snowluma" _ _ _ command (load_both-Quiet "snowluma" command)
          (workload_name-IsSilent options command.endpoint_id)),
  ),
)
