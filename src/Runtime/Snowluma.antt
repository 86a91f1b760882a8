-- ===== src/Runtime/Snowluma.antt =====
-- SnowLumaRuntime.applySerial of apps/agent/src/snowluma-runtime.ts.
use Prim.Native.String.{◌++◌ as join_text}
use botroost.Prelude.{
  ℕ, zero, suc, ◌-◌, String, Bool, true, not, ◌&&◌, ◌||◌, Option, none, some, [], ◌∷◌, ◌==◌,
  text_test, if◌then◌else◌, is_some, leb, ltb, Assoc, lookup, option_beq,
}
use botroost.Programs.{return, throw, ◌>>=◌, ◌>>◌, throw_if, when}
use botroost.Runtime.{
  Options, Command, Container, RuntimeStatus, Phase, Applied, Cache, Task, report, load_commands,
  load_desired, forget, start, stop, restart, kill,
}
use botroost.Runtime.Common.{
  call_of, stopped_result, observed, snapshot_or, safe_error, begin_apply, remember,
  read_container_logs,
}
use botroost.Runtime.EndpointId.{is_endpoint_id}
use botroost.Runtime.Members.{Numbers}
use botroost.Runtime.NapcatDriver.{image_or}
use botroost.Runtime.Llbot.{is_halted}
use botroost.Runtime.SnowlumaCreate.{snowluma_image, must_create, replace_container}
use botroost.Runtime.SnowlumaActions.{discard, update_websockets}

text_length : String → ℕ
text_length String.[] = 0
text_length (String.◌∷◌ c s) = suc (text_length s)

-- `text.slice(0, count)`
text_prefix : ℕ → String → String
text_prefix zero s = String.[]
text_prefix (suc count) String.[] = String.[]
text_prefix (suc count) (String.◌∷◌ c s) = String.◌∷◌ c (text_prefix count s)

-- `room`, with `WORKLOAD_NAME_LIMIT`
unfoldable pub room_of : Options → ℕ
unfolding text_length
room_of options = 52 - text_length options.container_prefix - 1

-- The name with as much of the identifier as there is room for.
unfoldable pub short_name : Options → String → Task String
unfolding text_prefix room_of
short_name options endpoint_id =
    if ltb (room_of options) 1
    then throw "container prefix is too long for Kubernetes"
    else return (
        join_text options.container_prefix
          (join_text "-" (text_prefix (room_of options) endpoint_id)))

-- `containerName`
unfoldable pub workload_name : Options → String → Task String
unfolding text_length short_name
workload_name options endpoint_id =
    let name = join_text options.container_prefix (join_text "-" endpoint_id) in
    if is_endpoint_id endpoint_id
    then if not options.is_kubernetes || leb (text_length name) 52
      then return name
      else short_name options endpoint_id
    else throw "endpoint identifier is invalid"

-- `SNOWLUMA_RELEASES`
abbrev releases : Assoc String String
releases =
    (
      snowluma_image,
      "artifact:snowluma:motricseven7.snowluma.sha256.72d9d31597df0741e84747282e979642405d1afb6c2f83b53add601bafdb4a99",
    )
    ∷ (
      "motricseven7/snowluma@sha256:f75698eeaa06a3aed6b42e88975fff6b0313a960f7e7093b2329455310fd6eee",
      "artifact:snowluma:motricseven7.snowluma.sha256.f75698eeaa06a3aed6b42e88975fff6b0313a960f7e7093b2329455310fd6eee",
    )
    ∷ []

-- `assertAllowed`
unfoldable pub is_allowed : Command → Bool
is_allowed command =
    option_beq (lookup (image_or "" command.image) releases) (some command.artifact)

-- `force-restart`
unfoldable pub force_restart : Options → Command → Option Container → Task (Unit {0})
force_restart options command none = throw "SnowLuma container not found"
force_restart options command (some existing) = do
  throw_if (not options.can_kill) "Runtime driver does not support force restart"
  call_of (forget Cache.snapshots command.endpoint_id)
  when existing.is_running (
      call_of (
        report Phase.stopping_container 55
          "Force killing owned SnowLuma container (data preserved)")
      >> call_of (kill existing.id))
  call_of (report Phase.starting_container 75 "Starting preserved SnowLuma container")
  call_of (start existing.id)

-- Stop, force-restart, restart or start.
unfoldable pub mutation : Options → String → Command → Option Container → Task (Unit {0})
unfolding force_restart
mutation options name command existing =
    if (command.action == "stop") && is_some existing
    then (call_of (report Phase.stopping_container 70 "Stopping SnowLuma container")
        >> call_of (stop name))
    else if command.action == "force-restart"
    then force_restart options command existing
    else if (command.action == "restart") || (command.action == "update-endpoint-proxy")
    then (call_of (forget Cache.snapshots command.endpoint_id) >> call_of (restart name))
    else when (not (command.action == "stop")) (
        call_of (report Phase.starting_container 70 "Starting SnowLuma container")
        >> call_of (start name))

-- The command is remembered, and a runtime that runs is looked at.
unfoldable pub finish : Command → Task Applied
unfolding remember snapshot_or
finish command = do
  remember command
  if command.action == "stop" then return (stopped_result none) else do
    call_of (report Phase.probing_provider 85 "Waiting for SnowLuma runtime readiness")
    s ← snapshot_or safe_error RuntimeStatus.unknown command
    call_of (report Phase.probing_provider 95 "SnowLuma runtime observation ready")
    return (observed true s)

-- From the desired resources to the end.
unfoldable pub reconcile : Options → String → Command → Option Container → Task Applied
unfolding must_create replace_container mutation finish
reconcile options name command existing = do
  when (must_create command existing) (replace_container options name command existing)
  mutation options name command existing
  finish command

-- `update-endpoint-proxy` while the container does not run, and the rest.
unfoldable pub configure : Options → String → Command → Option Container → Task Applied
unfolding remember reconcile
configure options name command existing =
    if (command.action == "update-endpoint-proxy") && is_halted existing
    then (remember command >> return (stopped_result none))
    else reconcile options name command existing

abbrev message_no_qr : String
message_no_qr =
    "action is not supported for SnowLuma endpoints; complete login through the container remote desktop"

-- The actions but `delete`.
unfoldable pub keep_or_change :
    Options → Numbers → String → Command → Option Container → Task Applied
unfolding read_container_logs update_websockets configure
keep_or_change options numbers name command existing =
    if command.action == "read-container-logs"
    then read_container_logs options "SnowLuma" "snowluma" name command existing
    else if command.action == "refresh-login-qr"
    then throw message_no_qr
    else if command.action == "update-onebot-websockets"
    then update_websockets numbers name command existing
    else configure options name command existing

-- What is done with the container that `begin_apply` found.
unfoldable pub act : Options → Numbers → Command → String × Option Container → Task Applied
unfolding discard keep_or_change
act options numbers command (name, existing) =
    if command.action == "delete"
    then discard options name command existing
    else keep_or_change options numbers name command existing

unfoldable pub begin : Options → Command → Task (String × Option Container)
unfolding begin_apply is_allowed workload_name
begin options command =
    begin_apply "SnowLuma" "snowluma" (is_allowed command)
      (call_of load_commands >> call_of load_desired) (workload_name options command.endpoint_id)
      command

-- `applySerial`
unfoldable pub apply_serial : Options → Numbers → Command → Task Applied
unfolding begin act
apply_serial options numbers command =
    begin options command >>= λ found. act options numbers command found
