-- ===== src/Runtime/Llbot.antt =====
-- LLBotRuntime.applySerial of apps/agent/src/llbot-runtime.ts.
use botroost.Prelude.{
  ◌+◌, String, Bool, true, not, ◌&&◌, ◌||◌, Option, none, some, [], ◌∷◌, ◌==◌, text_test,
  if◌then◌else◌, is_some,
}
use botroost.Programs.{return, throw, ◌>>=◌, ◌>>◌, throw_if, when, given}
use botroost.Runtime.{
  Options, Command, Container, Creation, RuntimeStatus, Phase, Applied, Cache, Task, report, remove,
  load_commands, forget, start, stop, restart, kill, create, ensure_directory,
}
use botroost.Runtime.Common.{
  call_of, container_name, resource_limits, endpoint_path, resource_drift, proxy_drift, runs,
  stopped_result, observed, snapshot_or, safe_error, begin_apply, remember, read_container_logs,
}
use botroost.Runtime.NapcatDriver.{with_proxy}
use botroost.Runtime.Napcat.{image_drift}
use botroost.Runtime.Members.{Numbers}
use botroost.Runtime.LoginPorts.{offset_of}
use botroost.Runtime.LlbotActions.{llbot_image, is_allowed, discard, update_websockets}

-- `existing.image !== LLBOT_IMAGE || resourceDrift || proxyDrift`, or there is no container.
unfoldable pub must_create : Command → Option Container → Bool
unfolding image_drift resource_drift proxy_drift resource_limits
must_create command existing =
    not (command.action == "stop")
    && (image_drift llbot_image existing
        || (resource_drift existing (resource_limits command) || proxy_drift existing command))

-- The argument of `docker.create`.
unfoldable pub creation : Options → String → Command → String → Creation
unfolding resource_limits with_proxy offset_of
creation options name command data_mount = record {
  name = name;
  image = llbot_image;
  labels =
      ("botroost.provider", "llbot")
      ∷ ("botroost.workspace_id", command.workspace_id)
      ∷ ("botroost.endpoint_id", command.endpoint_id)
      ∷ ("botroost.generation", options.print command.generation)
      ∷ [];
  environment =
      with_proxy (("WEBUI_PORT", "3080") ∷ ("TZ", "Asia/Shanghai") ∷ []) command.proxy_environment;
  mounts = (data_mount, "/app/llbot/data") ∷ [];
  network_mode = options.network_mode;
  resources = resource_limits command;
  published_ports = (3080 + offset_of command.endpoint_id, "3080") ∷ [];
  expose_ports = 3000 ∷ [];
  cap_add = [];
  security_opt = [];
  shm_bytes = none;
}

-- `dataMount`
unfoldable pub mount_of : Options → Command → String → Task String
unfolding endpoint_path
mount_of options command child =
    given (options.volume_mount child)
      (if options.is_pod
        then return "/data"
        else endpoint_path options options.host_root command.endpoint_id (child ∷ []))
      (λ path. return path)

unfoldable pub replace_container : Options → String → Command → Option Container → Task (Unit {0})
unfolding mount_of creation
replace_container options name command existing = do
  when (is_some existing) (
      call_of (report Phase.preparing_runtime 35 "Replacing outdated LLBot container")
      >> call_of (remove name none))
  call_of (report Phase.preparing_runtime 40 "Preparing runtime image and storage")
  data_mount ← mount_of options command "data"
  when options.is_local (call_of (ensure_directory name data_mount))
  call_of (report Phase.creating_container 55 "Creating LLBot container")
  call_of (create (creation options name command data_mount))

-- `force-restart`
unfoldable pub force_restart : Options → Command → Option Container → Task (Unit {0})
force_restart options command none = throw "LLBot container not found"
force_restart options command (some existing) = do
  throw_if (not options.can_kill) "Runtime driver does not support force restart"
  call_of (forget Cache.snapshots command.endpoint_id)
  when existing.is_running (
      call_of
        (report Phase.stopping_container 55 "Force killing owned LLBot container (data preserved)")
      >> call_of (kill existing.id))
  call_of (report Phase.starting_container 75 "Starting preserved LLBot container")
  call_of (start existing.id)

-- Stop, force-restart, restart or start.
unfoldable pub mutation : Options → String → Command → Option Container → Task (Unit {0})
unfolding force_restart
mutation options name command existing =
    if (command.action == "stop") && is_some existing
    then (call_of (report Phase.stopping_container 70 "Stopping LLBot container")
        >> call_of (stop name))
    else if command.action == "force-restart"
    then force_restart options command existing
    else if (command.action == "restart") || (command.action == "update-endpoint-proxy")
    then (call_of (forget Cache.snapshots command.endpoint_id) >> call_of (restart name))
    else when (not (command.action == "stop")) (
        call_of (report Phase.starting_container 70 "Starting LLBot container")
        >> call_of (start name))

-- After the container is as wanted: the command is remembered, and a runtime that runs is looked at.
unfoldable pub finish : Command → Task Applied
unfolding remember snapshot_or
finish command = do
  remember command
  if command.action == "stop" then return (stopped_result none) else do
    call_of (report Phase.probing_provider 85 "Waiting for LLBot runtime readiness")
    s ← snapshot_or safe_error RuntimeStatus.unknown command
    call_of (report Phase.probing_provider 95 "LLBot runtime observation ready")
    return (observed true s)

-- From the desired resources to the end.
unfoldable pub reconcile : Options → String → Command → Option Container → Task Applied
unfolding must_create replace_container mutation finish
reconcile options name command existing = do
  when (must_create command existing) (replace_container options name command existing)
  mutation options name command existing
  finish command

-- A container that is there and does not run.
abbrev pub is_halted : Option Container → Bool
is_halted existing = is_some existing && not (runs existing)

-- `update-endpoint-proxy` while the container does not run, and the rest.
unfoldable pub configure : Options → String → Command → Option Container → Task Applied
unfolding remember reconcile
configure options name command existing =
    if (command.action == "update-endpoint-proxy") && is_halted existing
    then (remember command >> return (stopped_result none))
    else reconcile options name command existing

abbrev message_no_qr : String
message_no_qr =
    "action is not supported for LLBot endpoints; complete login through the LLBot WebUI"

-- The actions but `delete`.
unfoldable pub keep_or_change :
    Options → Numbers → String → Command → Option Container → Task Applied
unfolding read_container_logs update_websockets configure
keep_or_change options numbers name command existing =
    if command.action == "read-container-logs"
    then read_container_logs options "LLBot" "llbot" name command existing
    else if command.action == "refresh-login-qr"
    then throw message_no_qr
    else if command.action == "update-onebot-websockets"
    then update_websockets numbers name command existing
    else configure options name command existing

-- What is done with the container that `begin_apply` found.
unfoldable pub act : Options → Numbers → Command → String × Option Container → Task Applied
unfolding discard keep_or_change
act options numbers command (name, existing) =
    if command.action == "delete"
    then discard options name command existing
    else keep_or_change options numbers name command existing

unfoldable pub begin : Options → Command → Task (String × Option Container)
unfolding begin_apply is_allowed container_name
begin options command =
    begin_apply "LLBot" "llbot" (is_allowed command) (call_of load_commands)
      (container_name options command.endpoint_id) command

-- `applySerial`
unfoldable pub apply_serial : Options → Numbers → Command → Task Applied
unfolding begin act
apply_serial options numbers command =
    begin options command >>= λ found. act options numbers command found
