-- ===== src/Runtime/Napcat.antt =====
-- NapCatRuntime.applySerial of apps/agent/src/index.ts.
use botroost.Prelude.{
  String, Bool, true, false, not, ◌&&◌, ◌||◌, Option, none, some, [], ◌∷◌, ◌==◌, text_test,
  if◌then◌else◌, is_some, option_beq,
}
use botroost.Json.{Json, field, end}
use botroost.Programs.{return, ◌>>=◌, ◌>>◌, throw_if, when}
use botroost.Runtime.{
  Options, Command, Container, Creation, RuntimeStatus, Phase, Applied, Cache, Task, report, remove,
  load_commands, forget, start, stop, restart, inspect, make_directory, create,
}
use botroost.Runtime.Common.{
  call_of, container_name, resource_limits, endpoint_path, resource_drift, proxy_drift, http_proxy,
  stopped_result, observed, snapshot_or, begin_apply, remember, read_container_logs, is_ours,
}
use botroost.Runtime.NapcatDriver.{
  napcat_image, napcat_artifact, image_or, with_proxy, is_stopped, is_lifecycle, driver_discard,
  driver_lifecycle,
}
use botroost.Runtime.NapcatActions.{discard, force_restart, update_websockets, refresh_qr}

-- `assertAllowed`
unfoldable pub is_allowed : Command → Bool
is_allowed command =
    (image_or napcat_image command.image == napcat_image) && (command.artifact == napcat_artifact)

-- `existing && existing.proxyEnvironment && ...` of a stopped endpoint.
unfoldable pub is_stale_proxy : Command → Option Container → Bool
is_stale_proxy command none = false
is_stale_proxy command (some existing) = elim existing.proxy_environment [
  | none ↦ false
  | some environment ↦
      not (option_beq (http_proxy command.proxy_environment) (http_proxy (some environment)))
]

-- `update-endpoint-proxy` of a stopped endpoint.
unfoldable pub update_stopped_proxy : String → Command → Option Container → Task Applied
unfolding is_stale_proxy
update_stopped_proxy name command existing = do
  call_of (report Phase.stopping_container 60 "Applying proxy configuration to a stopped endpoint")
  when (is_stale_proxy command existing) (call_of (remove name none))
  return (stopped_result (some (field "proxyUpdated" (Json.bool true) end)))

-- `existing && existing.image !== desiredImage`
unfoldable pub image_drift : String → Option Container → Bool
image_drift image none = true
image_drift image (some existing) = not (existing.image == image)

-- The test for a container that has to be made.
unfoldable pub must_create : Options → Command → Option Container → Bool
unfolding image_drift resource_drift proxy_drift resource_limits
must_create options command existing =
    not options.has_driver
    && (not (command.action == "stop")
        && (image_drift (image_or napcat_image command.image) existing
            || (resource_drift existing (resource_limits command) || proxy_drift existing command)))

-- The argument of `docker.create`.
unfoldable pub creation : Options → String → Command → String → String → Creation
unfolding resource_limits with_proxy
creation options name command host_qq host_config = record {
  name = name;
  image = napcat_image;
  labels =
      ("botroost.provider", "napcat")
      ∷ ("botroost.workspace_id", command.workspace_id)
      ∷ ("botroost.endpoint_id", command.endpoint_id)
      ∷ ("botroost.generation", options.print command.generation)
      ∷ [];
  environment =
      with_proxy (("NAPCAT_WEBUI_SECRET_KEY", options.napcat_token) ∷ []) command.proxy_environment;
  mounts = (host_qq, "/app/.config/QQ") ∷ (host_config, "/app/napcat/config") ∷ [];
  network_mode = options.network_mode;
  resources = resource_limits command;
  published_ports = [];
  expose_ports = [];
  cap_add = [];
  security_opt = [];
  shm_bytes = none;
}

-- The container is made, in place of one that is out of date.
unfoldable pub replace_container : Options → String → Command → Option Container → Task (Unit {0})
unfolding endpoint_path creation
replace_container options name command existing = do
  when (is_some existing) (
      call_of (report Phase.preparing_runtime 35 "Replacing outdated NapCat container")
      >> call_of (remove name none))
  call_of (report Phase.preparing_runtime 40 "Preparing runtime image and storage")
  qq ← endpoint_path options options.state_root command.endpoint_id ("qq" ∷ [])
  config ← endpoint_path options options.state_root command.endpoint_id ("config" ∷ [])
  host_qq ← endpoint_path options options.host_root command.endpoint_id ("qq" ∷ [])
  host_config ← endpoint_path options options.host_root command.endpoint_id ("config" ∷ [])
  call_of (make_directory qq)
  call_of (report Phase.preparing_runtime 45 "Preparing NapCat configuration storage")
  call_of (make_directory config)
  call_of (report Phase.creating_container 55 "Creating NapCat container")
  call_of (create (creation options name command host_qq host_config))

-- Stop, restart or start, as the `if` chain after the creation says.
unfoldable pub mutation : String → Command → Option Container → Bool → Task (Unit {0})
mutation name command existing created =
    if (command.action == "stop") && is_some existing
    then (call_of (report Phase.stopping_container 70 "Stopping NapCat container")
        >> call_of (stop name))
    else if command.action == "restart"
    then (call_of (report Phase.starting_container 70 "Restarting NapCat container")
        >> (call_of (forget Cache.web_credentials command.endpoint_id) >> call_of (restart name)))
    else when (not (command.action == "stop") && created) (
        call_of (report Phase.starting_container 70 "Starting NapCat container")
        >> call_of (start name))

-- From the desired resources to the end.
unfoldable pub reconcile : Options → String → Command → Option Container → Task Applied
unfolding must_create replace_container mutation refresh_qr snapshot_or
reconcile options name command existing =
    let created = must_create options command existing in
    do
      when created (replace_container options name command existing)
      mutation name command existing created
      when (command.action == "refresh-login-qr") (
          if created
          then (call_of (inspect name) >>= λ current. refresh_qr options command current)
          else refresh_qr options command existing)
      call_of (report Phase.probing_provider 85 "Waiting for NapCat runtime readiness")
      s ← snapshot_or (λ e. e) RuntimeStatus.unknown command
      call_of (report Phase.probing_provider 95 "NapCat runtime observation ready")
      return (observed (not (command.action == "stop")) s)

-- The actions that are about the container itself.
unfoldable pub configure : Options → String → Command → Option Container → Task Applied
unfolding is_ours update_stopped_proxy reconcile
configure options name command existing = do
  throw_if (not (is_ours "napcat" existing command))
      "NapCat container is not owned by this endpoint"
  if (command.action == "update-endpoint-proxy") && is_stopped command
      then update_stopped_proxy name command existing
      else reconcile options name command existing

-- The actions that the driver leaves over, or all without one.
unfoldable pub without_driver : Options → String → Command → Option Container → Task Applied
unfolding remember force_restart read_container_logs update_websockets configure
without_driver options name command existing = do
  call_of (report Phase.inspecting_runtime 25 "Persisting authorized runtime command")
  remember command
  if command.action == "force-restart"
      then force_restart options command existing
      else if command.action == "read-container-logs"
      then read_container_logs options "NapCat" "napcat" name command existing
      else if command.action == "update-onebot-websockets"
      then update_websockets options command existing
      else configure options name command existing

-- What is done with the container that `begin_apply` found.
unfoldable pub act : Options → String → Command → String × Option Container → Task Applied
unfolding driver_discard driver_lifecycle is_lifecycle discard without_driver
act options effect_id command (name, existing) =
    if options.has_driver && (command.action == "delete")
    then driver_discard options name command
    else if options.has_driver && is_lifecycle command.action
    then driver_lifecycle options effect_id name command existing
    else if command.action == "delete"
    then discard options name command existing
    else without_driver options name command existing

unfoldable pub begin : Options → Command → Task (String × Option Container)
unfolding begin_apply is_allowed container_name
begin options command =
    begin_apply "NapCat" "napcat" (is_allowed command) (call_of load_commands)
      (container_name options command.endpoint_id) command

-- `applySerial`
unfoldable pub apply_serial : Options → String → Command → Task Applied
unfolding begin act
apply_serial options effect_id command =
    begin options command >>= λ found. act options effect_id command found
