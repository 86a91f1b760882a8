-- ===== src/Runtime/NapcatDriver.antt =====
-- The part of NapCatRuntime.applySerial, in apps/agent/src/index.ts, that a runtime driver does.
use botroost.Prelude.{
  String, Bool, not, ◌&&◌, ◌||◌, Option, none, some, List, [], ◌∷◌, ◌==◌, text_test, if◌then◌else◌,
  option_beq, is_some, any, Assoc, insert,
}
use botroost.Programs.{return, ◌>>=◌, ◌>>◌, throw_if, when}
use botroost.Runtime.{
  Options, Command, Container, Spec, Owner, Phase, Applied, Cache, Task, throw_if_aborted,
  driver_delete, driver_delete_data, driver_ensure, driver_start, driver_stop, driver_restart,
  driver_force_restart, drop_command, persist_commands, report, snapshot, forget,
}
use botroost.Runtime.Common.{call_of, resource_limits, remember, deleted, observed, forget_all}

abbrev pub napcat_image : String
napcat_image =
    "mlikiowa/napcat-docker@sha256:1336a777f9a4f1f8cb89fef42f7548deacd3645919a067a50df5b66b5e77390e"

abbrev pub napcat_artifact : String
napcat_artifact =
    "artifact:napcat:mlikiowa.napcat-docker.sha256.1336a777f9a4f1f8cb89fef42f7548deacd3645919a067a50df5b66b5e77390e"

-- `typeof image === "string" ? image : NAPCAT_IMAGE`
abbrev pub image_or : String → Option String → String
image_or other none = other
image_or other (some image) = image

-- `{ ...base, ...(proxyEnvironment ?? {}) }`
unfoldable pub with_proxy : Assoc String String → Option (Assoc String String) → Assoc String String
with_proxy base none = base
with_proxy base (some []) = base
with_proxy base (some ((k, v) ∷ rest)) = with_proxy (insert k v base) (some rest)

-- `desiredState.state === "stopped"`
abbrev pub is_stopped : Command → Bool
is_stopped command = option_beq command.desired_state (some "stopped")

-- The `spec`.
unfoldable pub driver_spec : Options → String → Command → Spec
unfolding resource_limits with_proxy
driver_spec options name command = record {
  name = name;
  image = image_or napcat_image command.image;
  labels =
      ("botroost.provider", "napcat")
      ∷ ("botroost.workspace_id", command.workspace_id)
      ∷ ("botroost.endpoint_id", command.endpoint_id)
      ∷ ("botroost.node_id", command.node_id)
      ∷ [];
  environment =
      with_proxy (("NAPCAT_WEBUI_SECRET_KEY", options.napcat_token) ∷ []) command.proxy_environment;
  volumes = ("qq", "/app/.config/QQ") ∷ ("config", "/app/napcat/config") ∷ [];
  resources = resource_limits command;
}

abbrev pub owner_of : String → Command → Owner
owner_of provider command = record {
  endpoint_id = command.endpoint_id;
  workspace_id = command.workspace_id;
  provider = provider;
}

-- What is forgotten of a deleted endpoint.
abbrev deleted_caches : List Cache
deleted_caches =
    Cache.snapshots ∷ Cache.web_credentials ∷ Cache.directories ∷ Cache.accumulators ∷ Cache.traffic
    ∷ Cache.traffic_success ∷ []

-- `delete`
unfoldable pub driver_discard : Options → String → Command → Task Applied
unfolding forget_all
driver_discard options name command = do
  call_of throw_if_aborted
  call_of (driver_delete name)
  call_of throw_if_aborted
  throw_if (not options.can_delete_data) "Runtime driver cannot discard endpoint data"
  call_of (driver_delete_data name (owner_of "napcat" command))
  call_of (drop_command command.endpoint_id)
  call_of persist_commands
  forget_all deleted_caches command.endpoint_id
  return deleted

-- `lifecycle`
abbrev pub lifecycle_actions : List String
lifecycle_actions = "start" ∷ "stop" ∷ "restart" ∷ "force-restart" ∷ "update-endpoint-proxy" ∷ []

unfoldable pub is_lifecycle : String → Bool
is_lifecycle action = any (λ a. action == a) lifecycle_actions

-- What is done to the container, as the `if` chain of the lifecycle actions says.
unfoldable pub driver_mutation :
    String → String → Command → Option Container → Bool → Task (Unit {0})
driver_mutation effect_id name command existing is_stop =
    if is_stop
    then when (is_some existing || not (command.action == "stop")) (call_of (driver_stop name))
    else if command.action == "force-restart"
    then call_of (driver_force_restart name effect_id)
    else if (command.action == "restart") || (command.action == "update-endpoint-proxy")
    then call_of (driver_restart name effect_id)
    else call_of (driver_start name)

-- A lifecycle action.
unfoldable pub driver_lifecycle :
    Options → String → String → Command → Option Container → Task Applied
unfolding remember driver_spec driver_mutation
driver_lifecycle options effect_id name command existing =
    let is_stop =
      (command.action == "stop")
      || ((command.action == "update-endpoint-proxy") && is_stopped command) in
    do
      remember command
      call_of (forget Cache.snapshots command.endpoint_id)
      call_of (report Phase.preparing_runtime 45 "Reconciling runtime")
      when (not (command.action == "stop"))
          (call_of (driver_ensure (driver_spec options name command)))
      driver_mutation effect_id name command existing is_stop
      remember command
      call_of (forget Cache.snapshots command.endpoint_id)
      call_of (forget Cache.web_credentials command.endpoint_id)
      s ← call_of (snapshot command)
      return (observed (not is_stop) s)
