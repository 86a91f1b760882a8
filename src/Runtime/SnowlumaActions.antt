-- ===== src/Runtime/SnowlumaActions.antt =====
-- Deletion and the WebSocket update of SnowLumaRuntime.applySerial, in
-- apps/agent/src/snowluma-runtime.ts.
use botroost.Prelude.{
  String, Bool, true, false, not, ◌&&◌, ◌||◌, Option, none, some, [], ◌∷◌, ◌==◌, text_test,
  if◌then◌else◌, is_some,
}
use botroost.Json.{Fields}
use botroost.Programs.{return, throw, ◌>>=◌, ◌>>◌, throw_if, when, given, catch}
use botroost.Runtime.{
  Options, Command, Container, OneBotConfig, Desired, RuntimeStatus, Phase, Applied, Cache, Task,
  report, remove, remove_host_endpoint, remove_tree, drop_command, persist_commands,
  persist_desired, drop_desired, set_desired, forget, exec, find_config, write_config,
  webui_password, webui_apply, wait,
}
use botroost.Runtime.Common.{
  call_of, endpoint_path, deleted, observed, snapshot_or, safe_error, remember,
}
use botroost.Runtime.Websockets.{member, as_object, is_bad_list, or_empty}
use botroost.Runtime.Members.{Numbers, as_list}
use botroost.Runtime.NapcatDriver.{owner_of}
use botroost.Runtime.SnowlumaCreate.{snowluma_image}
use botroost.Runtime.SnowlumaWebsockets.{map_websockets}

abbrev message_removing : String
message_removing = "Removing container and persisted runtime data"

-- `delete`
unfoldable pub discard : Options → String → Command → Option Container → Task Applied
unfolding endpoint_path
discard options name command existing = do
  was_desired ← call_of (drop_desired command.endpoint_id)
  when was_desired (call_of persist_desired)
  call_of (report Phase.removing_runtime 55 message_removing)
  when (is_some existing) (call_of (remove name (some (owner_of "snowluma" command))))
  call_of (report Phase.removing_runtime 62 "Removing persisted host runtime data")
  call_of (
      remove_host_endpoint (options.resolve_path (options.host_root ∷ [])) command.endpoint_id
        snowluma_image)
  call_of (report Phase.removing_runtime 70 "Removing agent runtime state")
  path ← endpoint_path options options.state_root command.endpoint_id []
  call_of (remove_tree path)
  call_of (report Phase.removing_runtime 78 "Finalizing agent runtime deletion")
  call_of (drop_command command.endpoint_id)
  call_of persist_commands
  call_of (forget Cache.snapshots command.endpoint_id)
  call_of (forget Cache.unreachable command.endpoint_id)
  call_of (report Phase.removing_runtime 95 "Runtime deletion complete")
  return deleted

-- The value that `oneBotDesired` has of a configuration.
unfoldable pub desired_of : Fields → Desired
unfolding member as_object as_list
desired_of config = record {
  ws_clients = as_list (member "wsClients" (as_object (member "networks" config)));
  ws_servers = as_list (member "wsServers" (as_object (member "networks" config)));
}

-- `this.oneBotDesired.set(...); await this.persistOneBotDesired();`
unfoldable pub remember_desired : String → Fields → Task (Unit {0})
unfolding desired_of
remember_desired endpoint_id config =
    call_of (set_desired endpoint_id (desired_of config)) >> call_of persist_desired

abbrev is_present : Option String → Bool
is_present none = false
is_present (some s) = not (s == "")

abbrev or_blank : Option String → String
or_blank none = ""
or_blank (some s) = s

-- The change through the WebUI: `appliedVia === "webui"`. Whatever fails in it is ignored.
unfoldable pub try_webui : Command → Container → OneBotConfig → Option String → Task Bool
try_webui command existing found password =
    if is_present password && is_present existing.ip_address
    then catch
        (call_of (
            report Phase.applying_configuration 70
              "Applying the configuration through the SnowLuma WebUI API")
          >> (call_of (
                webui_apply command.endpoint_id (or_blank existing.ip_address) found.qq
                  (or_blank password))
              >> return true))
        (λ e. return false)
    else return false

-- The change through the file, and the reload of the service.
unfoldable pub write_file_config : String → Command → OneBotConfig → Fields → Task (Unit {0})
write_file_config name command found merged = do
  call_of (report Phase.applying_configuration 70 "Writing OneBot WebSocket configuration")
  call_of (write_config command.endpoint_id found.path merged)
  call_of (report Phase.applying_configuration 80 "Reloading the SnowLuma OneBot service")
  call_of (exec name ("supervisorctl" ∷ "restart" ∷ "snowluma" ∷ []))

-- What is running now is what is desired; where it cannot be read, the desired stays.
unfoldable pub adopt_applied : String → Task (Unit {0})
unfolding remember_desired
adopt_applied endpoint_id = do
  applied ← catch (call_of (find_config endpoint_id)) (λ e. return none)
  given applied (return tt) (λ found. remember_desired endpoint_id found.config)

-- `update-onebot-websockets`, of a configuration that was found.
unfoldable pub change_websockets :
    Numbers → String → Command → Container → OneBotConfig → Task Applied
unfolding remember map_websockets remember_desired try_webui write_file_config adopt_applied
    snapshot_or
change_websockets numbers name command existing found = do
  remember command
  merged ←
      map_websockets numbers found.config (or_empty command.websocket_clients)
        (or_empty command.websocket_servers)
  remember_desired command.endpoint_id merged
  password ← call_of (webui_password command.endpoint_id)
  is_applied ← try_webui command existing found password
  when (not is_applied) (write_file_config name command found merged)
  adopt_applied command.endpoint_id
  call_of (forget Cache.snapshots command.endpoint_id)
  call_of (report Phase.probing_provider 90 "Verifying OneBot configuration")
  call_of wait
  s ← snapshot_or safe_error RuntimeStatus.ready command
  call_of (report Phase.probing_provider 95 "OneBot configuration verified")
  return (observed true s)

abbrev pub message_no_config : String
message_no_config = "SnowLuma OneBot configuration appears after QQ login; scan the login QR first"

abbrev message_applying : String
message_applying = "Applying OneBot WebSocket configuration"

-- `update-onebot-websockets`
unfoldable pub update_websockets : Numbers → String → Command → Option Container → Task Applied
unfolding change_websockets
update_websockets numbers name command none = do
  call_of (report Phase.applying_configuration 60 message_applying)
  throw "SnowLuma container is not running"
update_websockets numbers name command (some existing) = do
  call_of (report Phase.applying_configuration 60 message_applying)
  throw_if (not existing.is_running) "SnowLuma container is not running"
  throw_if (is_bad_list command.websocket_clients || is_bad_list command.websocket_servers)
      "OneBot websocket configuration is invalid"
  found ← call_of (find_config command.endpoint_id)
  given found (throw message_no_config)
      (λ config. change_websockets numbers name command existing config)
