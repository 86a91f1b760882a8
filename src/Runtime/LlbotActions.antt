-- ===== src/Runtime/LlbotActions.antt =====
-- Deletion and the WebSocket update of LLBotRuntime.applySerial, in
-- apps/agent/src/llbot-runtime.ts.
use botroost.Prelude.{
  String, Bool, true, not, ◌&&◌, ◌||◌, Option, some, [], ◌∷◌, ◌==◌, text_test, is_some,
}
use botroost.Programs.{return, throw, ◌>>=◌, ◌>>◌, throw_if, when, given}
use botroost.Runtime.{
  Options, Command, Container, OneBotConfig, RuntimeStatus, Phase, Applied, Cache, Task, report,
  remove, remove_host_endpoint, remove_tree, drop_command, persist_commands, forget, restart,
  find_config, write_config, wait,
}
use botroost.Runtime.Common.{
  call_of, endpoint_path, runs, deleted, observed, snapshot_or, safe_error, remember,
}
use botroost.Runtime.Websockets.{is_bad_list, or_empty}
use botroost.Runtime.NapcatDriver.{image_or, owner_of}
use botroost.Runtime.Members.{Numbers}
use botroost.Runtime.LlbotWebsockets.{map_websockets}

abbrev pub llbot_image : String
llbot_image =
    "linyuchen/llbot@sha256:6f10ce9c8848cc6a1157b4bda878d7485e25602b719448f3907de87f1bd30014"

abbrev llbot_artifact : String
llbot_artifact =
    "artifact:llbot:linyuchen.llbot.sha256.6f10ce9c8848cc6a1157b4bda878d7485e25602b719448f3907de87f1bd30014"

-- `assertAllowed`
unfoldable pub is_allowed : Command → Bool
is_allowed command =
    (image_or "" command.image == llbot_image) && (command.artifact == llbot_artifact)

abbrev message_removing : String
message_removing = "Removing container and persisted runtime data"

-- `delete`
unfoldable pub discard : Options → String → Command → Option Container → Task Applied
unfolding endpoint_path
discard options name command existing = do
  call_of (report Phase.removing_runtime 55 message_removing)
  when (is_some existing) (call_of (remove name (some (owner_of "llbot" command))))
  call_of (report Phase.removing_runtime 62 "Removing persisted host runtime data")
  call_of (
      remove_host_endpoint (options.resolve_path (options.host_root ∷ [])) command.endpoint_id
        llbot_image)
  call_of (report Phase.removing_runtime 70 "Removing agent runtime state")
  path ← endpoint_path options options.state_root command.endpoint_id []
  call_of (remove_tree path)
  call_of (report Phase.removing_runtime 78 "Finalizing agent runtime deletion")
  call_of (drop_command command.endpoint_id)
  call_of persist_commands
  call_of (forget Cache.snapshots command.endpoint_id)
  call_of (report Phase.removing_runtime 95 "Runtime deletion complete")
  return deleted

abbrev message_no_config : String
message_no_config =
    "LLBot OneBot configuration appears after QQ login; complete the login in the WebUI first"

-- `update-onebot-websockets`, of a configuration that was found, with `writeOneBotWebsockets`.
unfoldable pub change_websockets : Numbers → String → Command → OneBotConfig → Task Applied
unfolding remember snapshot_or map_websockets
change_websockets numbers name command found = do
  remember command
  call_of (report Phase.applying_configuration 70 "Writing OneBot WebSocket configuration")
  merged ←
      map_websockets numbers found.config (or_empty command.websocket_clients)
        (or_empty command.websocket_servers)
  call_of (write_config command.endpoint_id found.path merged)
  call_of (report Phase.applying_configuration 80 "Reloading the LLBot runtime")
  call_of (restart name)
  call_of (forget Cache.snapshots command.endpoint_id)
  call_of (report Phase.probing_provider 90 "Verifying OneBot configuration")
  call_of wait
  s ← snapshot_or safe_error RuntimeStatus.ready command
  call_of (report Phase.probing_provider 95 "OneBot configuration verified")
  return (observed true s)

-- `update-onebot-websockets`
unfoldable pub update_websockets : Numbers → String → Command → Option Container → Task Applied
unfolding change_websockets
update_websockets numbers name command existing = do
  call_of (report Phase.applying_configuration 60 "Applying OneBot WebSocket configuration")
  throw_if (not (runs existing)) "LLBot container is not running"
  throw_if (is_bad_list command.websocket_clients || is_bad_list command.websocket_servers)
      "OneBot websocket configuration is invalid"
  found ← call_of (find_config command.endpoint_id)
  given found (throw message_no_config) (change_websockets numbers name command)
