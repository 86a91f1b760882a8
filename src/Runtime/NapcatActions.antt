-- ===== src/Runtime/NapcatActions.antt =====
-- The actions of NapCatRuntime.applySerial, in apps/agent/src/index.ts, without a driver.
use Prim.Native.String.{◌++◌ as join_text}
use text.Mathlib.Text.{starts_with}
use botroost.Prelude.{
  ℕ, zero, suc, String, Bool, true, false, not, ◌&&◌, ◌||◌, Option, none, some, List, [], ◌∷◌, ◌==◌,
  text_test, number_test, if◌then◌else◌, is_some,
}
use botroost.Json.{Json, Fields, field, str, arr, obj, end}
use botroost.Programs.{
  Answer, gave, raised, call, return, throw, ◌>>=◌, ◌>>◌, throw_if, when, given,
}
use botroost.Runtime.{
  Options, Command, Container, RuntimeStatus, ProviderStatus, ProtocolStatus, Convergence, Phase,
  Applied, Cache, Task, report, remove, remove_host_endpoint, remove_tree, drop_command,
  persist_commands, forget, kill, start, inspect, web_credential, web_request, snapshot, wait,
}
use botroost.Runtime.Common.{
  call_of, owns_container, is_ours, endpoint_path, deleted, observed, forget_all,
}
use botroost.Runtime.Websockets.{
  member, with_member, as_object, items_of, preserve_tokens, is_bad_list, or_empty,
}
use botroost.Runtime.NapcatDriver.{napcat_image, image_or}

-- What is forgotten of a deleted endpoint.
abbrev discarded_caches : List Cache
discarded_caches =
    Cache.snapshots ∷ Cache.directories ∷ Cache.web_credentials ∷ Cache.accumulators ∷ Cache.traffic
    ∷ Cache.traffic_success ∷ []

abbrev message_removing : String
message_removing = "Removing container and persisted runtime data"

-- `delete`
unfoldable pub discard : Options → String → Command → Option Container → Task Applied
unfolding endpoint_path forget_all is_ours
discard options name command existing = do
  call_of (report Phase.removing_runtime 55 message_removing)
  throw_if (not (is_ours "napcat" existing command)) "NapCat container ownership check failed"
  when (is_some existing) (
      call_of (report Phase.removing_runtime 55 "Removing NapCat container")
      >> call_of (remove name none))
  call_of (report Phase.removing_runtime 62 "Removing persisted host runtime data")
  call_of (
      remove_host_endpoint (options.resolve_path (options.host_root ∷ [])) command.endpoint_id
        (image_or napcat_image command.image))
  call_of (report Phase.removing_runtime 70 "Removing agent runtime state")
  path ← endpoint_path options options.state_root command.endpoint_id []
  call_of (remove_tree path)
  call_of (report Phase.removing_runtime 78 "Finalizing agent runtime deletion")
  call_of (drop_command command.endpoint_id)
  forget_all discarded_caches command.endpoint_id
  call_of persist_commands
  call_of (report Phase.removing_runtime 95 "Runtime deletion complete")
  return deleted

abbrev restarted_result : Applied
restarted_result = record {
  is_running = true;
  observations = some (record {
    runtime = RuntimeStatus.ready;
    provider = ProviderStatus.unknown;
    protocol = ProtocolStatus.unknown;
    convergence = Convergence.reconciling;
  });
  metadata = some (field "forceRestart" (Json.bool true) end);
}

-- `restarted && restarted.id === existing.id && ownsContainer(restarted) && it is running`
unfoldable pub is_restarted : Container → Command → Option Container → Bool
unfolding owns_container
is_restarted existing command none = false
is_restarted existing command (some restarted) =
    (restarted.id == existing.id)
    && (owns_container "napcat" restarted command && restarted.is_running)

-- `force-restart`
unfoldable pub force_restart : Options → Command → Option Container → Task Applied
unfolding is_restarted forget_all
force_restart options command none = throw "NapCat container not found"
force_restart options command (some existing) = do
  throw_if (not options.can_kill) "Runtime driver does not support force restart"
  forget_all (Cache.snapshots ∷ Cache.directories ∷ Cache.web_credentials ∷ []) command.endpoint_id
  when existing.is_running (
      call_of
        (report Phase.stopping_container 55 "Force killing owned NapCat container (data preserved)")
      >> call_of (kill existing.id))
  call_of (report Phase.starting_container 75 "Starting preserved NapCat container")
  call_of (start existing.id)
  call_of (report Phase.inspecting_runtime 90 "Verifying restarted container")
  restarted ← call_of (inspect existing.id)
  throw_if (not (is_restarted existing command restarted))
      "NapCat force restart did not reach running state"
  return restarted_result

-- The address of a container that runs and is the endpoint's.
unfoldable pub address_of : Command → Option Container → Option String
unfolding owns_container
address_of command none = none
address_of command (some existing) =
    if existing.is_running && owns_container "napcat" existing command
    then existing.ip_address
    else none

-- `merged`: the configuration with the lists, whose entries keep the tokens they had.
unfoldable pub merge_websockets : Command → Json → Task Fields
unfolding member with_member as_object preserve_tokens
merge_websockets command current =
    let config = as_object (member "data" (as_object (some current))) in
    let network = as_object (member "network" config) in
    do
      clients ←
          preserve_tokens (or_empty command.websocket_clients) (member "websocketClients" network)
      servers ←
          preserve_tokens (or_empty command.websocket_servers) (member "websocketServers" network)
      return (
          with_member "network"
            (obj (
              with_member "websocketServers" (arr (items_of servers))
                (with_member "websocketClients" (arr (items_of clients)) network)))
            config)

-- `update-onebot-websockets`
unfoldable pub write_websockets : Options → Command → String → Task Applied
unfolding merge_websockets
write_websockets options command address = do
  throw_if (address == "") "NapCat container ownership check failed"
  throw_if (is_bad_list command.websocket_clients || is_bad_list command.websocket_servers)
      "OneBot websocket configuration is invalid"
  call_of (report Phase.applying_configuration 62 "Authenticating with NapCat")
  credential ← call_of (web_credential command.endpoint_id address)
  call_of (report Phase.applying_configuration 65 "Reading current OneBot configuration")
  current ← call_of (web_request address "/api/OB11Config/GetConfig" credential end)
  merged ← merge_websockets command current
  call_of (report Phase.applying_configuration 70 "Refreshing NapCat configuration credentials")
  write_credential ← call_of (web_credential command.endpoint_id address)
  call_of (report Phase.applying_configuration 72 "Writing OneBot WebSocket configuration")
  call_of (
      web_request address "/api/OB11Config/SetConfig" write_credential
        (field "config" (str (options.print_fields merged)) end))
  call_of (forget Cache.snapshots command.endpoint_id)
  call_of (report Phase.probing_provider 85 "Verifying OneBot configuration")
  s ← call_of (snapshot command)
  call_of (report Phase.probing_provider 95 "OneBot configuration verified")
  return (observed true s)

unfoldable pub update_websockets : Options → Command → Option Container → Task Applied
unfolding address_of write_websockets
update_websockets options command existing = do
  call_of (report Phase.applying_configuration 60 "Applying OneBot WebSocket configuration")
  given (address_of command existing) (throw "NapCat container ownership check failed")
      (write_websockets options command)

-- `message.includes(text)`
unfoldable pub includes : String → String → Bool
includes String.[] text = starts_with String.[] text
includes (String.◌∷◌ c s) text = starts_with (String.◌∷◌ c s) text || includes s text

abbrev or_message : Option String → String
or_message none = "QR unavailable"
or_message (some e) = e

-- The body of the loop of `waitForQr`: the answer of an attempt, with how many are left and what is
-- done in them.
unfoldable pub attempted : ℕ → (String → Task Json) → Answer Json → Task Json
unfolding includes
attempted attempts rest (gave answer) = return answer
attempted attempts rest (raised e) =
    if not (includes e "QRCode Get Error")
    then throw e
    else (when (not (attempts == 0)) (call_of wait) >> rest e)

-- `waitForQr`, with the attempts that are left and the last exception.
unfoldable pub wait_for_qr : String → String → ℕ → Option String → Task Json
unfolding attempted
wait_for_qr address credential zero last =
    throw (join_text "NapCat login kernel not ready: " (or_message last))
wait_for_qr address credential (suc attempts) last =
    call (web_request address "/api/QQLogin/GetQQLoginQrcode" credential end)
      (attempted attempts (λ e. wait_for_qr address credential attempts (some e)))

-- The refresh, at the address of the container.
unfoldable pub refresh_at : Options → Command → String → Task (Unit {0})
unfolding wait_for_qr
refresh_at options command address = do
  throw_if (address == "") "NapCat container is not available for QR refresh"
  call_of (report Phase.applying_configuration 60 "Authenticating for QR refresh")
  credential ← call_of (web_credential command.endpoint_id address)
  call_of (report Phase.applying_configuration 70 "Refreshing NapCat login QR")
  call_of (web_request address "/api/QQLogin/RefreshQRcode" credential end)
  wait_for_qr address credential options.qr_attempts none
  call_of (forget Cache.snapshots command.endpoint_id)

-- `refresh-login-qr`, of the container that is there by then.
unfoldable pub refresh_qr : Options → Command → Option Container → Task (Unit {0})
unfolding is_ours address_of refresh_at
refresh_qr options command existing = do
  throw_if (not (is_ours "napcat" existing command))
      "NapCat container is not owned by this endpoint"
  given (address_of command existing) (throw "NapCat container is not available for QR refresh")
      (refresh_at options command)
