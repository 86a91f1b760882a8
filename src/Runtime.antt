-- ===== src/Runtime.antt =====
-- What the three container runtimes of the agent share: NapCatRuntime of apps/agent/src/index.ts,
-- LLBotRuntime of apps/agent/src/llbot-runtime.ts and SnowLumaRuntime of
-- apps/agent/src/snowluma-runtime.ts. A method is a program of calls: of Docker or the driver that
-- stands in for it, of files, of the provider's HTTP interface, of the reporter of progress, and of
-- the runtime's own maps. Regular expressions that redact logs, and what `snapshot` reads, are not
-- modelled: the first is a parameter, the second answers as calls do.
pub mod EndpointId
pub mod Common
pub mod Websockets
pub mod NapcatDriver
pub mod NapcatActions
pub mod Napcat
pub mod Members
pub mod LlbotWebsockets
pub mod SnowlumaWebsockets
pub mod LoginPorts
pub mod LlbotActions
pub mod Llbot
pub mod SnowlumaCreate
pub mod SnowlumaActions
pub mod Snowluma
pub mod Guard
pub mod Ownership
pub mod Discards
pub mod WriteAhead
mod Tests
use botroost.Prelude.{ℕ, ◌+◌, String, Bool, true, false, Option, none, some, List, Assoc}
use botroost.Json.{Json, Fields}
use botroost.Programs.{Program}

pub record Resources : Type 0 where
  pub cpu_millis : ℕ
  pub memory_mib : ℕ
  pub memory_swap_mib : ℕ

-- A `RuntimeCommand`, as far as the runtimes read it. The fields from `image` on come from its
-- metadata: none where the value is missing or of another type. `proxy_environment` is what
-- `applyProxyEnvironment` gives for the stored configuration.
pub record Command : Type 0 where
  pub endpoint_id : String
  pub workspace_id : String
  pub node_id : String
  pub generation : ℕ
  pub action : String
  pub artifact : String
  pub cpu_millis : ℕ
  pub memory_mib : ℕ
  pub image : Option String
  pub desired_state : Option String
  pub proxy_environment : Option (Assoc String String)
  pub log_tail : Option ℕ
  pub log_since : Option ℕ
  pub websocket_clients : Option (List Json)
  pub websocket_servers : Option (List Json)

-- `DockerInspectResult`; `is_running` is `state === "running"`.
pub record Container : Type 0 where
  pub id : String
  pub image : String
  pub is_running : Bool
  pub ip_address : Option String
  pub labels : Assoc String String
  pub mount_targets : Option (List String)
  pub resources : Option Resources
  pub proxy_environment : Option (Assoc String String)

-- `DockerCreateInput`
pub record Creation : Type 0 where
  pub name : String
  pub image : String
  pub labels : Assoc String String
  pub environment : Assoc String String
  pub mounts : List (String × String)
  pub network_mode : String
  pub resources : Resources
  pub published_ports : List (ℕ × String)
  pub expose_ports : List ℕ
  pub cap_add : List String
  pub security_opt : List String
  pub shm_bytes : Option ℕ

-- `RuntimeSpec`
pub record Spec : Type 0 where
  pub name : String
  pub image : String
  pub labels : Assoc String String
  pub environment : Assoc String String
  pub volumes : List (String × String)
  pub resources : Resources

pub data Phase : Type 0 where
  inspecting_runtime preparing_runtime creating_container starting_container : Phase
  stopping_container removing_runtime applying_configuration probing_provider : Phase

pub data RuntimeStatus : Type 0 where
  ready stopped failed unknown : RuntimeStatus

pub data ProviderStatus : Type 0 where
  available unavailable unknown degraded : ProviderStatus

pub data ProtocolStatus : Type 0 where
  connected disconnected connecting unknown : ProtocolStatus

pub data Convergence : Type 0 where
  converged failed reconciling unknown conflicted : Convergence

-- The observations of a result; the node is online in all of them.
pub record Observations : Type 0 where
  pub runtime : RuntimeStatus
  pub provider : ProviderStatus
  pub protocol : ProtocolStatus
  pub convergence : Convergence

pub record Snapshot : Type 0 where
  pub observations : Observations
  pub metadata : Fields

-- What `apply` resolves to.
pub record Applied : Type 0 where
  pub is_running : Bool
  pub observations : Option Observations
  pub metadata : Option Fields

-- The maps of a runtime that hold something for an endpoint.
pub data Cache : Type 0 where
  snapshots directories web_credentials accumulators traffic traffic_success unreachable : Cache

-- `{ path, qq, config }` of `findOneBotConfig`.
pub record OneBotConfig : Type 0 where
  pub path : String
  pub qq : String
  pub config : Fields

-- The value of `oneBotDesired`, without its time.
pub record Desired : Type 0 where
  pub ws_clients : List Fields
  pub ws_servers : List Fields

-- What a runtime is constructed with, of all three. `resolve_path` is `resolve` and `separator` is
-- `sep` of node:path; `host_root` is `hostStateDirectory ?? stateDirectory` and `state_root` is
-- `stateDirectory`. The tests say if the optional methods of Docker or the driver are there.
-- `volume_mount` is `containerMounts`, `print` is `String`, `print_fields` is `JSON.stringify` and
-- `redact` is `redactLogs`.
pub record Options : Type 0 where
  pub container_prefix : String
  pub network_mode : String
  pub napcat_token : String
  pub state_root : String
  pub host_root : String
  pub separator : String
  pub resolve_path : List String → String
  pub has_driver : Bool
  pub can_kill : Bool
  pub can_delete_data : Bool
  pub can_pull : Bool
  pub is_local : Bool
  pub is_pod : Bool
  pub is_kubernetes : Bool
  pub volume_mount : String → Option String
  pub qr_attempts : ℕ
  pub print : ℕ → String
  pub print_fields : Fields → String
  pub redact : String → String

-- Whose data is discarded: `{ endpointId, workspaceId, provider }`.
pub record Owner : Type 0 where
  pub endpoint_id : String
  pub workspace_id : String
  pub provider : String

-- `remove name none` is `remove(name)`; with an owner it is `remove(name, { discardData: true, owner })`.
-- The calls of the provider's interface go to the address of a container.
pub data Op : Type 0 where
  report : Phase → ℕ → String → Op
  throw_if_aborted load_commands persist_commands load_desired persist_desired wait : Op
  get_command drop_command drop_desired : String → Op
  set_command : Command → Op
  set_desired : String → Desired → Op
  forget : Cache → String → Op
  inspect start stop restart kill pull : String → Op
  create : Creation → Op
  remove : String → Option Owner → Op
  remove_host_endpoint : String → String → String → Op
  remove_tree make_directory make_writable : String → Op
  ensure_directory read_file : String → String → Op
  write_file : String → String → String → Op
  exec : String → List String → Op
  read_logs : String → ℕ → ℕ → Op
  driver_ensure : Spec → Op
  driver_start driver_stop driver_delete : String → Op
  driver_delete_data : String → Owner → Op
  driver_restart driver_force_restart : String → String → Op
  web_credential : String → String → Op
  web_request : String → String → String → Fields → Op
  webui_apply : String → String → String → String → Op
  webui_password : String → Op
  find_config : String → Op
  write_config : String → String → Fields → Op
  snapshot : Command → Op

abbrev pub Reply : Op → Type 0
Reply (get_command id) = Option Command
Reply (drop_desired id) = Bool
Reply (inspect name) = Option Container
Reply (read_logs name tail since) = String
Reply (read_file name path) = String
Reply (web_credential id address) = String
Reply (web_request address path credential body) = Json
Reply (webui_password id) = Option String
Reply (find_config id) = Option OneBotConfig
Reply (snapshot command) = Snapshot
Reply _ = Unit {0}

abbrev pub Task : Type 0 → Type 0
Task A = Program Op Reply A
