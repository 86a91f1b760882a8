-- ===== src/Runtime/Common.antt =====
-- Steps that the three runtimes of the agent take in the same way. The line numbers of their
-- sources are those of NapCatRuntime in apps/agent/src/index.ts.
use botroost.Prelude.{
  ℕ, ◌+◌, String, Bool, true, false, not, ◌&&◌, ◌||◌, Option, none, some, List, [], ◌∷◌, ltb, leb,
  ◌==◌, text_test, number_test, if◌then◌else◌, option_beq, Assoc, lookup, take_units,
}
use Prim.Native.String.{◌++◌ as join_text}
use botroost.Json.{Fields, field, str, num, end, Json}
use botroost.Programs.{return, throw, ◌>>=◌, ◌>>◌, perform, throw_if, catch}
use text.Mathlib.Text.{starts_with}
use botroost.Runtime.{
  Options, Resources, Command, Container, Observations, Snapshot, Applied, RuntimeStatus,
  ProviderStatus, ProtocolStatus, Convergence, Phase, Op, Reply, Task, report, persist_commands,
  get_command, set_command, inspect, read_logs, snapshot, forget, Cache,
}
use botroost.Runtime.EndpointId.{is_endpoint_id}

abbrev pub call_of : (op : Op) → Task (Reply op)
call_of op = perform op

-- `ownsContainer`: the labels name the command's workspace and endpoint, and the provider.
unfoldable pub owns_container : String → Container → Command → Bool
owns_container provider container command =
    option_beq (lookup "botroost.workspace_id" container.labels) (some command.workspace_id)
    && (option_beq (lookup "botroost.endpoint_id" container.labels) (some command.endpoint_id)
        && option_beq (lookup "botroost.provider" container.labels) (some provider))

-- The check of what `inspect` gave: no container, or one of this endpoint.
unfoldable pub is_ours : String → Option Container → Command → Bool
unfolding owns_container
is_ours provider none command = true
is_ours provider (some container) command = owns_container provider container command

abbrev pub runs : Option Container → Bool
runs none = false
runs (some container) = container.is_running

-- `containerName` of NapCat and LLBot
unfoldable pub container_name : Options → String → Task String
container_name options endpoint_id =
    if is_endpoint_id endpoint_id
    then return (join_text options.container_prefix (join_text "-" endpoint_id))
    else throw "endpoint identifier is invalid"

-- `endpointRoot`, `endpointDirectory` and `hostEndpointDirectory`: a path below a root.
unfoldable pub endpoint_path : Options → String → String → List String → Task String
endpoint_path options base endpoint_id child =
    let root = options.resolve_path (base ∷ []) in
    let path = options.resolve_path (root ∷ endpoint_id ∷ child) in
    if is_endpoint_id endpoint_id
    then if starts_with path (join_text root options.separator)
      then return path
      else throw "endpoint storage path is invalid"
    else throw "endpoint identifier is invalid"

-- `previousCommand.generation > command.generation`
unfoldable pub is_fenced : Option Command → Command → Bool
is_fenced none command = false
is_fenced (some previous) command = ltb command.generation previous.generation

-- `napcatResourceLimits`, `llbotResourceLimits` and `snowlumaResourceLimits`
abbrev pub max : ℕ → ℕ → ℕ
max a b = if ltb a b then b else a

unfoldable pub resource_limits : Command → Resources
resource_limits command = record {
  cpu_millis = max 1000 command.cpu_millis;
  memory_mib = max 1024 command.memory_mib;
  memory_swap_mib = max 1024 command.memory_mib + 512;
}

abbrev differs : Resources → Resources → Bool
differs a b =
    not (a.cpu_millis == b.cpu_millis)
    || (not (a.memory_mib == b.memory_mib) || not (a.memory_swap_mib == b.memory_swap_mib))

unfoldable pub resource_drift : Option Container → Resources → Bool
resource_drift none desired = false
resource_drift (some container) desired = elim container.resources [
  | none ↦ false
  | some actual ↦ differs actual desired
]

-- `environment?.HTTP_PROXY ?? null`
abbrev pub http_proxy : Option (Assoc String String) → Option String
http_proxy none = none
http_proxy (some environment) = lookup "HTTP_PROXY" environment

unfoldable pub proxy_drift : Option Container → Command → Bool
proxy_drift none command = false
proxy_drift (some container) command =
    not (option_beq (http_proxy command.proxy_environment) (http_proxy container.proxy_environment))

-- The answer of a method whose container has gone or is stopped.
abbrev pub gone : Observations
gone = record {
  runtime = RuntimeStatus.stopped;
  provider = ProviderStatus.unavailable;
  protocol = ProtocolStatus.disconnected;
  convergence = Convergence.converged;
}

abbrev pub deleted : Applied
deleted = record {
  is_running = false;
  observations = some gone;
  metadata = some (field "deleted" (Json.bool true) end);
}

abbrev pub stopped_result : Option Fields → Applied
stopped_result metadata = record {
  is_running = false;
  observations = some gone;
  metadata = metadata;
}

abbrev pub observed : Bool → Snapshot → Applied
observed is_running s = record {
  is_running = is_running;
  observations = some s.observations;
  metadata = some s.metadata;
}

-- What stands for a snapshot that failed.
abbrev pub degraded : RuntimeStatus → String → Snapshot
degraded runtime message = record {
  observations = record {
    runtime = runtime;
    provider = ProviderStatus.degraded;
    protocol = ProtocolStatus.disconnected;
    convergence = Convergence.reconciling;
  };
  metadata = field "error" (str message) end;
}

-- The bounds that `read-container-logs` puts on the integers of its metadata.
unfoldable pub in_bounds : ℕ → ℕ → Option ℕ → Bool
in_bounds low high none = false
in_bounds low high (some n) = leb low n && leb n high

abbrev pub or_zero : Option ℕ → ℕ
or_zero none = 0
or_zero (some n) = n

abbrev pub logs_metadata : Options → String → ℕ → ℕ → Fields
logs_metadata options text tail since =
    field "logs"
      (Json.obj (
        field "text" (str text) (
          field "tail" (num (options.print tail))
            (field "sinceSeconds" (num (options.print since)) end))))
      end

-- `read-container-logs`
unfoldable pub read_container_logs :
    Options → String → String → String → Command → Option Container → Task Applied
unfolding owns_container in_bounds
read_container_logs options title provider name command none = do
  call_of (report Phase.probing_provider 75 "Reading runtime diagnostics")
  throw (join_text title " container ownership check failed")
read_container_logs options title provider name command (some existing) = do
  call_of (report Phase.probing_provider 75 "Reading runtime diagnostics")
  throw_if (not (owns_container provider existing command))
      (join_text title " container ownership check failed")
  throw_if (not (in_bounds 1 1000 command.log_tail && in_bounds 60 86400 command.log_since))
      (join_text title " log bounds are invalid")
  text ← call_of (read_logs name (or_zero command.log_tail) (or_zero command.log_since))
  call_of (report Phase.probing_provider 95 "Runtime diagnostics ready")
  return (record {
    is_running = existing.is_running;
    observations = none;
    metadata = some (
        logs_metadata options (options.redact text) (or_zero command.log_tail)
          (or_zero command.log_since));
  })

-- `this.commands.set(...); await this.persistCommands();`
unfoldable pub remember : Command → Task (Unit {0})
remember command = do call_of (set_command command); call_of persist_commands

-- The container that is there under the name, which has to be the endpoint's.
unfoldable pub inspect_owned : String → String → Command → String → Task (String × Option Container)
unfolding is_ours
inspect_owned title provider command name = do
  call_of (report Phase.inspecting_runtime 22 "Inspecting container ownership")
  existing ← call_of (inspect name)
  throw_if (not (is_ours provider existing command))
      (join_text title " container is not owned by this endpoint")
  return (name, existing)

-- The fence, before the container.
unfoldable pub pass_fence :
    String → String → Task String → Command → Task (String × Option Container)
unfolding is_fenced inspect_owned
pass_fence title provider name_of command = do
  previous ← call_of (get_command command.endpoint_id)
  throw_if (is_fenced previous command) "runtime generation fence rejected"
  name ← name_of
  inspect_owned title provider command name

-- The beginning of `applySerial`, which gives the container that is there for the endpoint, and the
-- name it has: `allowed` is the test of `assertAllowed`, and `load` what is loaded first.
unfoldable pub begin_apply :
    String
    → String
    → Bool
    → Task (Unit {0})
    → Task String
    → Command
    → Task (String × Option Container)
unfolding pass_fence
begin_apply title provider allowed load name_of command = do
  throw_if (not allowed) (join_text title " image is not allowlisted")
  call_of (report Phase.inspecting_runtime 20 "Authorizing runtime command")
  load
  pass_fence title provider name_of command

-- `forget` of the endpoint in several maps, one after the other.
unfoldable pub forget_all : List Cache → String → Task (Unit {0})
forget_all [] endpoint_id = return tt
forget_all (cache ∷ caches) endpoint_id =
    call_of (forget cache endpoint_id) >> forget_all caches endpoint_id

-- `safeError` of LLBot and SnowLuma.
unfoldable pub safe_error : String → String
safe_error message =
    let start = take_units 500 message in if start == "" then "Runtime execution failed" else start

-- `snapshot(command).catch(...)`, where the error is reported by `shown`.
unfoldable pub snapshot_or : (String → String) → RuntimeStatus → Command → Task Snapshot
snapshot_or shown runtime command =
    catch (call_of (snapshot command)) (λ e. return (degraded runtime (shown e)))
