-- ===== src/Runtime/SnowlumaCreate.antt =====
-- The making of a container by SnowLumaRuntime.applySerial, in apps/agent/src/snowluma-runtime.ts.
use Prim.Native.String.{◌++◌ as join_text}
use botroost.Prelude.{
  ◌+◌, ◌*◌, String, Bool, true, false, not, ◌&&◌, ◌||◌, Option, none, some, List, [], ◌∷◌, ◌==◌,
  text_test, is_some, any,
}
use botroost.Programs.{Answer, gave, raised, return, call, ◌>>=◌, ◌>>◌, when, given, catch}
use botroost.Runtime.{
  Options, Command, Container, Creation, Phase, Task, report, remove, pull, create,
  ensure_directory, make_writable, read_file, write_file,
}
use botroost.Runtime.Common.{call_of, resource_limits, endpoint_path, resource_drift, proxy_drift}
use botroost.Runtime.NapcatDriver.{with_proxy}
use botroost.Runtime.Napcat.{image_drift}
use botroost.Runtime.LoginPorts.{offset_of}

abbrev pub snowluma_image : String
snowluma_image =
    "motricseven7/snowluma@sha256:72d9d31597df0741e84747282e979642405d1afb6c2f83b53add601bafdb4a99"

-- `SNOWLUMA_VOLUMES`
abbrev pub volumes : List (String × String)
volumes =
    ("qq", "/app/.config")
    ∷ ("data", "/app/data")
    ∷ ("pki", "/app/.pki")
    ∷ ("local", "/app/.local")
    ∷ ("config", "/app/snowluma-data")
    ∷ []

abbrev or_none : Option (List String) → List String
or_none none = []
or_none (some targets) = targets

abbrev is_empty : List String → Bool
is_empty [] = true
is_empty (x ∷ xs) = false

unfoldable pub lacks : List String → List (String × String) → Bool
lacks targets [] = false
lacks targets ((child, target) ∷ rest) = not (any (λ t. t == target) targets) || lacks targets rest

-- `volumeDrift`
unfoldable pub volume_drift : Option Container → Bool
unfolding lacks
volume_drift none = false
volume_drift (some container) =
    not (is_empty (or_none container.mount_targets))
    && lacks (or_none container.mount_targets) volumes

-- The test for a container that has to be made.
unfoldable pub must_create : Command → Option Container → Bool
unfolding image_drift resource_drift proxy_drift volume_drift resource_limits
must_create command existing =
    not (command.action == "stop")
    && (image_drift snowluma_image existing
        || (resource_drift existing (resource_limits command)
            || (proxy_drift existing command || volume_drift existing)))

-- `hostDirectory`
unfoldable pub host_directory : Options → String → String → Task String
unfolding endpoint_path
host_directory options endpoint_id child =
    given (options.volume_mount child)
      (endpoint_path options options.host_root endpoint_id (child ∷ [])) (λ path. return path)

-- The mounts, whose sources are `hostDirectory` of each volume.
unfoldable pub mounts_of : Options → String → List (String × String) → Task (List (String × String))
unfolding host_directory
mounts_of options endpoint_id [] = return []
mounts_of options endpoint_id ((child, target) ∷ rest) = do
  source ← host_directory options endpoint_id child
  mounts ← mounts_of options endpoint_id rest
  return ((source, target) ∷ mounts)

-- `join(path, child)` of node:path, for the children that the code has.
abbrev below : Options → String → String → String
below options path child = join_text path (join_text options.separator child)

abbrev runtime_config : String
runtime_config = "{\n  \"webuiPort\": \"5099\"\n}\n"

-- `seedRuntimeConfig`: a file that is there stays, and whatever fails in the writing is ignored.
unfoldable pub seed_if_absent : String → String → Answer String → Task (Unit {0})
seed_if_absent name path (gave text) = return tt
seed_if_absent name path (raised e) =
    catch (call_of (write_file name path runtime_config)) (λ e. return tt)

unfoldable pub seed_config : String → String → Task (Unit {0})
unfolding seed_if_absent
seed_config name path = call (read_file name path) (seed_if_absent name path)

-- `for (const child of ...) await storage.ensureDirectory(...)`
unfoldable pub ensure_all : String → List (String × String) → Task (Unit {0})
ensure_all name [] = return tt
ensure_all name ((source, target) ∷ rest) =
    call_of (ensure_directory name source) >> ensure_all name rest

-- `for (const child of ...) await chmod(...).catch(() => {})`
unfoldable pub open_all : List (String × String) → Task (Unit {0})
open_all [] = return tt
open_all ((source, target) ∷ rest) =
    catch (call_of (make_writable source)) (λ e. return tt) >> open_all rest

-- The sources of the mounts, where they have to be there first.
unfoldable pub prepare_local : String → List (String × String) → String → String → Task (Unit {0})
unfolding ensure_all open_all seed_config
prepare_local name mounts config_directory path = do
  ensure_all name mounts
  call_of (report Phase.preparing_runtime 45 "Preparing SnowLuma configuration storage")
  call_of (ensure_directory name config_directory)
  open_all mounts
  catch (call_of (make_writable config_directory)) (λ e. return tt)
  seed_config name path

-- The argument of `docker.create`.
unfoldable pub creation : Options → String → Command → List (String × String) → Creation
unfolding resource_limits with_proxy offset_of
creation options name command mounts = record {
  name = name;
  image = snowluma_image;
  labels =
      ("botroost.provider", "snowluma")
      ∷ ("botroost.workspace_id", command.workspace_id)
      ∷ ("botroost.endpoint_id", command.endpoint_id)
      ∷ ("botroost.generation", options.print command.generation)
      ∷ [];
  environment = with_proxy [] command.proxy_environment;
  mounts = mounts;
  network_mode = options.network_mode;
  resources = resource_limits command;
  published_ports =
      (6081 + offset_of command.endpoint_id, "6081")
      ∷ (5099 + offset_of command.endpoint_id, "5099")
      ∷ [];
  expose_ports = 3000 ∷ [];
  cap_add = "SYS_PTRACE" ∷ [];
  security_opt = "seccomp=unconfined" ∷ [];
  shm_bytes = some (1024 * 1024 * 1024);
}

abbrev message_fetching : Option Container → String
message_fetching none = "Fetching the SnowLuma runtime image"
message_fetching (some container) =
    "Fetching the replacement SnowLuma image before removing the old runtime"

-- The image is fetched first, then an old container makes place.
unfoldable pub make_place : Options → String → Option Container → Task (Unit {0})
make_place options name existing = do
  when options.can_pull (
      call_of (report Phase.preparing_runtime 30 (message_fetching existing))
      >> call_of (pull snowluma_image))
  when (is_some existing) (
      call_of (report Phase.preparing_runtime 35 "Replacing outdated SnowLuma container")
      >> call_of (remove name none))

unfoldable pub replace_container : Options → String → Command → Option Container → Task (Unit {0})
unfolding make_place host_directory mounts_of prepare_local seed_config creation
replace_container options name command existing = do
  make_place options name existing
  call_of (report Phase.preparing_runtime 40 "Preparing runtime image and storage")
  host_config ← host_directory options command.endpoint_id "config"
  mounts ← mounts_of options command.endpoint_id volumes
  let config_directory = below options host_config "config"
  let path = below options config_directory "runtime.json"
  when options.is_local (prepare_local name mounts config_directory path)
  call_of (report Phase.creating_container 55 "Creating SnowLuma container")
  call_of (create (creation options name command mounts))
  when (not options.is_local) (seed_config name path)
