-- ===== src/Runtime/Tests.antt =====
-- Runs of the runtimes of apps/agent/src on small inputs, and uses of the theorems about them.
use botroost.Prelude.{String, true, false, none, some, [], ◌∷◌, ◌≡◌, refl, lookup, text_test}
use botroost.Programs.{Answer, gave, raised, ◌>>=◌, answer_of}
use botroost.Programs.Runs.{Always, failed, Surroundings, run}
use botroost.Runtime.{
  Options, Command, Container, Op, Reply, report, load_commands, get_command, inspect,
}
use botroost.Runtime.Members.{Numbers}
use botroost.Runtime.EndpointId.{is_endpoint_id}
use botroost.Runtime.LoginPorts.{offset_of}
use botroost.Runtime.Guard.{Guarded}
use botroost.Runtime.Ownership.{apply_serial-Guarded}
use botroost.Runtime.Discards.{Spares}
use botroost.Runtime.Discards.OnlyDelete.{apply_serial-Spares}
use botroost.Runtime.SnowlumaActions.{update_websockets}
use botroost.Runtime.WriteAhead.{Anyhow, unsaved, write_ahead, update_websockets-Ahead}
use botroost.Runtime.Napcat
use botroost.Runtime.Llbot
use botroost.Runtime.Snowluma

abbrev some_id : String
some_id = "0a1b2c3d-0000-4000-8000-00000000000F"

is_endpoint_id_test : is_endpoint_id some_id ≡ true
unfolding is_endpoint_id
is_endpoint_id_test = refl

is_endpoint_id_short : is_endpoint_id "0a1b2c3d-0000-4000-8000" ≡ false
unfolding is_endpoint_id
is_endpoint_id_short = refl

-- 0x0a1b is 2587.
offset_of_test : offset_of some_id ≡ 187
unfolding offset_of
offset_of_test = refl

abbrev some_options : Options
some_options = record {
  container_prefix = "botroost-napcat";
  network_mode = "bridge";
  napcat_token = "t";
  state_root = "/state";
  host_root = "/host";
  separator = "/";
  resolve_path = λ parts. "/state/x";
  has_driver = false;
  can_kill = true;
  can_delete_data = true;
  can_pull = true;
  is_local = true;
  is_pod = false;
  is_kubernetes = false;
  volume_mount = λ child. none;
  qr_attempts = 2;
  print = λ n. "1";
  print_fields = λ fields. "{}";
  redact = λ text. text;
}

abbrev some_numbers : Numbers
some_numbers = record { is_port = λ n. true; is_finite = λ n. true; as_interval = λ n. n }

abbrev stop_command : Command
stop_command = record {
  endpoint_id = some_id;
  workspace_id = "w";
  node_id = "n";
  generation = 3;
  action = "stop";
  artifact =
      "artifact:napcat:mlikiowa.napcat-docker.sha256.1336a777f9a4f1f8cb89fef42f7548deacd3645919a067a50df5b66b5e77390e";
  cpu_millis = 500;
  memory_mib = 512;
  image = none;
  desired_state = none;
  proxy_environment = none;
  log_tail = none;
  log_since = none;
  websocket_clients = none;
  websocket_servers = none;
}

-- Surroundings in which a container with the labels is there, and every other call answers with the
-- simplest value.
abbrev some_container : String → Container
some_container workspace = record {
  id = "c";
  image = "i";
  is_running = true;
  ip_address = none;
  labels =
      ("botroost.workspace_id", workspace)
      ∷ ("botroost.endpoint_id", some_id)
      ∷ ("botroost.provider", "napcat")
      ∷ [];
  mount_targets = none;
  resources = none;
  proxy_environment = none;
}

answer_for : String → (op : Op) → Answer (Reply op)
answer_for workspace (inspect name) = gave (some (some_container workspace))
answer_for workspace (get_command id) = gave none
answer_for workspace (report phase percent message) = gave tt
answer_for workspace load_commands = gave tt
answer_for workspace _ = raised "not there"

abbrev docker : String → Surroundings Op Reply
docker workspace = record { State = Unit {0}; answer = λ s op. (answer_for workspace op, s) }

-- A container of another workspace: the command fails at the check, after four calls.
foreign_refused :
    (run (docker "other") (Napcat.apply_serial some_options "e" stop_command) tt).0
    ≡ failed "NapCat container is not owned by this endpoint"
unfolding run Napcat.apply_serial Napcat.begin Napcat.act answer_for ◌>>=◌ answer_of is_endpoint_id
    lookup
foreign_refused = refl

-- Its own container: the command goes on to write its fence, which these surroundings refuse.
own_goes_on :
    (run (docker "w") (Napcat.apply_serial some_options "e" stop_command) tt).0 ≡ failed "not there"
unfolding run Napcat.apply_serial Napcat.begin Napcat.act answer_for ◌>>=◌ answer_of is_endpoint_id
    lookup
own_goes_on = refl

apply_serial-Guarded_example :
    Guarded "napcat" stop_command (Napcat.apply_serial some_options "e" stop_command)
    × (Guarded "llbot" stop_command (Llbot.apply_serial some_options some_numbers stop_command)
        × Guarded "snowluma" stop_command
            (Snowluma.apply_serial some_options some_numbers stop_command))
apply_serial-Guarded_example = apply_serial-Guarded some_options some_numbers "e" stop_command

apply_serial-Spares_example :
    Spares (Napcat.apply_serial some_options "e" stop_command)
    × (Spares (Llbot.apply_serial some_options some_numbers stop_command)
        × Spares (Snowluma.apply_serial some_options some_numbers stop_command))
apply_serial-Spares_example = apply_serial-Spares some_options some_numbers "e" stop_command refl

abbrev lists_command : Command
lists_command = record stop_command {
  action = "update-onebot-websockets";
  websocket_clients = some [];
  websocket_servers = some [];
}

update_websockets-Ahead_example :
    Always write_ahead Anyhow unsaved
      (update_websockets some_numbers "n" lists_command (some (some_container "w")))
update_websockets-Ahead_example =
    update_websockets-Ahead some_numbers "n" lists_command (some (some_container "w"))
