-- ===== src/Runtime/Discards/OnlyDelete.antt =====
-- When `applySerial` of the three runtimes gives up what an endpoint has stored:
-- apps/agent/src/index.ts, apps/agent/src/llbot-runtime.ts and apps/agent/src/snowluma-runtime.ts.
use botroost.Prelude.{String, false, ◌==◌, text_test, ◌≡◌}
use botroost.Programs.Only.{Only-bind}
use botroost.Runtime.{Op, Reply, Options, Command}
use botroost.Runtime.Common.{container_name}
use botroost.Runtime.Members.{Numbers}
use botroost.Runtime.Discards.{Spares, spares_data, shared_spares}
use botroost.Runtime.Napcat
use botroost.Runtime.Llbot
use botroost.Runtime.Snowluma
use botroost.Runtime.Snowluma.{workload_name, short_name}
use botroost.Runtime.Discards.Napcat as OfNapcat
use botroost.Runtime.Discards.Llbot as OfLlbot
use botroost.Runtime.Discards.Snowluma as OfSnowluma

name-Spares :
    (options : Options) (endpoint_id : String) → Spares (container_name options endpoint_id)
unfolding container_name
name-Spares options endpoint_id = search shared_spares

workload_name-Spares :
    (options : Options) (endpoint_id : String) → Spares (workload_name options endpoint_id)
unfolding workload_name short_name
workload_name-Spares options endpoint_id = search shared_spares

napcat_begin-Spares :
    (options : Options) (command : Command) → Spares (Napcat.begin options command)
unfolding Napcat.begin spares_data
napcat_begin-Spares options command = search (shared_spares, name-Spares) depth 20

llbot_begin-Spares : (options : Options) (command : Command) → Spares (Llbot.begin options command)
unfolding Llbot.begin spares_data
llbot_begin-Spares options command = search (shared_spares, name-Spares) depth 20

snowluma_begin-Spares :
    (options : Options) (command : Command) → Spares (Snowluma.begin options command)
unfolding Snowluma.begin spares_data
snowluma_begin-Spares options command = search (shared_spares, workload_name-Spares) depth 20

-- A command of any of the three runtimes whose action is not delete makes no call that discards an
-- endpoint's data, its directories, its remembered command or its desired configuration, whatever
-- the calls before have answered.
pub apply_serial-Spares :
    (options : Options) (numbers : Numbers) (effect_id : String) (command : Command)
    → command.action == "delete" ≡ false
    → Spares (Napcat.apply_serial options effect_id command)
      × (Spares (Llbot.apply_serial options numbers command)
          × Spares (Snowluma.apply_serial options numbers command))
unfolding Napcat.apply_serial Llbot.apply_serial Snowluma.apply_serial
apply_serial-Spares options numbers effect_id command e = (
  Only-bind Op Reply spares_data _ _ (napcat_begin-Spares options command)
      (λ found. OfNapcat.act-Spares options effect_id command found e),
  (
    Only-bind Op Reply spares_data _ _ (llbot_begin-Spares options command)
        (λ found. OfLlbot.act-Spares options numbers command found e),
    Only-bind Op Reply spares_data _ _ (snowluma_begin-Spares options command)
        (λ found. OfSnowluma.act-Spares options numbers command found e),
  ),
)
