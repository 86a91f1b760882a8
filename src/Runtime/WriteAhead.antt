-- ===== src/Runtime/WriteAhead.antt =====
-- The order of update-onebot-websockets in apps/agent/src/snowluma-runtime.ts: what is desired is
-- saved before it is applied.
use botroost.Prelude.{
  String, Bool, true, false, not, ◌||◌, Option, none, some, text_test, ◌≡◌, refl, arith,
}
use botroost.Json.{Fields}
use botroost.Programs.{Answer, gave, return, throw, ◌>>=◌, catch, when, given}
use botroost.Programs.Only.{Only, only_rules}
use botroost.Programs.Runs.{
  Outcome, finished, failed, Rule, Always, After, Always-bind, Always-weaken, Always-perform,
  Always-last, Always-throw_if, Stays, Only-Stays, Stays-bind,
}
use botroost.Runtime.{
  Command, Container, OneBotConfig, Desired, Phase, Op, Reply, Task, report, set_desired,
  persist_desired, webui_apply, write_config, exec, find_config, webui_password,
}
use botroost.Runtime.Common.{call_of, remember, snapshot_or}
use botroost.Runtime.Websockets.{is_bad_list}
use botroost.Runtime.Members.{Numbers}
use botroost.Runtime.SnowlumaWebsockets.{map_websockets}
use botroost.Runtime.SnowlumaActions.{
  desired_of, remember_desired, try_webui, write_file_config, adopt_applied, change_websockets,
  update_websockets, message_no_config,
}
use botroost.Runtime.Discards.Websockets.{snowluma_map-Only}

-- What the agent has of the desired configuration: nothing of this command, something in memory, or
-- something that is saved.
pub data Saving : Type 0 where
  unsaved : Saving
  remembered saved : Desired → Saving

unfoldable pub is_saved : Saving → Bool
is_saved (saved desired) = true
is_saved _ = false

unfoldable pub persisted : Saving → Saving
persisted (remembered desired) = saved desired
persisted m = m

unfoldable pub save : Saving → (op : Op) → Answer (Reply op) → Saving
unfolding persisted
save m (set_desired id desired) (gave done) = remembered desired
save m persist_desired (gave done) = persisted m
save m op r = m

abbrev pub Matches : Saving → Fields → Type 0
Matches (saved desired) config = desired_of config ≡ desired
Matches _ config = false ≡ true

-- SnowLuma is changed only when the desired configuration is saved, and a file that is written has
-- the configuration that is saved.
unfoldable pub Ahead : Saving → Op → Type 0
unfolding is_saved
Ahead m (webui_apply id address qq password) = is_saved m ≡ true
Ahead m (exec name arguments) = is_saved m ≡ true
Ahead m (write_config id path config) = Matches m config
Ahead m op = Unit

abbrev pub write_ahead : Rule Op Reply
write_ahead = record { Memory = Saving; Allows = Ahead; watch = save }

abbrev pub Anyhow : {A : Type 0} → Saving → Outcome A → Type 0
Anyhow m o = Unit {0}

-- Calls that neither save nor change the configuration, and with them those that need it saved.
is_neutral : Op → Bool
is_neutral (set_desired id desired) = false
is_neutral persist_desired = false
is_neutral (webui_apply id address qq password) = false
is_neutral (exec name arguments) = false
is_neutral (write_config id path config) = false
is_neutral op = true

is_backed : Op → Bool
is_backed (set_desired id desired) = false
is_backed persist_desired = false
is_backed (write_config id path config) = false
is_backed op = true

neutral-Ahead :
    (m : Saving) (op : Op)
    → is_neutral op ≡ true
    → Ahead m op × ((r : Answer (Reply op)) → save m op r ≡ m)
unfolding is_neutral Ahead save
neutral-Ahead m (set_desired id desired) e = ground arith
neutral-Ahead m persist_desired e = ground arith
neutral-Ahead m (webui_apply id address qq password) e = ground arith
neutral-Ahead m (exec name arguments) e = ground arith
neutral-Ahead m (write_config id path config) e = ground arith
neutral-Ahead m op e = (tt, λ r. refl)

backed-Ahead :
    (d : Desired) (op : Op)
    → is_backed op ≡ true
    → Ahead (saved d) op × ((r : Answer (Reply op)) → save (saved d) op r ≡ saved d)
unfolding is_backed Ahead save is_saved
backed-Ahead d (set_desired id desired) e = ground arith
backed-Ahead d persist_desired e = ground arith
backed-Ahead d (write_config id path config) e = ground arith
backed-Ahead d (webui_apply id address qq password) e = (refl, λ r. refl)
backed-Ahead d (exec name arguments) e = (refl, λ r. refl)
backed-Ahead d op e = (tt, λ r. refl)

neutral-bind :
    {A B : Type 0} (m : Saving) (p : Task A) (f : A → Task B)
    → Only Op Reply is_neutral p
    → ((a : A) → Always write_ahead Anyhow m (f a))
    → Always write_ahead Anyhow m (p >>= f)
neutral-bind m p f h goes_on =
    Stays-bind write_ahead Anyhow m p f
      (Only-Stays write_ahead is_neutral m (λ op e. (neutral-Ahead m op e).0)
        (λ op r e. (neutral-Ahead m op e).1 r) p h)
      goes_on (λ e. tt)

backed-Stays :
    {A : Type 0} (d : Desired) (p : Task A)
    → Only Op Reply is_backed p
    → Always write_ahead (Stays write_ahead (saved d)) (saved d) p
backed-Stays d p h =
    Only-Stays write_ahead is_backed (saved d) (λ op e. (backed-Ahead d op e).0)
      (λ op r e. (backed-Ahead d op e).1 r) p h

-- Saving, and what comes after it.
remember_desired-bind :
    {B : Type 0} (m : Saving) (id : String) (config : Fields) (f : Unit {0} → Task B)
    → Always write_ahead Anyhow (saved (desired_of config)) (f tt)
    → Always write_ahead Anyhow m (remember_desired id config >>= f)
unfolding remember_desired Ahead save persisted
remember_desired-bind m id config f goes_on =
    Always-bind write_ahead Anyhow m (remember_desired id config) f (
      Always-perform write_ahead (After write_ahead Anyhow f) m (set_desired id (desired_of config))
        _ tt
        (λ _.
          Always-last write_ahead persist_desired (After write_ahead Anyhow f)
            (remembered (desired_of config)) tt (λ _. goes_on) (λ e. tt))
        (λ e. tt))

write_file_config-Stays :
    (name : String) (command : Command) (found : OneBotConfig) (merged : Fields)
    → Always write_ahead
        (Stays write_ahead (saved (desired_of merged)))
        (saved (desired_of merged))
        (write_file_config name command found merged)
unfolding write_file_config Ahead save is_backed
write_file_config-Stays name command found merged =
    let m = saved (desired_of merged) in
    Always-perform write_ahead (Stays write_ahead m) m (report Phase.applying_configuration 70 _) _
      tt
      (λ _.
        Always-perform write_ahead (Stays write_ahead m) m
          (write_config command.endpoint_id found.path merged) _ refl
          (λ _. backed-Stays (desired_of merged) _ (search only_rules depth 20)) (λ e. refl))
      (λ e. refl)

try_webui-Stays :
    (d : Desired) (command : Command) (existing : Container) (found : OneBotConfig)
    (password : Option String)
    → Always write_ahead
        (Stays write_ahead (saved d))
        (saved d)
        (try_webui command existing found password)
unfolding try_webui is_backed
try_webui-Stays d command existing found password =
    backed-Stays d (try_webui command existing found password) (search only_rules depth 40)

-- After an attempt at the WebUI, the file is written if that failed.
write_unless :
    (name : String) (command : Command) (found : OneBotConfig) (merged : Fields) (applied : Bool)
    → Always write_ahead
        (Stays write_ahead (saved (desired_of merged)))
        (saved (desired_of merged))
        (when (not applied) (write_file_config name command found merged))
unfolding Always
write_unless name command found merged true = refl
write_unless name command found merged false = write_file_config-Stays name command found merged

Anyhow-bind :
    {A B : Type 0} (m : Saving) (p : Task A) (f : A → Task B)
    → Always write_ahead Anyhow m p
    → ((n : Saving) (a : A) → Always write_ahead Anyhow n (f a))
    → Always write_ahead Anyhow m (p >>= f)
Anyhow-bind {A = A} m p f h goes_on =
    Always-bind write_ahead Anyhow m p f
      (Always-weaken write_ahead Anyhow (After write_ahead Anyhow f) m p (λ n o t. after n o) h)
  where
    after : (n : Saving) (o : Outcome A) → After write_ahead Anyhow f n o
    after n (finished a) = goes_on n a
    after n (failed e) = tt

adopt-Anyhow :
    (m : Saving) (id : String) (applied : Option OneBotConfig)
    → Always write_ahead Anyhow m
        (given applied (return tt) (λ found. remember_desired id found.config))
unfolding given Always remember_desired Ahead save
adopt-Anyhow m id none = tt
adopt-Anyhow m id (some found) =
    Always-perform write_ahead Anyhow m (set_desired id (desired_of found.config)) _ tt
      (λ _.
        Always-last write_ahead persist_desired Anyhow (remembered (desired_of found.config)) tt
          (λ _. tt) (λ e. tt))
      (λ e. tt)

adopt_applied-Anyhow : (m : Saving) (id : String) → Always write_ahead Anyhow m (adopt_applied id)
unfolding adopt_applied is_neutral
adopt_applied-Anyhow m id =
    neutral-bind m (catch (call_of (find_config id)) (λ e. return none)) _
      (search only_rules depth 20) (adopt-Anyhow m id)

-- The look at the result.
neutral-Anyhow :
    {A : Type 0} (m : Saving) (p : Task A)
    → Only Op Reply is_neutral p
    → Always write_ahead Anyhow m p
neutral-Anyhow m p h =
    Always-weaken write_ahead (Stays write_ahead m) Anyhow m p (λ n o e. tt)
      (Only-Stays write_ahead is_neutral m (λ op e. (neutral-Ahead m op e).0)
        (λ op r e. (neutral-Ahead m op e).1 r) p h)

change_websockets-Anyhow :
    (numbers : Numbers) (name : String) (command : Command) (existing : Container)
    (found : OneBotConfig)
    → Always write_ahead Anyhow unsaved (change_websockets numbers name command existing found)
unfolding change_websockets remember snapshot_or is_neutral
change_websockets-Anyhow numbers name command existing found =
    neutral-bind unsaved (remember command) _ (search only_rules depth 20) (λ _.
      neutral-bind unsaved (map_websockets numbers found.config _ _) _
        (snowluma_map-Only is_neutral numbers found.config _ _)
        (λ merged. remember_desired-bind unsaved command.endpoint_id merged _ (
          neutral-bind (saved (desired_of merged)) (call_of (webui_password command.endpoint_id)) _
            (search only_rules depth 20)
            (λ password.
              Stays-bind write_ahead Anyhow (saved (desired_of merged))
                (try_webui command existing found password) _
                (try_webui-Stays (desired_of merged) command existing found password)
                (λ applied.
                  Stays-bind write_ahead Anyhow (saved (desired_of merged))
                    (when (not applied) (write_file_config name command found merged)) _
                    (write_unless name command found merged applied)
                    (λ _.
                      Anyhow-bind (saved (desired_of merged)) (adopt_applied command.endpoint_id) _
                        (adopt_applied-Anyhow (saved (desired_of merged)) command.endpoint_id)
                        (λ n _. neutral-Anyhow n _ (search only_rules depth 40)))
                    (λ e. tt))
                (λ e. tt)))))

-- Whatever its calls answer, and wherever it ends, update-onebot-websockets of SnowLuma touches the
-- provider, by its WebUI, by its configuration file or by a restart of its service, only after the
-- desired lists have been set and saved, and a configuration file that it writes has the lists that
-- were saved.
pub update_websockets-Ahead :
    (numbers : Numbers) (name : String) (command : Command) (existing : Option Container)
    → Always write_ahead Anyhow unsaved (update_websockets numbers name command existing)
unfolding update_websockets is_neutral given Always
update_websockets-Ahead numbers name command none =
    neutral-Anyhow unsaved _ (search only_rules depth 20)
update_websockets-Ahead numbers name command (some existing) =
    neutral-bind unsaved (call_of (report Phase.applying_configuration 60 _)) _
      (search only_rules depth 20)
      (λ _. Always-throw_if write_ahead Anyhow unsaved (not existing.is_running) _ _ tt (λ _.
        Always-throw_if write_ahead Anyhow unsaved
          (is_bad_list command.websocket_clients || is_bad_list command.websocket_servers) _ _ tt
          (λ _.
            neutral-bind unsaved (call_of (find_config command.endpoint_id)) _
              (search only_rules depth 20) found-Anyhow)))
  where
    found-Anyhow :
        (found : Option OneBotConfig)
        → Always write_ahead Anyhow unsaved (
            given found
              (throw message_no_config)
              (λ config. change_websockets numbers name command existing config))
    found-Anyhow none = tt
    found-Anyhow (some config) = change_websockets-Anyhow numbers name command existing config
