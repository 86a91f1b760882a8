-- ===== src/Runtime/Discards/Napcat.antt =====
-- What NapCatRuntime.applySerial of apps/agent/src/index.ts does when it is not asked to delete.
use botroost.Prelude.{
  ℕ, zero, suc, String, Bool, true, false, ◌&&◌, Option, none, some, List, [], ◌∷◌, ◌==◌, text_test,
  ◌≡◌, refl,
}
use botroost.Json.{Json, obj, null, bool, num, str, arr}
use botroost.Programs.{Answer, gave, raised}
use botroost.Programs.Only.{Only-if, Only-else}
use botroost.Runtime.{Op, Reply, Options, Command, Container, Task}
use botroost.Runtime.Websockets.{preserve_tokens}
use botroost.Runtime.Discards.{Spares, spares_data, shared_spares}
use botroost.Runtime.NapcatDriver.{driver_lifecycle, driver_mutation}
use botroost.Runtime.NapcatActions.{
  force_restart, update_websockets, write_websockets, merge_websockets, attempted, wait_for_qr,
  refresh_at, refresh_qr,
}
use botroost.Runtime.Napcat.{
  update_stopped_proxy, replace_container, mutation, reconcile, configure, without_driver, act,
}

driver_lifecycle-Spares :
    (options : Options) (effect_id name : String) (command : Command) (existing : Option Container)
    → Spares (driver_lifecycle options effect_id name command existing)
unfolding driver_lifecycle driver_mutation spares_data
driver_lifecycle-Spares options effect_id name command existing = search shared_spares depth 60

force_restart-Spares :
    (options : Options) (command : Command) (existing : Option Container)
    → Spares (force_restart options command existing)
unfolding force_restart spares_data
force_restart-Spares options command none = search shared_spares
force_restart-Spares options command (some existing) = search shared_spares depth 60

preserve_tokens-Spares :
    (vs : List Json) (previous : Option Json) → Spares (preserve_tokens vs previous)
unfolding preserve_tokens
preserve_tokens-Spares [] previous = search shared_spares
preserve_tokens-Spares (obj value ∷ vs) previous =
    let rest = preserve_tokens-Spares vs previous in search shared_spares depth 20
preserve_tokens-Spares (null ∷ vs) previous = search shared_spares
preserve_tokens-Spares (bool b ∷ vs) previous = search shared_spares
preserve_tokens-Spares (num n ∷ vs) previous = search shared_spares
preserve_tokens-Spares (str s ∷ vs) previous = search shared_spares
preserve_tokens-Spares (arr items ∷ vs) previous = search shared_spares

write_websockets-Spares :
    (options : Options) (command : Command) (address : String)
    → Spares (write_websockets options command address)
unfolding write_websockets merge_websockets spares_data
write_websockets-Spares options command address =
    search (shared_spares, preserve_tokens-Spares) depth 60

update_websockets-Spares :
    (options : Options) (command : Command) (existing : Option Container)
    → Spares (update_websockets options command existing)
unfolding update_websockets spares_data
update_websockets-Spares options command existing =
    search (shared_spares, write_websockets-Spares) depth 60

attempted-Spares :
    (attempts : ℕ) (rest : String → Task Json) (r : Answer Json)
    → ((e : String) → Spares (rest e))
    → Spares (attempted attempts rest r)
unfolding attempted spares_data
attempted-Spares attempts rest (gave answer) h = search shared_spares
attempted-Spares attempts rest (raised e) h = search shared_spares depth 30

wait_for_qr-Spares :
    (address credential : String) (attempts : ℕ) (last : Option String)
    → Spares (wait_for_qr address credential attempts last)
unfolding wait_for_qr spares_data
wait_for_qr-Spares address credential zero last = search shared_spares
wait_for_qr-Spares address credential (suc attempts) last =
    let rest = wait_for_qr-Spares address credential attempts in
    search (shared_spares, attempted-Spares) depth 20

refresh_qr-Spares :
    (options : Options) (command : Command) (existing : Option Container)
    → Spares (refresh_qr options command existing)
unfolding refresh_qr refresh_at spares_data
refresh_qr-Spares options command existing = search (shared_spares, wait_for_qr-Spares) depth 60

update_stopped_proxy-Spares :
    (name : String) (command : Command) (existing : Option Container)
    → Spares (update_stopped_proxy name command existing)
unfolding update_stopped_proxy spares_data
update_stopped_proxy-Spares name command existing = search shared_spares depth 40

replace_container-Spares :
    (options : Options) (name : String) (command : Command) (existing : Option Container)
    → Spares (replace_container options name command existing)
unfolding replace_container spares_data
replace_container-Spares options name command existing = search shared_spares depth 60

mutation-Spares :
    (name : String) (command : Command) (existing : Option Container) (created : Bool)
    → Spares (mutation name command existing created)
unfolding mutation spares_data
mutation-Spares name command existing created = search shared_spares depth 60

reconcile-Spares :
    (options : Options) (name : String) (command : Command) (existing : Option Container)
    → Spares (reconcile options name command existing)
unfolding reconcile spares_data
reconcile-Spares options name command existing =
    search (shared_spares, replace_container-Spares, mutation-Spares, refresh_qr-Spares) depth 60

configure-Spares :
    (options : Options) (name : String) (command : Command) (existing : Option Container)
    → Spares (configure options name command existing)
unfolding configure
configure-Spares options name command existing =
    search (shared_spares, update_stopped_proxy-Spares, reconcile-Spares) depth 40

without_driver-Spares :
    (options : Options) (name : String) (command : Command) (existing : Option Container)
    → Spares (without_driver options name command existing)
unfolding without_driver spares_data
without_driver-Spares options name command existing =
    search (shared_spares, configure-Spares, force_restart-Spares, update_websockets-Spares) depth
      40

and_false : (a b : Bool) → b ≡ false → (a && b) ≡ false
and_false true b e = e
and_false false b e = refl

pub act-Spares :
    (options : Options) (effect_id : String) (command : Command) (found : String × Option Container)
    → command.action == "delete" ≡ false
    → Spares (act options effect_id command found)
unfolding act
act-Spares options effect_id command (name, existing) e =
    Only-else Op Reply spares_data _ _ _ (and_false options.has_driver _ e) (
      Only-if Op Reply spares_data _ _ _
        (driver_lifecycle-Spares options effect_id name command existing)
        (Only-else Op Reply spares_data _ _ _ e
          (without_driver-Spares options name command existing)))
