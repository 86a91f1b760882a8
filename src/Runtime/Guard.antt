-- ===== src/Runtime/Guard.antt =====
-- What `applySerial` of the three runtimes may do before its checks: a rule on the calls of
-- apps/agent/src/index.ts, apps/agent/src/llbot-runtime.ts and apps/agent/src/snowluma-runtime.ts.
use botroost.Prelude.{
  String, Bool, true, false, not, ◌&&◌, ◌==◌, text_test, ◌≡◌, if◌then◌else◌, eq_refl, arith, refl,
  sym, subst,
}
use botroost.Programs.{Answer, gave, return, throw, call, ◌>>=◌}
use botroost.Programs.Runs.{
  Outcome, finished, failed, Rule, Always, Always-bind, Always-weaken, Always-perform,
  Always-throw_if, After,
}
use botroost.Runtime.{
  Command, Phase, Op, Reply, Task, report, throw_if_aborted, load_commands, load_desired,
  get_command, inspect,
}
use botroost.Runtime.Common.{is_fenced, is_ours, inspect_owned, pass_fence, begin_apply}

-- How far the checks of a command have come.
pub data Clearance : Type 0 where
  unread unfenced cleared : Clearance

-- Calls that change nothing and read nothing of a container but what it is.
unfoldable pub is_preliminary : Op → Bool
is_preliminary (report phase percent message) = true
is_preliminary throw_if_aborted = true
is_preliminary load_commands = true
is_preliminary load_desired = true
is_preliminary (get_command id) = true
is_preliminary (inspect name) = true
is_preliminary _ = false

unfoldable pub permits : Clearance → Op → Bool
unfolding is_preliminary
permits cleared op = true
permits unread op = is_preliminary op
permits unfenced op = is_preliminary op

-- The fence is passed when the endpoint's remembered command is found not to be newer, and then the
-- command is cleared when its container is found to be missing or its own.
unfoldable pub clear : String → Command → Clearance → (op : Op) → Answer (Reply op) → Clearance
unfolding is_fenced is_ours
clear provider command unread (get_command id) (gave previous) =
    if (id == command.endpoint_id) && not (is_fenced previous command) then unfenced else unread
clear provider command unfenced (inspect name) (gave existing) =
    if is_ours provider existing command then cleared else unfenced
clear provider command m op r = m

abbrev pub guard : String → Command → Rule Op Reply
guard provider command = record {
  Memory = Clearance;
  Allows = λ m op. permits m op ≡ true;
  watch = clear provider command;
}

-- A program that is allowed in every run, from before the checks.
unfoldable pub Guarded : {A : Type 0} → String → Command → Task A → Type 0
unfolding Always permits clear
Guarded provider command p = Always (guard provider command) (λ n o. Unit {0}) unread p

-- Once the checks are passed, whatever is done is allowed.
cleared-Always :
    {A : Type 0}
    → (provider : String) (command : Command) (p : Task A)
    → Always (guard provider command) (λ n o. Unit {0}) cleared p
unfolding Always permits clear
cleared-Always provider command (return a) = tt
cleared-Always provider command (throw e) = tt
cleared-Always provider command (call op k) = (refl, λ r. cleared-Always provider command (k r))

-- A program that makes no calls.
unfoldable pub IsSilent : {A : Type 0} → Task A → Type 0
IsSilent (return a) = Unit
IsSilent (throw e) = Unit
IsSilent (call op k) = false ≡ true

pub IsSilent-if :
    {A : Type 0} (b : Bool) (p q : Task A) → IsSilent p → IsSilent q → IsSilent (if b then p else q)
IsSilent-if true p q hp hq = hp
IsSilent-if false p q hp hq = hq

abbrev pub Quiet : {A : Type 0} → Clearance → Clearance → Outcome A → Type 0
Quiet m n (finished a) = n ≡ m
Quiet m n (failed e) = Unit

-- A program that makes no calls leaves the clearance, before another that goes on.
silent-Always :
    {A B : Type 0}
    → (provider : String) (command : Command) (m : Clearance) (p : Task A) (f : A → Task B)
      (Q : Clearance → Outcome B → Type 0)
    → IsSilent p
    → ((e : String) → Q m (failed e))
    → ((a : A) → Always (guard provider command) Q m (f a))
    → Always (guard provider command) Q m (p >>= f)
unfolding IsSilent Always ◌>>=◌
silent-Always provider command m (return a) f Q silent ends goes_on = goes_on a
silent-Always provider command m (throw e) f Q silent ends goes_on = ends e
silent-Always provider command m (call op k) f Q silent ends goes_on = ground arith

-- After a beginning that ends in clearance, everything is allowed.
abbrev Clears : {A : Type 0} → Clearance → Outcome A → Type 0
Clears n (finished a) = n ≡ cleared
Clears n (failed e) = Unit

Clears-After :
    {A B : Type 0}
    → (provider : String) (command : Command) (f : A → Task B) (n : Clearance) (o : Outcome A)
    → Clears n o
    → After (guard provider command) (λ n o. Unit {0}) f n o
Clears-After provider command f n (finished a) c =
    subst (λ m. Always (guard provider command) (λ n o. Unit {0}) m (f a)) (sym c)
      (cleared-Always provider command (f a))
Clears-After provider command f n (failed e) c = tt

pub Clears-Guarded :
    {A B : Type 0}
    → (provider : String) (command : Command) (p : Task A) (f : A → Task B)
    → Always (guard provider command) Clears unread p
    → Guarded provider command (p >>= f)
unfolding Guarded
Clears-Guarded provider command p f h =
    Always-bind (guard provider command) (λ n o. Unit {0}) unread p f
      (Always-weaken (guard provider command) Clears
        (After (guard provider command) (λ n o. Unit {0}) f) unread p
        (Clears-After provider command f) h)

cleared_if : (b : Bool) → not b ≡ false → (if b then cleared else unfenced) ≡ cleared
cleared_if true e = refl
cleared_if false e = ground arith

inspect_owned-Clears :
    (title provider : String) (command : Command) (name : String)
    → Always (guard provider command) Clears unfenced (inspect_owned title provider command name)
unfolding inspect_owned permits clear Always
inspect_owned-Clears title provider command name =
    let R = guard provider command in
    Always-perform R Clears unfenced (report Phase.inspecting_runtime 22 _) _ refl
      (λ _.
        Always-perform R Clears unfenced (inspect name) _ refl
          (λ existing.
            Always-throw_if R Clears _ (not (is_ours provider existing command)) _ _ tt
              (cleared_if (is_ours provider existing command)))
          (λ e. tt))
      (λ e. tt)

unfenced_if :
    (same fenced : Bool)
    → same ≡ true
    → fenced ≡ false
    → (if same && not fenced then unfenced else unread) ≡ unfenced
unfenced_if true false s f = refl
unfenced_if same true s f = ground arith
unfenced_if false false s f = ground arith

pass_fence-Clears :
    (title provider : String) (name_of : Task String) (command : Command)
    → IsSilent name_of
    → Always (guard provider command) Clears unread (pass_fence title provider name_of command)
unfolding pass_fence permits clear
pass_fence-Clears title provider name_of command silent =
    let R = guard provider command in
    Always-perform R Clears unread (get_command command.endpoint_id) _ refl
      (λ previous. Always-throw_if R Clears _ (is_fenced previous command) _ _ tt (λ e.
        silent-Always provider command _ name_of _ Clears silent (λ e. tt)
          (λ name.
            subst (λ m. Always R Clears m (inspect_owned title provider command name))
              (sym (
                unfenced_if (command.endpoint_id == command.endpoint_id)
                  (is_fenced previous command) (eq_refl command.endpoint_id) e))
              (inspect_owned-Clears title provider command name))))
      (λ e. tt)

Quiet-After :
    (title provider : String) (name_of : Task String) (command : Command)
    → IsSilent name_of
    → (n : Clearance) (o : Outcome (Unit {0})) → Quiet unread n o
    → After (guard provider command) Clears (λ _. pass_fence title provider name_of command) n o
Quiet-After title provider name_of command silent n (finished a) q =
    subst
      (λ m. Always (guard provider command) Clears m (pass_fence title provider name_of command))
      (sym q) (pass_fence-Clears title provider name_of command silent)
Quiet-After title provider name_of command silent n (failed e) q = tt

-- Whatever the calls answer, the beginning ends in clearance or in an exception.
pub begin_apply-Clears :
    (title provider : String) (allowed : Bool) (load : Task (Unit {0})) (name_of : Task String)
    (command : Command)
    → Always (guard provider command) (Quiet unread) unread load
    → IsSilent name_of
    → Always
        (guard provider command)
        Clears
        unread
        (begin_apply title provider allowed load name_of command)
unfolding begin_apply permits clear
begin_apply-Clears title provider allowed load name_of command quiet silent =
    let R = guard provider command in
    Always-throw_if R Clears unread (not allowed) _ _ tt (λ e.
      Always-perform R Clears unread (report Phase.inspecting_runtime 20 _) _ refl
        (λ _. Always-bind R Clears unread load _ (
          Always-weaken R (Quiet unread) (After R Clears _) unread load
            (Quiet-After title provider name_of command silent) quiet))
        (λ e. tt))
