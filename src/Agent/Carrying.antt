-- ===== src/Agent/Carrying.antt =====
-- The calls of the `try` and the `catch` of pollOnce, in apps/agent/src/index.ts.
use botroost.Prelude.{String, true, Option, none, some, text_test, ◌≡◌, refl, sym, subst}
use botroost.Json.{Fields}
use botroost.Programs.{return, ◌>>=◌, given}
use botroost.Programs.Runs.{
  Outcome, finished, failed, Always, After, Always-bind, Always-weaken, Always-perform, Always-last,
  Always-throw_if, Stays-bind, Always-catch, Handled, Stays,
}
use botroost.Agent.{Claim, Agent, Task, get_entry, record_effect, record_result, apply}
use botroost.Agent.Runtimes.{call_of, runtime_for}
use botroost.Agent.Poll.{
  effect_id_of, effect_in, check_fence, applied_effect, keep_effect, carry_out, give_up, settle,
  succeeded, failed_result,
}
use botroost.Agent.Order.{
  Stage, unanswered, pending, performed, settled, is_live, after_result, after_effect, learn,
  advance, InOrder, order, runtime_for-Stays, check_fence-Stays,
}

-- A part that ends with the effect known, or in an exception before a result.
abbrev pub Lands : {A : Type 0} → Stage → Outcome A → Type 0
Lands n (finished a) = n ≡ performed
Lands n (failed e) = is_live n ≡ true

-- A part that ends with the result in the journal, or in an exception before it.
abbrev pub Carried : Stage → Outcome Fields → Type 0
Carried n (finished result) = n ≡ settled result
Carried n (failed e) = is_live n ≡ true

-- A part that ends with the result in the journal, if it ends without an exception.
abbrev pub IsSettled : Stage → Outcome Fields → Type 0
IsSettled n (finished result) = n ≡ settled result
IsSettled n (failed e) = Unit

pub Lands-After :
    {A : Type 0} (command : Claim) (f : A → Task Fields)
    → ((a : A) → Always (order command) Carried performed (f a))
    → (n : Stage) (o : Outcome A) → Lands n o
    → After (order command) Carried f n o
Lands-After command f goes_on n (finished a) e =
    subst (λ m. Always (order command) Carried m (f a)) (sym e) (goes_on a)
Lands-After command f goes_on n (failed message) e = e

pub applied_effect-Lands :
    (runtime : String) (command : Claim)
    → Always (order command) Lands unanswered (applied_effect runtime command)
unfolding applied_effect InOrder advance learn is_live after_effect given Always
applied_effect-Lands runtime command =
    Always-perform (order command) Lands unanswered (get_entry command.command_id) _ refl
      (λ entry. choose (effect_in command entry)) (λ e. refl)
  where
    choose :
        (x : Option Fields)
        → Always (order command) Lands (after_effect x) (
            given x
              (call_of (apply runtime (effect_id_of command) command))
              (λ effect. return (some effect)))
    choose none =
        Always-last (order command) (apply runtime (effect_id_of command) command) Lands pending
          (refl, (refl, refl)) (λ a. refl) (λ e. refl)
    choose (some effect) = refl

pub keep_effect-Stays :
    (command : Claim) (applied : Option Fields)
    → Always
        (order command)
        (Stays (order command) performed)
        performed
        (keep_effect command applied)
unfolding keep_effect InOrder advance given Always
keep_effect-Stays command none = refl
keep_effect-Stays command (some effect) =
    Always-last (order command) (record_effect command.command_id (effect_id_of command) effect)
      (Stays (order command) performed) performed (refl, (refl, refl)) (λ a. refl) (λ e. refl)

pub record_result-Carried :
    (command : Claim) (m : Stage) (result : Fields)
    → is_live m ≡ true
    → Always
        (order command)
        Carried
        m
        (call_of (record_result command.command_id result) >>= λ _. return result)
unfolding Always InOrder advance
record_result-Carried command m result live =
    Always-perform (order command) Carried m (record_result command.command_id result) _
      (refl, live) (λ a. refl) (λ e. live)

pub carry_out-Carried :
    (agent : Agent) (command : Claim)
    → Always (order command) Carried unanswered (carry_out agent command)
unfolding carry_out is_live
carry_out-Carried agent command =
    let R = order command in
    Stays-bind R Carried unanswered (runtime_for agent command) _
      (runtime_for-Stays agent command unanswered)
      (λ runtime. Always-bind R Carried unanswered (applied_effect runtime command) _ (
        Always-weaken R Lands (After R Carried _) unanswered (applied_effect runtime command)
          (Lands-After command _ (λ applied. performed-Carried applied))
          (applied_effect-Lands runtime command)))
      (λ e. refl)
  where
    performed-Carried :
        (applied : Option Fields)
        → Always (order command) Carried performed (
            check_fence >>= λ _. keep_effect command applied >>= λ _. check_fence >>= λ _.
            call_of (record_result command.command_id (succeeded command applied)) >>= λ _.
            return (succeeded command applied))
    performed-Carried applied =
        Stays-bind (order command) Carried performed check_fence _
          (check_fence-Stays command performed)
          (λ _.
            Stays-bind (order command) Carried performed (keep_effect command applied) _
              (keep_effect-Stays command applied)
              (λ _.
                Stays-bind (order command) Carried performed check_fence _
                  (check_fence-Stays command performed)
                  (λ _. record_result-Carried command performed (succeeded command applied) refl)
                  (λ e. refl))
              (λ e. refl))
          (λ e. refl)

pub give_up-IsSettled :
    (agent : Agent) (command : Claim) (m : Stage) (e : String)
    → is_live m ≡ true
    → Always (order command) IsSettled m (give_up agent command e)
unfolding give_up InOrder advance
give_up-IsSettled agent command m e live =
    let R = order command in
    Stays-bind R IsSettled m check_fence _ (check_fence-Stays command m)
      (λ _. Always-throw_if R IsSettled m (agent.errors.is_fence e) e _ tt (λ _.
        Always-throw_if R IsSettled m (agent.errors.is_transient e) e _ tt (λ _.
          let result = failed_result command (agent.errors.safe e) in
          Always-weaken R Carried IsSettled m
            (call_of (record_result command.command_id result) >>= λ _. return result)
            Carried-IsSettled (record_result-Carried command m result live))))
      (λ e. tt)
  where
    Carried-IsSettled : (n : Stage) (o : Outcome Fields) → Carried n o → IsSettled n o
    Carried-IsSettled n (finished result) h = h
    Carried-IsSettled n (failed message) h = tt

pub Carried-Handled :
    (agent : Agent) (command : Claim) (n : Stage) (o : Outcome Fields)
    → Carried n o
    → Handled (order command) IsSettled (give_up agent command) n o
Carried-Handled agent command n (finished result) h = h
Carried-Handled agent command n (failed e) h = give_up-IsSettled agent command n e h

pub settle-IsSettled :
    (agent : Agent) (command : Claim) (stored : Option Fields)
    → Always (order command) IsSettled (after_result stored) (settle agent command stored)
unfolding settle after_result Always
settle-IsSettled agent command (some result) = refl
settle-IsSettled agent command none =
    Always-catch (order command) IsSettled unanswered (carry_out agent command) _ (
      Always-weaken (order command) Carried
        (Handled (order command) IsSettled (give_up agent command)) unanswered
        (carry_out agent command) (Carried-Handled agent command) (carry_out-Carried agent command))
