-- ===== src/Agent/Orderly.antt =====
-- The order of what pollOnce of apps/agent/src/index.ts does for a claimed command.
use botroost.Prelude.{
  String, Bool, true, false, not, none, text_test, ◌≡◌, refl, if◌then◌else◌, sym, subst,
}
use botroost.Json.{Fields}
use botroost.Programs.{return, throw, ◌>>=◌, when}
use botroost.Programs.Runs.{
  Outcome, finished, failed, Always, After, Always-bind, Always-weaken, Always-perform, Always-last,
  Stays-bind, Always-catch, Handled, Stays,
}
use botroost.Agent.{
  Claim, Agent, set_last, get_entry, record_receipt, send_receipt, send_result, send_progress,
}
use botroost.Agent.Runtimes.{call_of}
use botroost.Agent.Poll.{
  receipt_of, has_receipt, result_in, check_fence, acknowledge, acknowledged, settle, outgoing,
  deliver, answer_claim, work,
}
use botroost.Agent.Order.{
  Stage, fresh, received, settled, has_begun, learn, advance, InOrder, order, check_fence-Stays,
}
use botroost.Agent.Carrying.{IsSettled, settle-IsSettled}

unfoldable pub has_settled : Stage → Bool
has_settled (settled result) = true
has_settled _ = false

-- A poll that ends without an exception has the result in the journal.
abbrev pub Answered : Stage → Outcome Bool → Type 0
Answered n (finished b) = has_settled n ≡ true
Answered n (failed e) = Unit

pub deliver-Answered :
    (command : Claim) (result : Fields)
    → Always (order command) Answered (settled result) (deliver command result)
unfolding deliver InOrder advance has_settled Always
deliver-Answered command result =
    Stays-bind (order command) Answered (settled result) check_fence _
      (check_fence-Stays command (settled result))
      (λ _.
        Always-perform (order command) Answered (settled result)
          (send_result command.command_id (outgoing command result)) _ (refl, refl) (λ _. refl)
          (λ e. tt))
      (λ e. tt)

pub settled-Answered :
    (command : Claim) (n : Stage) (o : Outcome Fields)
    → IsSettled n o
    → After (order command) Answered (deliver command) n o
settled-Answered command n (finished result) h =
    subst (λ m. Always (order command) Answered m (deliver command result)) (sym h)
      (deliver-Answered command result)
settled-Answered command n (failed e) h = tt

pub acknowledge-Stays :
    (agent : Agent) (command : Claim)
    → Always (order command) (Stays (order command) received) received (acknowledge agent command)
unfolding acknowledge InOrder advance has_begun Always
acknowledge-Stays agent command =
    Always-catch (order command) (Stays (order command) received) received _ _ (
      Always-last (order command) (send_progress command.command_id 1 (acknowledged command))
        (Handled (order command) (Stays (order command) received) _) received refl (λ _. refl)
        (λ e. either (agent.errors.is_legacy e) e))
  where
    either :
        (b : Bool) (e : String)
        → Always
            (order command)
            (Stays (order command) received)
            received
            (if b then return tt else throw e)
    either true e = refl
    either false e = refl

pub answer_claim-Answered :
    (agent : Agent) (command : Claim)
    → Always (order command) Answered received (answer_claim agent command)
unfolding answer_claim InOrder advance learn has_begun
answer_claim-Answered agent command =
    let R = order command in
    Always-perform R Answered received (send_receipt command.command_id (receipt_of command)) _
      (refl, (refl, refl))
      (λ _.
        Stays-bind R Answered received (acknowledge agent command) _
          (acknowledge-Stays agent command)
          (λ _.
            Always-perform R Answered received (get_entry command.command_id) _ refl
              (λ stored. Always-bind R Answered _ (settle agent command (result_in stored)) _ (
                Always-weaken R IsSettled (After R Answered (deliver command)) _
                  (settle agent command (result_in stored)) (settled-Answered command)
                  (settle-IsSettled agent command (result_in stored))))
              (λ e. tt))
          (λ e. tt))
      (λ e. tt)

pub receipt_first-Answered :
    (agent : Agent) (command : Claim) (has : Bool)
    → Always (order command) Answered (if has then received else fresh) (
        when (not has) (call_of (record_receipt command.command_id (receipt_of command))) >>= λ _.
        answer_claim agent command)
unfolding InOrder advance ◌>>=◌
receipt_first-Answered agent command true = answer_claim-Answered agent command
receipt_first-Answered agent command false =
    Always-perform (order command) Answered fresh
      (record_receipt command.command_id (receipt_of command)) _ (refl, (refl, refl))
      (λ _. answer_claim-Answered agent command) (λ e. tt)

-- Whatever the journal, the runtimes and the control plane answer, and whenever the fence is found
-- to be broken: pollOnce does the following for a claimed command, and only in this order. It
-- records the receipt, unless the journal has it, before it sends it; it asks a runtime to apply
-- the command only if the journal then has neither its result nor its effect, and once at most; it
-- records an effect only once the runtime has been asked or the journal has it, and a result only
-- while the journal has none; it sends a result only when the journal has it, and the one that the
-- journal has. Without an exception, it ends with the result in the journal.
pub work-Answered :
    (agent : Agent) (command : Claim) → Always (order command) Answered fresh (work agent command)
unfolding work InOrder advance learn
work-Answered agent command =
    Always-perform (order command) Answered fresh (set_last none) _ tt
      (λ _.
        Always-perform (order command) Answered fresh (get_entry command.command_id) _ refl
          (λ existing. receipt_first-Answered agent command (has_receipt existing)) (λ e. tt))
      (λ e. tt)
