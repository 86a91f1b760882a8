-- ===== src/Agent/Order.antt =====
-- A rule on the calls that pollOnce of apps/agent/src/index.ts makes for a claimed command, from what
-- the journal has answered.
use botroost.Prelude.{
  Bool, true, false, Option, none, some, text_test, ◌≡◌, refl, if◌then◌else◌, arith,
}
use botroost.Json.{Fields}
use botroost.Journal.{JournalEntry}
use botroost.Programs.{Answer, gave}
use botroost.Programs.Only.{Only, only_rules}
use botroost.Programs.Runs.{Rule, Always, Stays, Only-Stays}
use botroost.Agent.{
  Claim, Agent, Op, Reply, Task, now, get_last, has_runtimes, active_runtimes, claim, heartbeat,
  observe, fence_error, set_last, get_entry, get_runtime, make_runtime, set_runtime, record_receipt,
  send_receipt, send_result, record_effect, record_result, send_progress, apply,
}
use botroost.Agent.Runtimes.{runtime_for, runtime_by_provider, fall_back, create_runtime}
use botroost.Agent.Poll.{
  receipt_of, effect_id_of, has_receipt, result_in, effect_in, check_fence, outgoing,
}

-- What is known of the journal's entry: nothing, a receipt, no result, no effect either, an effect
-- or an attempt at one, and a result.
pub data Stage : Type 0 where
  fresh received unanswered pending performed : Stage
  settled : Fields → Stage

unfoldable pub has_begun : Stage → Bool
has_begun fresh = false
has_begun _ = true

unfoldable pub is_live : Stage → Bool
is_live unanswered = true
is_live pending = true
is_live performed = true
is_live _ = false

abbrev pub Has : Stage → Claim → Fields → Type 0
Has (settled result) command payload = payload ≡ outgoing command result
Has _ command payload = false ≡ true

unfoldable pub after_result : Option Fields → Stage
after_result none = unanswered
after_result (some result) = settled result

unfoldable pub after_effect : Option Fields → Stage
after_effect none = pending
after_effect (some effect) = performed

-- What an entry that is read tells.
unfoldable pub learn : Claim → Option JournalEntry → Stage → Stage
unfolding after_result after_effect
learn command entry fresh = if has_receipt entry then received else fresh
learn command entry received = after_result (result_in entry)
learn command entry unanswered = after_effect (effect_in command entry)
learn command entry m = m

unfoldable pub advance : Claim → Stage → (op : Op) → Answer (Reply op) → Stage
unfolding learn
advance command m (get_entry id) (gave entry) = learn command entry m
advance command m (record_receipt id payload) (gave done) = received
advance command m (apply runtime effect_id claimed) r = performed
advance command m (record_result id result) (gave done) = settled result
advance command m op r = m

-- The calls that are in order. A runtime is asked only when the journal has neither a result nor the
-- effect, and is asked once; a result is sent only when the journal has it, and as it is there.
unfoldable pub InOrder : Claim → Stage → Op → Type 0
unfolding has_begun is_live
InOrder command m (get_entry id) = id ≡ command.command_id
InOrder command m (record_receipt id payload) =
    (id ≡ command.command_id) × ((payload ≡ receipt_of command) × (m ≡ fresh))
InOrder command m (send_receipt id payload) =
    (id ≡ command.command_id) × ((payload ≡ receipt_of command) × (has_begun m ≡ true))
InOrder command m (send_progress id sequence progress) = has_begun m ≡ true
InOrder command m (apply runtime effect_id claimed) =
    (m ≡ pending) × ((effect_id ≡ effect_id_of command) × (claimed ≡ command))
InOrder command m (record_effect id effect_id effect) =
    (id ≡ command.command_id) × ((effect_id ≡ effect_id_of command) × (m ≡ performed))
InOrder command m (record_result id result) = (id ≡ command.command_id) × (is_live m ≡ true)
InOrder command m (send_result id payload) = (id ≡ command.command_id) × Has m command payload
InOrder command m op = Unit

abbrev pub order : Claim → Rule Op Reply
order command = record { Memory = Stage; Allows = InOrder command; watch = advance command }

-- The calls that look for a runtime, and the reading of the fence.
unfoldable pub is_aside : Op → Bool
is_aside (get_runtime provider) = true
is_aside (make_runtime provider) = true
is_aside (set_runtime provider runtime) = true
is_aside fence_error = true
is_aside _ = false

pub aside-InOrder :
    (command : Claim) (m : Stage) (op : Op)
    → is_aside op ≡ true
    → InOrder command m op × ((r : Answer (Reply op)) → advance command m op r ≡ m)
unfolding is_aside InOrder advance
aside-InOrder command m fence_error e = (tt, λ r. refl)
aside-InOrder command m (get_runtime s) e = (tt, λ r. refl)
aside-InOrder command m (make_runtime s) e = (tt, λ r. refl)
aside-InOrder command m (set_runtime s t) e = (tt, λ r. refl)
aside-InOrder command m now e = ground arith
aside-InOrder command m get_last e = ground arith
aside-InOrder command m has_runtimes e = ground arith
aside-InOrder command m active_runtimes e = ground arith
aside-InOrder command m claim e = ground arith
aside-InOrder command m (set_last t) e = ground arith
aside-InOrder command m (heartbeat l) e = ground arith
aside-InOrder command m (observe s) e = ground arith
aside-InOrder command m (get_entry s) e = ground arith
aside-InOrder command m (record_receipt s p) e = ground arith
aside-InOrder command m (send_receipt s p) e = ground arith
aside-InOrder command m (send_result s p) e = ground arith
aside-InOrder command m (record_effect s t p) e = ground arith
aside-InOrder command m (record_result s p) e = ground arith
aside-InOrder command m (send_progress s n p) e = ground arith
aside-InOrder command m (apply s t c) e = ground arith

-- Programs of such calls go on at the stage at which they begin.
pub aside-Stays :
    {A : Type 0} (command : Claim) (m : Stage) (p : Task A)
    → Only Op Reply is_aside p
    → Always (order command) (Stays (order command) m) m p
aside-Stays command m p h =
    Only-Stays (order command) is_aside m (λ op e. (aside-InOrder command m op e).0)
      (λ op r e. (aside-InOrder command m op e).1 r) p h

pub runtime_for-Stays :
    (agent : Agent) (command : Claim) (m : Stage)
    → Always (order command) (Stays (order command) m) m (runtime_for agent command)
unfolding runtime_for runtime_by_provider fall_back create_runtime is_aside
runtime_for-Stays agent command m =
    aside-Stays command m (runtime_for agent command) (search only_rules depth 40)

pub check_fence-Stays :
    (command : Claim) (m : Stage) → Always (order command) (Stays (order command) m) m check_fence
unfolding check_fence is_aside
check_fence-Stays command m = aside-Stays command m check_fence (search only_rules depth 20)
