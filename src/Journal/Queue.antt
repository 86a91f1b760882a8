-- ===== src/Journal/Queue.antt =====
-- `serialize`, by which the `record` methods of packages/agent-journal/src/index.ts run one at a
-- time, and the flags that `close` and a failed write set. Releasing the lock is not modelled.
pub mod Again
pub mod Safety
mod Recorded
pub mod Stopped
use botroost.Prelude.{String, Bool, true, false, List, [], ◌∷◌, ◌++◌, if◌then◌else◌}
use botroost.Json.{Fields}
use botroost.Journal.{
  Event, receipt_event, effect_event, result_event, Error, Result, ok, err, receipt_differs,
  effect_differs, result_differs, journal_closed, journal_poisoned,
}
use botroost.Journal.Append.{
  Codec, Writer, FileAgentJournal, record_receipt, record_effect, record_result,
}

pub data Kind : Type 0 where
  receipt result : Kind
  effect : String → Kind

-- A call of `recordReceipt`, `recordEffect` or `recordResult`.
pub record Call : Type 0 where
  pub kind : Kind
  pub id : String
  pub payload : Fields

unfoldable pub event_of : Kind → String → Fields → Event
event_of receipt id payload = receipt_event id payload
event_of (effect name) id payload = effect_event id name payload
event_of result id payload = result_event id payload

-- What a second record with another payload is answered.
pub conflict : Kind → Error
conflict receipt = receipt_differs
conflict (effect name) = effect_differs
conflict result = result_differs

module _ (codec : Codec) where
  unfoldable pub perform :
      Writer → Kind → String → Fields → FileAgentJournal → Result (Unit {0}) × FileAgentJournal
  perform w receipt id payload s = record_receipt codec w id payload s
  perform w (effect name) id payload s = record_effect codec w id name payload s
  perform w result id payload s = record_result codec w id payload s

-- The journal with the calls that wait for it.
pub record Queued : Type 0 where
  pub journal : FileAgentJournal
  pub pending : List Call

-- `serialize`, as far as it runs at once: it refuses, or puts the call at the end of the queue.
pub submit : Call → Queued → Result (Unit {0}) × Queued
submit call q =
    if q.journal.closed
    then (err journal_closed, q)
    else if q.journal.poisoned
    then (err journal_poisoned, q)
    else (ok tt, record q { pending = q.pending ++ call ∷ [] })

module _ (codec : Codec) where
  -- `run`: the queued call looks at `poisoned` again before it starts.
  pub start : Writer → Call → FileAgentJournal → Result (Unit {0}) × FileAgentJournal
  start w call s =
      if s.poisoned
      then (err journal_poisoned, s)
      else perform codec w call.kind call.id call.payload s

  take_next : Writer → FileAgentJournal → List Call → Queued
  unfolding start
  take_next w s [] = record { journal = s; pending = [] }
  take_next w s (call ∷ calls) = record { journal = (start w call s).1; pending = calls }

  -- The oldest call of the queue runs.
  pub run_next : Writer → Queued → Queued
  unfolding take_next
  run_next w q = take_next w q.journal q.pending

pub close : Queued → Queued
close q = record q { journal = record (q.journal) { closed = true } }
