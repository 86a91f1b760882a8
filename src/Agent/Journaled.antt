-- ===== src/Agent/Journaled.antt =====
-- pollOnce of apps/agent/src/index.ts with the journal of packages/agent-journal/src/index.ts: what
-- the poll believes of the journal's entry, and what is there.
use botroost.Prelude.{
  String, Bool, true, false, Option, none, some, ◌≡◌, refl, sym, subst, arith, lookup,
  if◌then◌else◌, text_test,
}
use botroost.Json.{Fields}
use botroost.Journal.{
  JournalEntry, ok, empty_entry, is_some, apply_receipt, apply_effect, apply_result,
}
use botroost.Programs.{Answer, gave, return, throw, call}
use botroost.Programs.Runs.{Always}
use botroost.Agent.{
  Claim, Agent, Op, Reply, Task, get_entry, record_receipt, send_result, record_effect,
  record_result, apply,
}
use botroost.Agent.Poll.{has_receipt, result_in, effect_in, effect_id_of, outgoing, work}
use botroost.Agent.Order.{
  Stage, fresh, received, unanswered, pending, performed, settled, is_live, Has, after_result,
  after_effect, learn, advance, InOrder, order,
}
use botroost.Agent.Orderly.{Answered, has_settled, work-Answered}

-- What a stage says of the entry.
unfoldable pub Describes : Claim → Stage → JournalEntry → Type 0
unfolding effect_id_of
Describes command fresh entry = Unit
Describes command received entry = is_some entry.receipt ≡ true
Describes command unanswered entry = (is_some entry.receipt ≡ true) × (entry.result ≡ none)
Describes command pending entry =
    (is_some entry.receipt ≡ true)
    × ((entry.result ≡ none) × (lookup (effect_id_of command) entry.effects ≡ none))
Describes command performed entry = (is_some entry.receipt ≡ true) × (entry.result ≡ none)
Describes command (settled result) entry = entry.result ≡ some result

-- How a call of the journal answers and what it makes of the entry. A method that throws leaves the
-- entry, and no other call changes it.
unfoldable pub Answers : (op : Op) → Answer (Reply op) → JournalEntry → JournalEntry → Type 0
unfolding apply_receipt apply_effect apply_result
Answers (get_entry id) (gave (some found)) entry next = (found ≡ entry) × (next ≡ entry)
Answers (get_entry id) (gave none) entry next = (entry ≡ empty_entry) × (next ≡ entry)
Answers (record_receipt id payload) (gave done) entry next = apply_receipt payload entry ≡ ok next
Answers (record_effect id effect_id effect) (gave done) entry next =
    apply_effect effect_id effect entry ≡ ok next
Answers (record_result id result) (gave done) entry next = apply_result result entry ≡ ok next
Answers op r entry next = next ≡ entry

after_result-Describes :
    (command : Claim) (entry : JournalEntry) (stored : Option Fields)
    → entry.result ≡ stored
    → is_some entry.receipt ≡ true
    → Describes command (after_result stored) entry
unfolding Describes after_result
after_result-Describes command entry none e h = (h, e)
after_result-Describes command entry (some result) e h = e

after_effect-Describes :
    (command : Claim) (entry : JournalEntry) (effect : Option Fields)
    → lookup (effect_id_of command) entry.effects ≡ effect
    → Describes command unanswered entry
    → Describes command (after_effect effect) entry
unfolding Describes after_effect
after_effect-Describes command entry none e h = (h.0, (h.1, e))
after_effect-Describes command entry (some effect) e h = h

has_receipt-Describes :
    (command : Claim) (entry : JournalEntry) (has : Bool)
    → is_some entry.receipt ≡ has
    → Describes command (if has then received else fresh) entry
unfolding Describes
has_receipt-Describes command entry true e = e
has_receipt-Describes command entry false e = tt

-- Reading the entry.
found-Describes :
    (command : Claim) (m : Stage) (entry : JournalEntry)
    → Describes command m entry
    → Describes command (learn command (some entry) m) entry
unfolding Describes learn result_in effect_in
found-Describes command fresh entry h =
    has_receipt-Describes command entry (has_receipt (some entry)) refl
found-Describes command received entry h = after_result-Describes command entry entry.result refl h
found-Describes command unanswered entry h =
    after_effect-Describes command entry (lookup (effect_id_of command) entry.effects) refl h
found-Describes command pending entry h = h
found-Describes command performed entry h = h
found-Describes command (settled result) entry h = h

missing-Describes :
    (command : Claim) (m : Stage) (entry : JournalEntry)
    → entry ≡ empty_entry
    → Describes command m entry
    → Describes command (learn command none m) entry
unfolding Describes learn result_in effect_in after_result after_effect lookup
missing-Describes command fresh entry e h = tt
missing-Describes command received entry e h = (h, rw e)
missing-Describes command unanswered entry e h = (h.0, (h.1, rw e))
missing-Describes command pending entry e h = h
missing-Describes command performed entry e h = h
missing-Describes command (settled result) entry e h = h

live-Describes :
    (command : Claim) (m : Stage) (entry : JournalEntry)
    → is_live m ≡ true
    → Describes command m entry
    → (is_some entry.receipt ≡ true) × (entry.result ≡ none)
unfolding Describes is_live
live-Describes command fresh entry e h = ground arith
live-Describes command received entry e h = ground arith
live-Describes command unanswered entry e h = h
live-Describes command pending entry e h = (h.0, h.1.0)
live-Describes command performed entry e h = h
live-Describes command (settled result) entry e h = ground arith

receipt-recorded :
    (payload : Fields) (entry next : JournalEntry)
    → apply_receipt payload entry ≡ ok next
    → is_some next.receipt ≡ true
unfolding apply_receipt
receipt-recorded payload entry next e = ground arith

effect-recorded :
    (id : String) (payload : Fields) (entry next : JournalEntry)
    → apply_effect id payload entry ≡ ok next
    → (is_some next.receipt ≡ true) × (next.result ≡ none)
unfolding apply_effect
effect-recorded id payload entry next e = (ground arith, ground arith)

result-recorded :
    (payload : Fields) (entry next : JournalEntry)
    → apply_result payload entry ≡ ok next
    → entry.result ≡ none
    → next.result ≡ some payload
unfolding apply_result
result-recorded payload entry next e h = ground arith

-- A call in order, as the journal answers it, leaves what the stage says true.
advance-Describes :
    (command : Claim) (m : Stage) (op : Op) (r : Answer (Reply op)) (entry next : JournalEntry)
    → InOrder command m op
    → Describes command m entry
    → Answers op r entry next
    → Describes command (advance command m op r) next
unfolding InOrder Answers advance Describes
advance-Describes command m (get_entry id) (gave (some found)) entry next i d a =
    subst (λ n. Describes command (learn command (some found) m) n) (sym a.1)
      (subst (λ f. Describes command (learn command (some f) m) entry) (sym a.0)
        (found-Describes command m entry d))
advance-Describes command m (get_entry id) (gave none) entry next i d a =
    subst (λ n. Describes command (learn command none m) n) (sym a.1)
      (missing-Describes command m entry a.0 d)
advance-Describes command m (record_receipt id payload) (gave done) entry next i d a =
    receipt-recorded payload entry next a
advance-Describes command m (record_effect id effect_id effect) (gave done) entry next i d a =
    subst (λ k. Describes command k next) (sym i.1.1)
      (effect-recorded effect_id effect entry next a)
advance-Describes command m (record_result id result) (gave done) entry next i d a =
    result-recorded result entry next a (live-Describes command m entry i.1 d).1
advance-Describes command m (apply runtime effect_id claimed) r entry next i d a =
    let p = subst (λ k. Describes command k entry) i.0 d in
    subst (λ n. Describes command performed n) (sym a) (p.0, p.1.0)
advance-Describes command m op r entry next i d a = subst (λ n. Describes command m n) (sym a) d

-- What a poll may rely on at a call, of the entry that is in the journal: a runtime is asked to
-- apply the command only while the entry has a receipt, no result and not the effect, and the
-- result that is sent is the entry's.
unfoldable pub Holds : Claim → JournalEntry → Op → Type 0
unfolding effect_id_of outgoing
Holds command entry (apply runtime effect_id claimed) =
    (is_some entry.receipt ≡ true)
    × ((entry.result ≡ none) × (lookup (effect_id_of command) entry.effects ≡ none))
Holds command entry (send_result id payload) =
    (result : Fields) × ((entry.result ≡ some result) × (payload ≡ outgoing command result))
Holds command entry op = Unit

-- A program whose calls of the journal are answered by an entry as it is, and change it: at each
-- call the above holds, and if the program ends without an exception the entry has a result.
unfoldable pub Journaled : {A : Type 0} → Claim → JournalEntry → Task A → Type 0
unfolding Holds Answers
Journaled command entry (return a) = is_some entry.result ≡ true
Journaled command entry (throw e) = Unit
Journaled command entry (call op k) =
    Holds command entry op
    × ((r : Answer (Reply op)) (next : JournalEntry)
        → Answers op r entry next
        → Journaled command next (k r))

sent-Holds :
    (command : Claim) (m : Stage) (payload : Fields) (entry : JournalEntry)
    → Has m command payload
    → Describes command m entry
    → (result : Fields) × ((entry.result ≡ some result) × (payload ≡ outgoing command result))
unfolding Describes
sent-Holds command fresh payload entry h d = ground arith
sent-Holds command received payload entry h d = ground arith
sent-Holds command unanswered payload entry h d = ground arith
sent-Holds command pending payload entry h d = ground arith
sent-Holds command performed payload entry h d = ground arith
sent-Holds command (settled result) payload entry h d = (result, (d, h))

InOrder-Holds :
    (command : Claim) (m : Stage) (op : Op) (entry : JournalEntry)
    → InOrder command m op
    → Describes command m entry
    → Holds command entry op
unfolding InOrder Holds Describes
InOrder-Holds command m (apply runtime effect_id claimed) entry i d =
    subst (λ k. Describes command k entry) i.0 d
InOrder-Holds command m (send_result id payload) entry i d =
    sent-Holds command m payload entry i.1 d
InOrder-Holds command m op entry i d = tt

settled-result :
    (command : Claim) (m : Stage) (entry : JournalEntry)
    → has_settled m ≡ true
    → Describes command m entry
    → is_some entry.result ≡ true
unfolding has_settled Describes
settled-result command fresh entry h d = ground arith
settled-result command received entry h d = ground arith
settled-result command unanswered entry h d = ground arith
settled-result command pending entry h d = ground arith
settled-result command performed entry h d = ground arith
settled-result command (settled result) entry h d = rw d refl

-- An orderly program goes well with the journal.
Always-Journaled :
    (command : Claim) (m : Stage) (entry : JournalEntry) (p : Task Bool)
    → Describes command m entry
    → Always (order command) Answered m p
    → Journaled command entry p
unfolding Always Journaled
Always-Journaled command m entry (return b) d h = settled-result command m entry h d
Always-Journaled command m entry (throw e) d h = tt
Always-Journaled command m entry (call op k) d h = (
  InOrder-Holds command m op entry h.0 d,
  λ r next a.
      Always-Journaled command (advance command m op r) next (k r)
        (advance-Describes command m op r entry next h.0 d a) (h.1 r),
)

-- Whatever entry the journal has of a claimed command, and whatever else happens: pollOnce asks a
-- runtime to apply the command only while the entry has a receipt, no result and not the effect,
-- and sends a result only as the entry has it; if it ends without an exception, the entry has a
-- result. The journal is the model of its three record methods on an entry, each of which may fail
-- and leave the entry.
pub work-Journaled :
    (agent : Agent) (command : Claim) (entry : JournalEntry)
    → Journaled command entry (work agent command)
unfolding Describes
work-Journaled agent command entry =
    Always-Journaled command fresh entry (work agent command) tt (work-Answered agent command)
