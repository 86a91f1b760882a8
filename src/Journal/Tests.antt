-- ===== src/Journal/Tests.antt =====
-- The journal's theorems at a small history, and runs of the journal.
use Prim.Native.String.{String}
use botroost.Prelude.{
  ℕ, ◌≡◌, refl, ◌≢◌, true, false, List, [], ◌∷◌, ◌++◌, ◌==◌, number_test, text_test, if◌then◌else◌,
  arith, eq_iff, lookup, insert, some, none,
}
use botroost.Json.{Fields, end, field, num, null}
use botroost.Journal.Canonical.{equal}
use botroost.Journal.Canonical.Order.{exchange, equal_of_Same}
use botroost.Journal.{
  JournalEntry, Event, receipt_event, effect_event, result_event, ok, err, apply, apply_all,
  apply_entry, effect_at, entry_at, guard, corrupt_record, journal_poisoned, is_method,
}
use botroost.Journal.Rules.{AllOrdered}
use botroost.Journal.Once.{Grows, apply_all-Grows, history-AllOrdered, method_effects_refused}
use botroost.Journal.Append.{
  Codec, Decoded, not_json, an_event, wrote, threw, Writer, FileAgentJournal, append, commit,
  write_all, newline, is_valid, record_receipt,
}
use botroost.Journal.Append.Writing.{Ends, write_all-Ends}
use botroost.Journal.Append.Outcomes.{Ended, append-Ended}
use botroost.Journal.Open.{open_file}
use botroost.Journal.Open.Lines.{log_bytes}
use botroost.Journal.Open.Recovery.{Codes, open_file-log_bytes}
use botroost.Journal.Open.Durable.{IsDurable, Reopens}
use botroost.Journal.Open.Corruption.{torn_hides_corruption}
use botroost.Journal.Queue.{
  receipt, conflict, event_of, perform, Queued, Call, submit, start, run_next,
}
use botroost.Journal.Queue.Again.{perform_again}
use botroost.Journal.Queue.Safety.{submits, runs, Reach, here, next, Reach-Reopens}
use botroost.Journal.Queue.Stopped.{poisoned_for_good}

abbrev two_members : Fields
two_members = field "a" null (field "b" (num "1") end)

abbrev other_order : Fields
other_order = field "b" (num "1") (field "a" null end)

a_ne_b : ◌≢◌ {A = String} "a" "b"
a_ne_b = ground (arith, eq_iff "a" "b")

equal_of_Same_example : equal two_members other_order ≡ true
equal_of_Same_example = equal_of_Same (exchange null (num "1") end a_ne_b)

abbrev first_receipt : Event
first_receipt = receipt_event "r" end

abbrev first_effect : Event
first_effect = effect_event "r" "start" end

abbrev history : List Event
history = first_receipt ∷ first_effect ∷ result_event "r" end ∷ []

abbrev entry_received : JournalEntry
entry_received = record { receipt = some end; effects = []; result = none }

abbrev entry_done : JournalEntry
entry_done = record { receipt = some end; effects = ("start", end) ∷ []; result = some end }

history_runs : apply_all [] history ≡ ok (("r", entry_done) ∷ [])
unfolding apply_all apply apply_entry entry_at effect_at equal lookup insert is_method
history_runs = refl

history-AllOrdered_example : AllOrdered (("r", entry_done) ∷ [])
history-AllOrdered_example = history-AllOrdered (("r", entry_done) ∷ []) history history_runs

apply_all-Grows_example : Grows [] (("r", entry_done) ∷ [])
apply_all-Grows_example = apply_all-Grows [] (("r", entry_done) ∷ []) history history_runs

receipt_applies : apply [] first_receipt ≡ ok (("r", entry_received) ∷ [])
unfolding apply apply_entry entry_at lookup insert is_method
receipt_applies = refl

constructor_is_method : is_method "constructor" ≡ true
unfolding is_method
constructor_is_method = refl

method_effects_refused_example :
    apply (("r", entry_done) ∷ []) (effect_event "r" "constructor" end) ≢ ok []
method_effects_refused_example =
    method_effects_refused (("r", entry_done) ∷ []) [] history "r" "constructor" end history_runs
      constructor_is_method

-- One byte for each event of the history.
tiny_encode : Event → List ℕ
tiny_encode (receipt_event id payload) = 1 ∷ []
tiny_encode (effect_event id effect payload) = 2 ∷ []
tiny_encode (result_event id payload) = 3 ∷ []

tiny_decode : List ℕ → Decoded
tiny_decode (b ∷ []) =
    if b == 1
    then an_event first_receipt
    else if b == 2
    then an_event first_effect
    else if b == 3
    then an_event (result_event "r" end)
    else not_json
tiny_decode bytes = not_json

abbrev tiny : Codec
tiny = record { encode = tiny_encode; decode = tiny_decode }

Codes-first_receipt : Codes tiny first_receipt
unfolding tiny_encode tiny_decode
Codes-first_receipt = record { decoded = refl; one_line = ((omega arith), tt); not_blank = refl }

-- A writer that takes one byte at a time, and one that fails after the first byte.
abbrev slow : Writer
slow = record { write = λ call rest. wrote 1; synced = true }

abbrev broken : Writer
broken = record { write = λ call rest. threw 1; synced = true }

abbrev fresh : FileAgentJournal
fresh = record { entries = []; file = []; poisoned = false; closed = false }

abbrev received : FileAgentJournal
received = record {
  entries = ("r", entry_received) ∷ [];
  file = 1 ∷ 10 ∷ [];
  poisoned = false;
  closed = false;
}

append_slowly : append tiny slow first_receipt fresh ≡ (ok tt, received)
unfolding append commit tiny_encode write_all is_valid apply apply_entry entry_at lookup insert
    is_method
append_slowly = refl

write_all-Ends_example :
    Ends (1 ∷ 10 ∷ []) (7 ∷ []) (write_all 2 (λ call rest. wrote 1) 0 (1 ∷ 10 ∷ []) (7 ∷ []))
write_all-Ends_example =
    write_all-Ends 2 (λ call rest. wrote 1) 0 (1 ∷ 10 ∷ []) (7 ∷ []) (omega arith)

append-Ended_example :
    Ended tiny first_receipt fresh
      (append tiny broken first_receipt fresh).0
      (append tiny broken first_receipt fresh).1
append-Ended_example = append-Ended tiny broken first_receipt fresh

receipt_recorded : perform tiny slow receipt "r" end fresh ≡ (ok tt, received)
unfolding perform record_receipt append commit tiny_encode write_all is_valid apply apply_entry
    entry_at lookup insert is_method
receipt_recorded = refl

-- Another receipt waits when the first is recorded.
abbrev other_waits : Queued
other_waits = record {
  journal = received;
  pending = (record { kind = receipt; id = "other"; payload = end }) ∷ [];
}

perform_again_example :
    start tiny broken
      (record { kind = receipt; id = "r"; payload = two_members })
      (run_next tiny slow other_waits).journal
    ≡ (
      if (run_next tiny slow other_waits).journal.poisoned
          then err journal_poisoned
          else guard (equal end two_members) (conflict receipt),
      (run_next tiny slow other_waits).journal,
    )
perform_again_example =
    perform_again tiny slow broken receipt "r" end two_members fresh receipt_recorded
      (next here (runs slow))

receipts_only : apply_all [] (first_receipt ∷ []) ≡ ok (("r", entry_received) ∷ [])
unfolding apply_all apply apply_entry entry_at lookup insert is_method
receipts_only = refl

open_file-log_bytes_example :
    open_file tiny_decode (log_bytes tiny (first_receipt ∷ []) ++ 5 ∷ [])
    ≡ ok (record {
      entries = ("r", entry_received) ∷ [];
      file = log_bytes tiny (first_receipt ∷ []);
    })
open_file-log_bytes_example =
    open_file-log_bytes tiny (first_receipt ∷ []) (("r", entry_received) ∷ []) (5 ∷ [])
      (Codes-first_receipt, tt) receipts_only (omega arith, tt)

bad_line : tiny_decode (9 ∷ []) ≡ not_json
unfolding tiny_decode
bad_line = refl

torn_hides_corruption_example :
    (open_file tiny_decode (log_bytes tiny (first_receipt ∷ []) ++ (9 ∷ newline ∷ 5 ∷ []))
      ≡ ok (record {
        entries = ("r", entry_received) ∷ [];
        file = log_bytes tiny (first_receipt ∷ []) ++ (9 ∷ newline ∷ []);
      }))
    × (open_file tiny_decode (log_bytes tiny (first_receipt ∷ []) ++ (9 ∷ newline ∷ []))
        ≡ err (corrupt_record 2))
torn_hides_corruption_example =
    torn_hides_corruption tiny (first_receipt ∷ []) (("r", entry_received) ∷ []) (9 ∷ []) (5 ∷ [])
      (Codes-first_receipt, tt) receipts_only (omega arith, tt) refl bad_line (omega arith, tt) refl

abbrev idle : Queued
idle = record { journal = fresh; pending = [] }

abbrev a_call : Call
a_call = record { kind = receipt; id = "r"; payload = end }

fresh-IsDurable : IsDurable tiny fresh
unfolding apply_all log_bytes
fresh-IsDurable = record {
  events = [];
  rest = [];
  rebuilt = [];
  coded = tt;
  one_line = tt;
  file = refl;
  applied = refl;
  grows = apply_all-Grows [] [] [] refl;
  exact = λ h. (refl, refl);
}

call_fails : Reach tiny idle (run_next tiny broken (submit a_call idle).1)
unfolding event_of
call_fails = next (next here (submits a_call Codes-first_receipt)) (runs broken)

Reach-Reopens_example : Reopens tiny (run_next tiny broken (submit a_call idle).1).journal
Reach-Reopens_example =
    Reach-Reopens tiny (record { durable = fresh-IsDurable; coded = tt }) call_fails

abbrev poisoned : Queued
poisoned = record {
  journal = record fresh { poisoned = true; file = 1 ∷ [] };
  pending = a_call ∷ [];
}

poisoned_for_good_example :
    ((run_next tiny slow poisoned).journal.poisoned ≡ true)
    × ((run_next tiny slow poisoned).journal.entries ≡ [])
    × ((run_next tiny slow poisoned).journal.file ≡ 1 ∷ [])
poisoned_for_good_example = poisoned_for_good tiny {q = poisoned} refl (next here (runs slow))

abbrev shut : Queued
shut = record { journal = record fresh { closed = true }; pending = [] }
