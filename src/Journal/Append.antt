-- ===== src/Journal/Append.antt =====
-- `append` and the three `record` methods of packages/agent-journal/src/index.ts: an event is
-- applied to a copy, written to the file, synced, and only then kept. A writer that fails poisons
-- the journal. `serialize` and `close` are in Journal/Queue.
pub mod Writing
pub mod Outcomes
use botroost.Prelude.{
  ℕ, zero, suc, ◌+◌, String, Bool, true, false, not, ◌&&◌, Option, none, some, List, [], ◌∷◌, ◌++◌,
  ◌==◌, text_test, if◌then◌else◌, length, take, drop, Assoc, lookup,
}
use botroost.Json.{Fields}
use botroost.Journal.Canonical.{equal}
use botroost.Journal.{
  JournalEntry, Event, receipt_event, effect_event, result_event, Error, Result, ok, err, Entries,
  entry_at, Member, effect_at, equal_member, apply, ◌>>=◌, ◌>>◌, guard, invalid_event, no_progress,
  write_failed, sync_failed, receipt_differs, effect_differs, result_differs,
}

-- What one line decodes to: `JSON.parse` may refuse it, and so may `EventSchema.parse`.
pub data Decoded : Type 0 where
  not_json not_event : Decoded
  an_event : Event → Decoded

-- `Buffer.from(JSON.stringify(event), "utf8")`, and back.
pub record Codec : Type 0 where
  pub encode : Event → List ℕ
  pub decode : List ℕ → Decoded

-- How one call of the writer ends: with the count of bytes that it reports, or by an exception
-- after that many bytes have reached the file.
pub data Written : Type 0 where
  wrote threw : ℕ → Written

-- The writer during one `append`: the end of its n-th call, for the bytes that are left, and
-- whether `sync` succeeds.
pub record Writer : Type 0 where
  pub write : ℕ → List ℕ → Written
  pub synced : Bool

pub record FileAgentJournal : Type 0 where
  pub entries : Entries
  pub file : List ℕ
  pub poisoned : Bool
  pub closed : Bool

pub data WriteEnd : Type 0 where
  all_written stalled failed out_of_fuel : WriteEnd

-- The loop `while (offset < bytes.length)`; `rest` is what stands from `offset` on.
unfoldable pub write_all : ℕ → (ℕ → List ℕ → Written) → ℕ → List ℕ → List ℕ → WriteEnd × List ℕ
write_all fuel write call [] file = (all_written, file)
write_all zero write call (b ∷ rest) file = (out_of_fuel, file)
write_all (suc fuel) write call (b ∷ rest) file = elim (write call (b ∷ rest)) [
  | wrote zero ↦ (stalled, file)
  | wrote (suc n) ↦
      write_all fuel write (suc call) (drop (suc n) (b ∷ rest)) (file ++ take (suc n) (b ∷ rest))
  | threw n ↦ (failed, file ++ take n (b ∷ rest))
]

abbrev is_nonempty : String → Bool
is_nonempty s = not (s == "")

-- `EventSchema.parse`: no id is empty.
unfoldable pub is_valid : Event → Bool
is_valid (receipt_event id payload) = is_nonempty id
is_valid (effect_event id effect payload) = is_nonempty id && is_nonempty effect
is_valid (result_event id payload) = is_nonempty id

-- The newline that ends a record.
abbrev pub newline : ℕ
newline = 10

abbrev pub line : Codec → Event → List ℕ
line codec event = codec.encode event ++ newline ∷ []

-- `entries.get(receiptId)?.effects[effectId]`
abbrev pub effect_in : Option JournalEntry → String → Option Member
effect_in none effect = none
effect_in (some entry) effect = effect_at effect entry.effects

module _ (codec : Codec) where
  -- After the loop: `sync`, then the copy replaces the entries; a failure poisons the journal.
  settle :
      WriteEnd × List ℕ → Bool → Entries → FileAgentJournal → Result (Unit {0}) × FileAgentJournal
  settle (all_written, file) true copy s = (ok tt, record s { entries = copy; file = file })
  settle (all_written, file) false copy s =
      (err sync_failed, record s { file = file; poisoned = true })
  settle (stalled, file) synced copy s =
      (err no_progress, record s { file = file; poisoned = true })
  settle (failed, file) synced copy s =
      (err write_failed, record s { file = file; poisoned = true })
  settle (out_of_fuel, file) synced copy s =
      (err no_progress, record s { file = file; poisoned = true })

  unfoldable pub commit :
      Writer → Event → Entries → FileAgentJournal → Result (Unit {0}) × FileAgentJournal
  unfolding settle write_all
  commit w event copy s =
      settle (write_all (length (line codec event)) w.write 0 (line codec event) s.file) w.synced
        copy s

  checked : Event → FileAgentJournal → Result Entries
  unfolding is_valid
  checked event s = do guard (is_valid event) invalid_event; apply s.entries event

  abbrev commit_or_throw :
      Writer → Event → FileAgentJournal → Result Entries → Result (Unit {0}) × FileAgentJournal
  commit_or_throw w event s (ok copy) = commit w event copy s
  commit_or_throw w event s (err e) = (err e, s)

  unfoldable pub append : Writer → Event → FileAgentJournal → Result (Unit {0}) × FileAgentJournal
  unfolding checked
  append w event s = commit_or_throw w event s (checked event s)

  -- What a `record` method does where it finds an earlier record: nothing, or it throws.
  abbrev settled : Bool → Error → FileAgentJournal → Result (Unit {0}) × FileAgentJournal
  settled same e s = (guard same e, s)

  unfoldable pub record_receipt :
      Writer → String → Fields → FileAgentJournal → Result (Unit {0}) × FileAgentJournal
  record_receipt w id payload s = elim (entry_at id s.entries).receipt [
    | some existing ↦ settled (equal existing payload) receipt_differs s
    | none ↦ append w (receipt_event id payload) s
  ]

  unfoldable pub record_effect :
      Writer → String → String → Fields → FileAgentJournal → Result (Unit {0}) × FileAgentJournal
  record_effect w id effect payload s = elim (effect_in (lookup id s.entries) effect) [
    | some existing ↦ settled (equal_member existing payload) effect_differs s
    | none ↦ append w (effect_event id effect payload) s
  ]

  unfoldable pub record_result :
      Writer → String → Fields → FileAgentJournal → Result (Unit {0}) × FileAgentJournal
  record_result w id payload s = elim (entry_at id s.entries).result [
    | some existing ↦ settled (equal existing payload) result_differs s
    | none ↦ append w (result_event id payload) s
  ]
