-- ===== src/Journal/Queue/Recorded.antt =====
-- What the record methods of packages/agent-journal/src/index.ts have recorded under a kind and an
-- id.
use botroost.Prelude.{
  String, ◌≡◌, refl, sym, ap, subst, Option, none, some, arith, eq_iff, Bool-cases, lookup,
  lookup-insert, lookup-insert_self, text_test, ◌==◌, inl, inr,
}
use botroost.Json.{Fields}
use botroost.Journal.{
  JournalEntry, Event, receipt_event, effect_event, result_event, ok, Entries, entry_at, Member,
  own, effect_at, equal_member, receipt_of, apply, apply_entry, apply_effect, or_empty, guard,
}
use botroost.Journal.Rules.{apply_cases}
use botroost.Journal.Once.{apply-Grows}
use botroost.Journal.Append.{
  Codec, Writer, FileAgentJournal, append, effect_in, record_receipt, record_effect, record_result,
}
use botroost.Journal.Queue.{Kind, receipt, effect, result, event_of, conflict, perform}

abbrev own_of : Option Fields → Option Member
own_of none = none
own_of (some payload) = some (own payload)

-- What a record method finds before it appends.
unfoldable pub recorded : Kind → String → Entries → Option Member
recorded receipt id entries = own_of (entry_at id entries).receipt
recorded (effect name) id entries = effect_in (lookup id entries) name
recorded result id entries = own_of (entry_at id entries).result

own_of-some :
    (o : Option Fields) (m : Member) → own_of o ≡ some m → (p : Fields) × (o ≡ some p) × (own p ≡ m)
own_of-some none m e = absurd (ground (arith, e))
own_of-some (some p) m e = (p, refl, ground (arith, e))

apply_entry-effect_at :
    (event : Event) (name : String) (m : Member) (old entry : JournalEntry)
    → apply_entry event old ≡ ok entry
    → effect_at name old.effects ≡ some m
    → effect_at name entry.effects ≡ some m
unfolding apply_entry effect_at
apply_entry-effect_at (receipt_event id payload) name m old entry e h = ground arith
apply_entry-effect_at (effect_event id other payload) name m old entry e h =
    ground (arith, lookup-insert other name payload old.effects, eq_iff other name)
apply_entry-effect_at (result_event id payload) name m old entry e h = ground arith

effect_in-some :
    (o : Option JournalEntry) (name : String) (m : Member)
    → effect_in o name ≡ some m
    → effect_at name (or_empty o).effects ≡ some m
effect_in-some none name m e = absurd (ground (arith, e))
effect_in-some (some entry) name m e = e

-- An accepted event leaves what was recorded.
pub apply-recorded :
    (kind : Kind) (id : String) (m : Member) (entries after : Entries) (event : Event)
    → apply entries event ≡ ok after
    → recorded kind id entries ≡ some m
    → recorded kind id after ≡ some m
unfolding recorded entry_at
apply-recorded receipt id m entries after event e h =
    let (p, found, same) = own_of-some _ m h in
    rw (((apply-Grows entries after event e).at id).receipt p found) (ap some same)
apply-recorded result id m entries after event e h =
    let (p, found, same) = own_of-some _ m h in
    rw (((apply-Grows entries after event e).at id).result p found) (ap some same)
apply-recorded (effect name) id m entries after event e h =
    let (entry, stepped, inserted) = apply_cases entries after event e in
    rw (inserted, lookup-insert (receipt_of event) id entry entries)
      (elim (Bool-cases (receipt_of event == id)) [
        | inl here ↦ rw (here) (
            apply_entry-effect_at event name m _ entry stepped (
              subst (λ k. effect_at name (entry_at k entries).effects ≡ some m)
                (sym ((eq_iff _ _).0 here)) (effect_in-some (lookup id entries) name m h)))
        | inr there ↦ rw (there) h
      ])

effect_entered :
    (name : String) (payload : Fields) (o : Option JournalEntry) (entry : JournalEntry)
    → apply_effect name payload (or_empty o) ≡ ok entry
    → effect_in o name ≡ none
    → effect_at name entry.effects ≡ some (own payload)
unfolding apply_effect effect_at
effect_entered name payload none entry e fresh = absurd (ground arith)
effect_entered name payload (some old) entry e fresh =
    ground (arith, lookup-insert_self name payload old.effects)

-- An accepted event is recorded, where nothing was before.
pub recorded_new :
    (kind : Kind) (id : String) (payload : Fields) (entries after : Entries)
    → apply entries (event_of kind id payload) ≡ ok after
    → recorded kind id entries ≡ none
    → recorded kind id after ≡ some (own payload)
unfolding recorded apply_entry entry_at event_of
recorded_new receipt id payload entries after e fresh =
    let (entry, stepped, inserted) = apply_cases entries after (receipt_event id payload) e in
    rw (inserted, lookup-insert_self id entry entries) (ground arith)
recorded_new (effect name) id payload entries after e fresh =
    let (entry, stepped, inserted) = apply_cases entries after (effect_event id name payload) e in
    rw (inserted, lookup-insert_self id entry entries)
      (effect_entered name payload (lookup id entries) entry stepped fresh)
recorded_new result id payload entries after e fresh =
    let (entry, stepped, inserted) = apply_cases entries after (result_event id payload) e in
    rw (inserted, lookup-insert_self id entry entries) (ground arith)

module _ (codec : Codec) (w : Writer) where
  -- A record method that finds something compares, and leaves the journal as it is.
  pub perform_known :
      (kind : Kind) (id : String) (payload : Fields) (s : FileAgentJournal) (m : Member)
      → recorded kind id s.entries ≡ some m
      → perform codec w kind id payload s ≡ (guard (equal_member m payload) (conflict kind), s)
  unfolding perform recorded record_receipt record_effect record_result conflict equal_member
  perform_known receipt id payload s m h =
      let (p, found, same) = own_of-some _ m h in
      rw (found, record_receipt)
        (ap (λ n. (guard (equal_member n payload) (conflict receipt), s)) same)
  perform_known (effect name) id payload s m h = rw (h, record_effect) refl
  perform_known result id payload s m h =
      let (p, found, same) = own_of-some _ m h in
      rw (found, record_result)
        (ap (λ n. (guard (equal_member n payload) (conflict result), s)) same)

  own_of-none : (o : Option Fields) → own_of o ≡ none → o ≡ none
  own_of-none none e = refl
  own_of-none (some p) e = absurd (ground (arith, e))

  -- One that finds nothing appends.
  pub perform_new :
      (kind : Kind) (id : String) (payload : Fields) (s : FileAgentJournal)
      → recorded kind id s.entries ≡ none
      → perform codec w kind id payload s ≡ append codec w (event_of kind id payload) s
  unfolding perform recorded record_receipt record_effect record_result event_of
  perform_new receipt id payload s h = rw (own_of-none _ h, record_receipt) refl
  perform_new (effect name) id payload s h = rw (h, record_effect) refl
  perform_new result id payload s h = rw (own_of-none _ h, record_result) refl
