-- ===== src/Journal/Once.antt =====
-- `apply` of packages/agent-journal/src/index.ts over histories of events, and on an event that it
-- has seen.
use botroost.Prelude.{
  String, ◌≡◌, refl, subst, ◌≢◌, true, some, List, [], ◌∷◌, arith, eq_iff, eq_refl, text_test,
  lookup, lookup-insert, lookup-insert_self, insert-insert,
}
use botroost.Json.{Fields}
use botroost.Journal.{
  JournalEntry, Event, receipt_event, effect_event, result_event, Result, ok, err, Entries,
  entry_at, is_method, effect_at, equal_member, receipt_of, apply_entry, apply, apply_all,
}
use botroost.Journal.Rules.{
  AllOrdered, AllOrdered-empty, equal_refl, entry_at-insert, apply_cases, apply_lift,
  apply-AllOrdered,
}

-- Everything recorded in `entry` is recorded, unchanged, in `next`.
pub record Extends (entry next : JournalEntry) : Type 0 where
  pub receipt : (payload : Fields) → entry.receipt ≡ some payload → next.receipt ≡ some payload
  pub effects :
      (id : String) (payload : Fields)
      → lookup id entry.effects ≡ some payload
      → lookup id next.effects ≡ some payload
  pub result : (payload : Fields) → entry.result ≡ some payload → next.result ≡ some payload

pub Extends-refl : (entry : JournalEntry) → Extends entry entry
Extends-refl entry = record { receipt = λ p h. h; effects = λ id p h. h; result = λ p h. h }

apply_entry-Extends :
    (event : Event) (entry next : JournalEntry)
    → apply_entry event entry ≡ ok next
    → Extends entry next
unfolding apply_entry effect_at
apply_entry-Extends (receipt_event id payload) entry next e = record {
  receipt = λ p h. ground arith;
  effects = λ j p h. ground arith;
  result = λ p h. ground arith;
}
apply_entry-Extends (effect_event id effect payload) entry next e = record {
  receipt = λ p h. ground arith;
  effects = λ j p h. ground (arith, lookup-insert effect j payload entry.effects, eq_iff effect j);
  result = λ p h. ground arith;
}
apply_entry-Extends (result_event id payload) entry next e = record {
  receipt = λ p h. ground arith;
  effects = λ j p h. ground arith;
  result = λ p h. ground arith;
}

-- Every entry of `next` extends that of `entries`.
pub record Grows (entries next : Entries) : Type 0 where
  pub at : (id : String) → Extends (entry_at id entries) (entry_at id next)

pub apply-Grows :
    (entries next : Entries) (event : Event) → apply entries event ≡ ok next → Grows entries next
apply-Grows entries next event e = record {
  at = apply_lift Extends Extends-refl apply_entry-Extends entries next event e;
}

Grows-trans : (a b c : Entries) → Grows a b → Grows b c → Grows a c
Grows-trans a b c g h = record {
  at = λ id. record {
    receipt = λ p e. (h.at id).receipt p ((g.at id).receipt p e);
    effects = λ j p e. (h.at id).effects j p ((g.at id).effects j p e);
    result = λ p e. (h.at id).result p ((g.at id).result p e);
  };
}

-- Inversion of one step of a history.
pub apply_all_cases :
    (entries last : Entries) (event : Event) (events : List Event)
    → apply_all entries (event ∷ events) ≡ ok last
    → (next : Entries) × (apply entries event ≡ ok next) × (apply_all next events ≡ ok last)
unfolding apply_all
apply_all_cases entries last event events e = go (apply entries event) refl
  where
    go :
        (r : Result Entries)
        → apply entries event ≡ r
        → (next : Entries) × (apply entries event ≡ ok next) × (apply_all next events ≡ ok last)
    go (ok next) h = (next, h, ground arith)
    go (err x) h = absurd (ground arith)

-- No history of accepted events changes or removes what was recorded before it: receipts, effects
-- and results are written once.
pub apply_all-Grows :
    (entries last : Entries) (events : List Event)
    → apply_all entries events ≡ ok last
    → Grows entries last
unfolding apply_all
apply_all-Grows entries last [] e =
    let same : entries ≡ last = ground arith in
    subst (Grows entries) same (record { at = λ id. Extends-refl _ })
apply_all-Grows entries last (event ∷ events) e =
    let (next, step, rest) = apply_all_cases entries last event events e in
    Grows-trans entries next last (apply-Grows entries next event step)
      (apply_all-Grows next last events rest)

apply_all-AllOrdered :
    (entries last : Entries) (events : List Event)
    → apply_all entries events ≡ ok last
    → AllOrdered entries
    → AllOrdered last
unfolding apply_all
apply_all-AllOrdered entries last [] e v =
    let same : entries ≡ last = ground arith in subst AllOrdered same v
apply_all-AllOrdered entries last (event ∷ events) e v =
    let (next, step, rest) = apply_all_cases entries last event events e in
    apply_all-AllOrdered next last events rest (apply-AllOrdered entries next event step v)

-- Whatever events an empty journal has accepted, in every entry effects and results have a receipt,
-- and a result has an effect or says that the outcome failed.
pub history-AllOrdered :
    (last : Entries) (events : List Event) → apply_all [] events ≡ ok last → AllOrdered last
history-AllOrdered last events e = apply_all-AllOrdered [] last events e AllOrdered-empty

apply_entry_again :
    (event : Event) (entry next : JournalEntry)
    → apply_entry event entry ≡ ok next
    → apply_entry event next ≡ ok next
unfolding apply_entry effect_at equal_member
apply_entry_again (receipt_event id payload) entry next e = ground (arith, equal_refl payload)
apply_entry_again (effect_event id effect payload) entry next e =
    ground (arith, equal_refl payload, lookup-insert_self effect payload entry.effects)
apply_entry_again (result_event id payload) entry next e = ground (arith, equal_refl payload)

-- An event that was accepted is accepted again, and then changes nothing.
apply_again :
    (entries next : Entries) (event : Event)
    → apply entries event ≡ ok next
    → apply next event ≡ ok next
unfolding apply
apply_again entries next event e =
    let id = receipt_of event in
    let (entry, stepped, inserted) = apply_cases entries next event e in
    rw (
      inserted,
      entry_at-insert id id entry entries,
      eq_refl id,
      apply_entry_again event _ entry stepped,
      insert-insert id entry entry entries,
    )

-- No journal that began empty accepts an effect whose id is the name of a method that objects
-- inherit, such as `constructor` or `toString`.
pub method_effects_refused :
    (last next : Entries) (events : List Event) (receipt id : String) (payload : Fields)
    → apply_all [] events ≡ ok last
    → is_method id ≡ true
    → apply last (effect_event receipt id payload) ≢ ok next
unfolding apply_entry effect_at equal_member
method_effects_refused last next events receipt id payload e m h =
    let (entry, stepped, _) = apply_cases last next (effect_event receipt id payload) h in
    absurd (ground (arith, (history-AllOrdered last events e receipt).no_methods id m))
