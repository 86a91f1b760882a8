-- ===== src/Journal.antt =====
-- packages/agent-journal/src/index.ts: the entries that the journal keeps, the events that it
-- writes, and `apply`, by which an event changes the entries, both while recording and on replay.
-- `JSON.parse`d payloads are `Fields`: the schema admits objects only.
pub mod Canonical
pub mod Rules
pub mod Once
pub mod Append
pub mod Open
pub mod Queue
mod Tests
use botroost.Prelude.{
  ℕ, String, Bool, true, false, not, ◌&&◌, ◌||◌, Option, none, some, List, [], ◌∷◌, ◌==◌, text_test,
  if◌then◌else◌, any, Assoc, lookup, insert,
}
use botroost.Json.{Json, str, Fields, end, field}
use Canonical.{equal, canonicalize}

pub record JournalEntry : Type 0 where
  pub receipt : Option Fields
  pub effects : Assoc String Fields
  pub result : Option Fields

pub data Event : Type 0 where
  receipt_event : String → Fields → Event
  effect_event : String → String → Fields → Event
  result_event : String → Fields → Event

pub data Error : Type 0 where
  -- thrown by `apply`
  receipt_differs receipt_before_effect effect_after_result effect_differs : Error
  receipt_before_result effect_before_result result_differs : Error
  -- thrown by `EventSchema.parse`, by the writer, and by the queue
  invalid_event no_progress write_failed sync_failed journal_closed journal_poisoned : Error
  -- thrown by `open`, with the number of the record
  corrupt_record : ℕ → Error

-- A call that may throw.
pub data Result {ℓ} (A : Type ℓ) : Type ℓ where
  err : Error → Result A
  ok : A → Result A

-- `if (!test) throw error`
abbrev pub guard : Bool → Error → Result (Unit {0})
guard false thrown = err thrown
guard true thrown = ok tt

infixl 5 ◌>>◌ ◌>>=◌
abbrev pub ◌>>=◌ {ℓ κ} : {A : Type ℓ} {B : Type κ} → Result A → (A → Result B) → Result B
err thrown >>= after = err thrown
ok value >>= after = after value

abbrev pub ◌>>◌ {ℓ} : {B : Type ℓ} → Result (Unit {0}) → Result B → Result B
◌>>◌ first second = first >>= (λ done. second)

abbrev pub Entries : Type 0
Entries = Assoc String JournalEntry

abbrev pub empty_entry : JournalEntry
empty_entry = record { receipt = none; effects = []; result = none }

abbrev pub or_empty : Option JournalEntry → JournalEntry
or_empty none = empty_entry
or_empty (some entry) = entry

-- `entries.get(id) ?? { effects: {} }`
pub entry_at : String → Entries → JournalEntry
entry_at id entries = or_empty (lookup id entries)

-- What reading `effects[id]` finds: `effects` is a plain object, so a name that it does not own is
-- looked up in `Object.prototype`.
pub data Member : Type 0 where
  own : Fields → Member
  method prototype : Member

abbrev pub object_methods : List String
object_methods =
    "constructor" ∷ "hasOwnProperty" ∷ "isPrototypeOf" ∷ "propertyIsEnumerable" ∷ "toLocaleString"
    ∷ "toString" ∷ "valueOf" ∷ "__defineGetter__" ∷ "__defineSetter__" ∷ "__lookupGetter__"
    ∷ "__lookupSetter__" ∷ []

pub is_method : String → Bool
is_method id = any (λ name. name == id) object_methods

inherited : String → Option Member
inherited id =
    if is_method id then some method else if id == "__proto__" then some prototype else none

abbrev own_or : Option Fields → Option Member → Option Member
own_or (some data_) other = some (own data_)
own_or none other = other

pub effect_at : String → Assoc String Fields → Option Member
unfolding inherited
effect_at id effects = own_or (lookup id effects) (inherited id)

-- `equal(existing, data)`: a function has no JSON text, and `Object.prototype` prints as `{}`.
pub equal_member : Member → Fields → Bool
equal_member (own existing) payload = equal existing payload
equal_member method payload = false
equal_member prototype payload = equal end payload

-- `existing && !equal(existing, data)`
abbrev pub differs : Option Fields → Fields → Bool
differs none payload = false
differs (some existing) payload = not (equal existing payload)

abbrev pub member_differs : Option Member → Fields → Bool
member_differs none payload = false
member_differs (some existing) payload = not (equal_member existing payload)

-- `target ??= data`
abbrev pub keep_or : Option Fields → Fields → Option Fields
keep_or none payload = some payload
keep_or (some existing) payload = some existing

abbrev pub add_effect : Option Member → String → Fields → Assoc String Fields → Assoc String Fields
add_effect none id payload effects = insert id payload effects
add_effect (some existing) id payload effects = effects

abbrev pub is_some : Option Fields → Bool
is_some none = false
is_some (some payload) = true

abbrev pub is_empty : Assoc String Fields → Bool
is_empty [] = true
is_empty (e ∷ es) = false

-- `value === "failed"`
abbrev is_failed : Json → Bool
is_failed (str s) = s == "failed"
is_failed _ = false

-- `data.outcome === "failed"`
pub failed_outcome : Fields → Bool
failed_outcome end = false
failed_outcome (field k v fs) = if k == "outcome" then is_failed v else failed_outcome fs

unfoldable pub apply_receipt : Fields → JournalEntry → Result JournalEntry
apply_receipt payload entry = do
  guard (not (differs entry.receipt payload)) receipt_differs
  ok (record entry { receipt = keep_or entry.receipt payload })

unfoldable pub apply_effect : String → Fields → JournalEntry → Result JournalEntry
apply_effect id payload entry = do
  guard (is_some entry.receipt) receipt_before_effect
  guard (not (is_some entry.result)) effect_after_result
  guard (not (member_differs (effect_at id entry.effects) payload)) effect_differs
  ok (record entry { effects = add_effect (effect_at id entry.effects) id payload entry.effects })

unfoldable pub apply_result : Fields → JournalEntry → Result JournalEntry
apply_result payload entry = do
  guard (is_some entry.receipt) receipt_before_result
  guard (not (is_empty entry.effects) || failed_outcome payload) effect_before_result
  guard (not (differs entry.result payload)) result_differs
  ok (record entry { result = keep_or entry.result payload })

abbrev pub receipt_of : Event → String
receipt_of (receipt_event id payload) = id
receipt_of (effect_event id effect payload) = id
receipt_of (result_event id payload) = id

pub apply_entry : Event → JournalEntry → Result JournalEntry
unfolding apply_receipt apply_effect apply_result
apply_entry (receipt_event id payload) = apply_receipt payload
apply_entry (effect_event id effect payload) = apply_effect effect payload
apply_entry (result_event id payload) = apply_result payload

pub apply : Entries → Event → Result Entries
apply entries event = do
  entry ← apply_entry event (entry_at (receipt_of event) entries)
  ok (insert (receipt_of event) entry entries)

-- A history of events, oldest first.
pub apply_all : Entries → List Event → Result Entries
apply_all entries [] = ok entries
apply_all entries (event ∷ events) = do next ← apply entries event; apply_all next events
