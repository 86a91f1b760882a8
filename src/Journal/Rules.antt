-- ===== src/Journal/Rules.antt =====
-- `apply` of packages/agent-journal/src/index.ts on one event: the order of receipt, effects and
-- result, and what it writes over.
use botroost.Prelude.{
  String, ◌≡◌, refl, subst, ◌⊎◌, inl, inr, true, false, none, some, [], ◌∷◌, arith, eq_iff,
  text_test, Bool-cases, if◌then◌else◌, ◌==◌, Assoc, lookup, insert, lookup-insert,
}
use botroost.Json.{Fields}
use botroost.Journal.Canonical.{equal}
use botroost.Journal.{
  JournalEntry, Event, receipt_event, effect_event, result_event, Result, ok, err, Entries,
  entry_at, empty_entry, is_method, effect_at, equal_member, is_some, is_empty, failed_outcome,
  receipt_of, apply_entry, apply, apply_receipt, apply_effect, apply_result,
}

-- `equal` compares texts, so it is an equivalence.
pub equal_refl : (fs : Fields) → equal fs fs ≡ true
unfolding equal
equal_refl fs = (eq_iff _ _).1 refl

-- A receipt comes first, a result needs an effect or a failed outcome, and no effect has the name
-- of an inherited method.
pub record IsOrdered (entry : JournalEntry) : Type 0 where
  pub effects_need_receipt : is_empty entry.effects ≡ false → is_some entry.receipt ≡ true
  pub result_needs_receipt : is_some entry.result ≡ true → is_some entry.receipt ≡ true
  pub result_backed :
      (payload : Fields)
      → entry.result ≡ some payload
      → (is_empty entry.effects ≡ false) ⊎ (failed_outcome payload ≡ true)
  pub no_methods : (id : String) → is_method id ≡ true → lookup id entry.effects ≡ none

empty-IsOrdered : IsOrdered empty_entry
unfolding lookup
empty-IsOrdered = record {
  effects_need_receipt = λ e. cc;
  result_needs_receipt = λ e. cc;
  result_backed = λ payload e. cc;
  no_methods = λ id e. refl;
}

is_empty-insert :
    (id : String) (payload : Fields) (es : Assoc String Fields)
    → is_empty (insert id payload es) ≡ false
unfolding insert
is_empty-insert id payload [] = refl
is_empty-insert id payload (e ∷ es) = ground arith

apply_receipt-IsOrdered :
    (payload : Fields) (entry next : JournalEntry)
    → apply_receipt payload entry ≡ ok next
    → IsOrdered entry
    → IsOrdered next
unfolding apply_receipt
apply_receipt-IsOrdered payload entry next e v = record {
  effects_need_receipt = λ h. ground (arith, v.effects_need_receipt);
  result_needs_receipt = λ h. ground (arith, v.result_needs_receipt);
  result_backed = λ p h. ground (arith, v.result_backed p);
  no_methods = λ j h. ground (arith, v.no_methods j h);
}

apply_effect-IsOrdered :
    (id : String) (payload : Fields) (entry next : JournalEntry)
    → apply_effect id payload entry ≡ ok next
    → IsOrdered entry
    → IsOrdered next
unfolding apply_effect effect_at equal_member
apply_effect-IsOrdered id payload entry next e v = record {
  effects_need_receipt = λ h. ground arith;
  result_needs_receipt = λ h. ground arith;
  result_backed = λ p h. ground arith;
  no_methods = λ j h. ground (
    arith,
    v.no_methods j h,
    v.no_methods id,
    lookup-insert id j payload entry.effects,
    eq_iff id j,
  );
}

apply_result-IsOrdered :
    (payload : Fields) (entry next : JournalEntry)
    → apply_result payload entry ≡ ok next
    → IsOrdered entry
    → IsOrdered next
unfolding apply_result
apply_result-IsOrdered payload entry next e v = record {
  effects_need_receipt = λ h. ground (arith, v.effects_need_receipt);
  result_needs_receipt = λ h. ground arith;
  result_backed = λ p h. ground (arith, v.result_backed p);
  no_methods = λ j h. ground (arith, v.no_methods j h);
}

apply_entry-IsOrdered :
    (event : Event) (entry next : JournalEntry)
    → apply_entry event entry ≡ ok next
    → IsOrdered entry
    → IsOrdered next
unfolding apply_entry
apply_entry-IsOrdered (receipt_event id payload) entry next =
    apply_receipt-IsOrdered payload entry next
apply_entry-IsOrdered (effect_event id effect payload) entry next =
    apply_effect-IsOrdered effect payload entry next
apply_entry-IsOrdered (result_event id payload) entry next =
    apply_result-IsOrdered payload entry next

-- Every entry of a journal.
abbrev pub AllOrdered : Entries → Type 0
AllOrdered entries = (id : String) → IsOrdered (entry_at id entries)

pub AllOrdered-empty : AllOrdered []
unfolding entry_at lookup
AllOrdered-empty id = empty-IsOrdered

pub entry_at-insert :
    (id j : String) (entry : JournalEntry) (entries : Entries)
    → entry_at j (insert id entry entries) ≡ (if id == j then entry else entry_at j entries)
unfolding entry_at
entry_at-insert id j entry entries = ground (arith, lookup-insert id j entry entries)

-- What a successful `apply` did: one entry changed, by `apply_entry`.
pub apply_cases :
    (entries next : Entries) (event : Event)
    → apply entries event ≡ ok next
    → (entry : JournalEntry) × (apply_entry event (entry_at (receipt_of event) entries) ≡ ok entry)
      × (next ≡ insert (receipt_of event) entry entries)
unfolding apply
apply_cases entries next event e = go (apply_entry event (entry_at (receipt_of event) entries)) refl
  where
    go :
        (r : Result JournalEntry)
        → apply_entry event (entry_at (receipt_of event) entries) ≡ r
        → (entry : JournalEntry) × (apply_entry event (entry_at (receipt_of event) entries)
            ≡ ok entry)
          × (next ≡ insert (receipt_of event) entry entries)
    go (ok entry) h = (entry, h, cc)
    go (err x) h = absurd (ground arith)

-- A property that `apply_entry` keeps for one entry holds of every entry afterwards.
pub apply_lift :
    (P : JournalEntry → JournalEntry → Type 0)
    → ((entry : JournalEntry) → P entry entry)
    → ((event : Event) (entry next : JournalEntry)
        → apply_entry event entry ≡ ok next
        → P entry next)
    → (entries next : Entries) (event : Event) → apply entries event ≡ ok next
    → (j : String) → P (entry_at j entries) (entry_at j next)
apply_lift P stay step entries next event e j =
    let (entry, stepped, inserted) = apply_cases entries next event e in
    rw (inserted, entry_at-insert (receipt_of event) j entry entries)
      (elim (Bool-cases (receipt_of event == j)) [
        | inl here ↦ rw here (
            subst (λ k. P (entry_at k entries) entry) ((eq_iff _ _).0 here)
              (step event _ entry stepped))
        | inr there ↦ rw there (stay _)
      ])

pub apply-AllOrdered :
    (entries next : Entries) (event : Event)
    → apply entries event ≡ ok next
    → AllOrdered entries
    → AllOrdered next
apply-AllOrdered entries next event e v j =
    apply_lift (λ a b. IsOrdered a → IsOrdered b) (λ a h. h) apply_entry-IsOrdered entries next
      event e j (v j)
