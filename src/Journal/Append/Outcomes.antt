-- ===== src/Journal/Append/Outcomes.antt =====
-- The ways in which `append` of packages/agent-journal/src/index.ts ends.
use mathlib.Core.List.{append-nil}
use native.Mathlib.Nat.{le_refl}
use botroost.Prelude.{
  ℕ, ◌≡◌, refl, sym, ap, ◌∙◌, inl, inr, Bool, true, false, List, ◌++◌, length, Bool-cases,
}
use botroost.Journal.{
  Event, Error, Result, ok, err, Entries, apply, invalid_event, no_progress, write_failed,
  sync_failed,
}
use botroost.Journal.Append.{
  Codec, Writer, FileAgentJournal, WriteEnd, all_written, stalled, failed, out_of_fuel, is_valid,
  line, settle, commit, commit_or_throw, append,
}
use botroost.Journal.Append.Writing.{Ends, write_all-Ends}

module _ (codec : Codec) where
  -- The event is in the entries and, whole, at the end of the file.
  pub record Kept (event : Event) (s t : FileAgentJournal) : Type 0 where
    pub valid : is_valid event ≡ true
    pub applied : apply s.entries event ≡ ok t.entries
    pub file : t.file ≡ s.file ++ line codec event
    pub poisoned : t.poisoned ≡ s.poisoned

  -- The journal is poisoned with its entries unchanged; a part of the record may be in the file.
  pub record Torn (event : Event) (s t : FileAgentJournal) : Type 0 where
    pub valid : is_valid event ≡ true
    pub copy : Entries
    pub applied : apply s.entries event ≡ ok copy
    pub before : List ℕ
    pub after : List ℕ
    pub split : before ++ after ≡ line codec event
    pub file : t.file ≡ s.file ++ before
    pub entries : t.entries ≡ s.entries
    pub poisoned : t.poisoned ≡ true

  pub data Ended (event : Event) (s : FileAgentJournal) (r : Result (Unit {0}))
      (t : FileAgentJournal) : Type 0 where
    kept : r ≡ ok tt → Kept event s t → Ended event s r t
    refused : (e : Error) → r ≡ err e → t ≡ s → Ended event s r t
    torn : (e : Error) → r ≡ err e → Torn event s t → Ended event s r t

  Torn-of_Ends :
      (event : Event) (s : FileAgentJournal) (copy : Entries) (e : WriteEnd) (file : List ℕ)
      → is_valid event ≡ true
      → apply s.entries event ≡ ok copy
      → Ends (line codec event) s.file (e, file)
      → Torn event s (record s { file = file; poisoned = true })
  Torn-of_Ends event s copy e file v a r = record {
    valid = v;
    copy = copy;
    applied = a;
    before = r.before;
    after = r.after;
    split = r.split;
    file = r.reached;
    entries = refl;
    poisoned = refl;
  }

  whole_line :
      (event : Event) (s : FileAgentJournal) (file : List ℕ)
      → Ends (line codec event) s.file (all_written, file)
      → file ≡ s.file ++ line codec event
  whole_line event s file r =
      r.reached
      ∙ ap (λ b. s.file ++ b)
          (sym (append-nil r.before) ∙ ap (λ a. r.before ++ a) (sym (r.whole refl)) ∙ r.split)

  settle-Ended :
      (event : Event) (s : FileAgentJournal) (copy : Entries) (synced : Bool) (e : WriteEnd)
      (file : List ℕ)
      → is_valid event ≡ true
      → apply s.entries event ≡ ok copy
      → Ends (line codec event) s.file (e, file)
      → Ended event s
          (settle codec (e, file) synced copy s).0
          (settle codec (e, file) synced copy s).1
  unfolding settle
  settle-Ended event s copy true all_written file v a r =
      kept refl
        (record { valid = v; applied = a; file = whole_line event s file r; poisoned = refl })
  settle-Ended event s copy false all_written file v a r =
      torn sync_failed refl (Torn-of_Ends event s copy all_written file v a r)
  settle-Ended event s copy synced stalled file v a r =
      torn no_progress refl (Torn-of_Ends event s copy stalled file v a r)
  settle-Ended event s copy synced failed file v a r =
      torn write_failed refl (Torn-of_Ends event s copy failed file v a r)
  settle-Ended event s copy synced out_of_fuel file v a r = absurd (r.ended refl)

  commit_or_throw-Ended :
      (w : Writer) (event : Event) (s : FileAgentJournal) (r : Result Entries)
      → is_valid event ≡ true
      → apply s.entries event ≡ r
      → Ended event s (commit_or_throw codec w event s r).0 (commit_or_throw codec w event s r).1
  unfolding commit
  commit_or_throw-Ended w event s (ok copy) valid e =
      settle-Ended event s copy w.synced _ _ valid e
        (write_all-Ends (length (line codec event)) w.write 0 (line codec event) s.file (le_refl _))
  commit_or_throw-Ended w event s (err x) valid e = refused x refl refl

  -- Whatever the writer does, `append` ends in one of three ways: the event is applied to the
  -- entries and its record stands whole at the end of the file; or it is refused and nothing has
  -- changed; or the journal is poisoned, the entries are unchanged and the file has got a prefix of
  -- the record.
  pub append-Ended :
      (w : Writer) (event : Event) (s : FileAgentJournal)
      → Ended event s (append codec w event s).0 (append codec w event s).1
  unfolding append
  append-Ended w event s = elim (Bool-cases (is_valid event)) [
    | inr invalid ↦ rw (invalid, append) (refused invalid_event refl refl)
    | inl valid ↦
        rw (valid, append) (commit_or_throw-Ended w event s (apply s.entries event) valid refl)
  ]
