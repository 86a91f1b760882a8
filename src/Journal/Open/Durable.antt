-- ===== src/Journal/Open/Durable.antt =====
-- The file of a journal of packages/agent-journal/src/index.ts beside what is in memory.
use mathlib.Core.List.{append-nil}
use botroost.Prelude.{
  ℕ, ◌≡◌, refl, sym, ap, ◌∙◌, inl, inr, false, List, [], ◌∷◌, ◌++◌, arith, All, All-append, subst,
}
use botroost.Journal.{Event, ok, Entries, apply, apply_all}
use botroost.Journal.Once.{Grows, Extends-refl, apply-Grows, apply_all_cases}
use botroost.Journal.Append.{Codec, Writer, FileAgentJournal, newline, line, append}
use botroost.Journal.Append.Outcomes.{Kept, Torn, kept, refused, torn, append-Ended}
use botroost.Journal.Open.{Opened, open_file}
use botroost.Journal.Open.Lines.{NoNewline, log_bytes, log_bytes-append, prefix_cases, All-prefix}
use botroost.Journal.Open.Recovery.{Codes, open_file-log_bytes}

module _ (codec : Codec) where
  -- The file holds the records of accepted events, and perhaps the beginning of one more; what the
  -- journal has in memory is among them, and is all of them unless the journal is poisoned.
  pub record IsDurable (s : FileAgentJournal) : Type 0 where
    pub events : List Event
    pub rest : List ℕ
    pub rebuilt : Entries
    pub coded : All (Codes codec) events
    pub one_line : NoNewline rest
    pub file : s.file ≡ log_bytes codec events ++ rest
    pub applied : apply_all [] events ≡ ok rebuilt
    pub grows : Grows s.entries rebuilt
    pub exact : s.poisoned ≡ false → (rest ≡ []) × (rebuilt ≡ s.entries)

  -- What the journal has in memory is rebuilt when its file is opened again: nothing that was
  -- recorded is lost, and unless the journal is poisoned nothing is added. The cut file is that of
  -- a journal in which again nothing is lost.
  pub record Reopens (s : FileAgentJournal) : Type 0 where
    pub opened : Opened
    pub opens : open_file codec.decode s.file ≡ ok opened
    pub grows : Grows s.entries opened.entries
    pub exact : s.poisoned ≡ false → (opened.entries ≡ s.entries) × (opened.file ≡ s.file)
    pub again : open_file codec.decode opened.file ≡ ok opened

  pub IsDurable-Reopens : (s : FileAgentJournal) → IsDurable s → Reopens s
  IsDurable-Reopens s d = record {
    opened = record { entries = d.rebuilt; file = log_bytes codec d.events };
    opens =
        ap (open_file codec.decode) d.file
        ∙ open_file-log_bytes codec d.events d.rebuilt d.rest d.coded d.applied d.one_line;
    grows = d.grows;
    exact = λ healthy.
        let (nothing, same) = d.exact healthy in
        (
          same,
          sym (append-nil _) ∙ ap (λ r. log_bytes codec d.events ++ r) (sym nothing) ∙ sym d.file,
        );
    again =
        ap (open_file codec.decode) (sym (append-nil _))
        ∙ open_file-log_bytes codec d.events d.rebuilt [] d.coded d.applied tt;
  }

  apply_all-append :
      (entries last next : Entries) (events : List Event) (event : Event)
      → apply_all entries events ≡ ok last
      → apply last event ≡ ok next
      → apply_all entries (events ++ event ∷ []) ≡ ok next
  unfolding apply_all
  apply_all-append entries last next [] event e h = ground (arith, e, h)
  apply_all-append entries last next (x ∷ events) event e h =
      let (mid, step, rest) = apply_all_cases entries last x events e in
      rw step (apply_all-append mid last next events event rest h)

  -- The file of a healthy journal after one more whole record.
  whole_file :
      (event : Event) (s : FileAgentJournal) (d : IsDurable s)
      → s.poisoned ≡ false
      → s.file ++ line codec event ≡ log_bytes codec (d.events ++ event ∷ []) ++ []
  whole_file event s d healthy =
      let text : s.file ≡ log_bytes codec d.events =
        d.file ∙ ap (λ r. log_bytes codec d.events ++ r) (d.exact healthy).0 ∙ append-nil _ in
      ap (λ f. f ++ line codec event) text
      ∙ sym (log_bytes-append codec d.events event)
      ∙ sym (append-nil _)

  -- A journal that has got one more whole record into its file, whether or not it knows of it.
  extended :
      (event : Event) (s t : FileAgentJournal) (copy : Entries)
      → Codes codec event
      → s.poisoned ≡ false
      → IsDurable s
      → apply s.entries event ≡ ok copy
      → t.file ≡ s.file ++ line codec event
      → Grows t.entries copy
      → (t.poisoned ≡ false → copy ≡ t.entries)
      → IsDurable t
  extended event s t copy c healthy d applied file grows exact = record {
    events = d.events ++ event ∷ [];
    rest = [];
    rebuilt = copy;
    coded = All-append (Codes codec) d.events (event ∷ []) d.coded (c, tt);
    one_line = tt;
    file = file ∙ whole_file event s d healthy;
    applied =
        apply_all-append [] d.rebuilt copy d.events event d.applied
          (subst (λ u. apply u event ≡ ok copy) (sym (d.exact healthy).1) applied);
    grows = grows;
    exact = λ h. (refl, exact h);
  }

  Kept-IsDurable :
      (event : Event) (s t : FileAgentJournal)
      → Codes codec event
      → s.poisoned ≡ false
      → Kept codec event s t
      → IsDurable s
      → IsDurable t
  Kept-IsDurable event s t c healthy k d =
      extended event s t t.entries c healthy d k.applied k.file
        (record { at = λ id. Extends-refl _ }) (λ h. refl)

  Torn-IsDurable_whole :
      (event : Event) (s t : FileAgentJournal) (k : Torn codec event s t)
      → Codes codec event
      → s.poisoned ≡ false
      → IsDurable s
      → k.after ≡ []
      → IsDurable t
  Torn-IsDurable_whole event s t k c healthy d whole =
      extended event s t k.copy c healthy d k.applied
        (k.file
          ∙ ap (λ b. s.file ++ b)
              (sym (append-nil k.before) ∙ ap (λ a. k.before ++ a) (sym whole) ∙ k.split))
        (subst (λ u. Grows u k.copy) (sym k.entries) (apply-Grows s.entries k.copy event k.applied))
        (λ h. absurd (ground (arith, k.poisoned)))

  Torn-IsDurable_part :
      (event : Event) (s t : FileAgentJournal) (k : Torn codec event s t) (missing : List ℕ)
      → Codes codec event
      → s.poisoned ≡ false
      → IsDurable s
      → k.before ++ missing ≡ codec.encode event
      → IsDurable t
  Torn-IsDurable_part event s t k missing c healthy d part = record {
    events = d.events;
    rest = k.before;
    rebuilt = d.rebuilt;
    coded = d.coded;
    one_line = All-prefix k.before missing (subst NoNewline (sym part) c.one_line);
    file =
        k.file
        ∙ ap (λ f. f ++ k.before)
            (d.file ∙ ap (λ r. log_bytes codec d.events ++ r) (d.exact healthy).0 ∙ append-nil _);
    applied = d.applied;
    grows = subst (λ u. Grows u d.rebuilt) (sym k.entries) d.grows;
    exact = λ h. absurd (ground (arith, k.poisoned));
  }

  -- Whatever the writer does, one `append` to a healthy durable journal leaves it durable.
  pub append-IsDurable :
      (w : Writer) (event : Event) (s : FileAgentJournal)
      → Codes codec event
      → s.poisoned ≡ false
      → IsDurable s
      → IsDurable (append codec w event s).1
  append-IsDurable w event s c healthy d = elim (append-Ended codec w event s) [
    | kept _ k ↦ Kept-IsDurable event s _ c healthy k d
    | refused _ _ same ↦ subst IsDurable (sym same) d
    | torn _ _ k ↦ elim (prefix_cases (codec.encode event) k.before k.after newline k.split) [
      | inl whole ↦ Torn-IsDurable_whole event s _ k c healthy d whole
      | inr (missing, part) ↦ Torn-IsDurable_part event s _ k missing c healthy d part
    ]
  ]
