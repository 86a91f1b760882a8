-- ===== src/Journal/Queue/Stopped.antt =====
-- A journal of packages/agent-journal/src/index.ts after a failed write, and after `close`.
use botroost.Prelude.{◌≡◌, refl, true, arith, List, [], ◌∷◌, if_rule, text_test}
use botroost.Journal.Append.{Codec, Writer, FileAgentJournal}
use botroost.Journal.Queue.{Call, Queued, submit, start, take_next, run_next, close}
use botroost.Journal.Queue.Safety.{Reply, Step, submits, runs, closes, Reach, here, next}

module _ (codec : Codec) where
  -- A poisoned journal stays as it is.
  record IsStuck (s : FileAgentJournal) (q : Queued) : Type 0 where
    poisoned : q.journal.poisoned ≡ true
    entries : q.journal.entries ≡ s.entries
    file : q.journal.file ≡ s.file

  take_next-IsStuck :
      (w : Writer) (s : FileAgentJournal) (q : Queued) (calls : List Call)
      → IsStuck s q
      → IsStuck s (take_next codec w q.journal calls)
  unfolding take_next start
  take_next-IsStuck w s q [] v = record {
    poisoned = v.poisoned;
    entries = v.entries;
    file = v.file;
  }
  take_next-IsStuck w s q (call ∷ calls) v =
      if_rule
        (λ (r : Reply FileAgentJournal). IsStuck s (record { journal = r.1; pending = calls }))
        q.journal.poisoned _ _
        (λ _. record { poisoned = v.poisoned; entries = v.entries; file = v.file })
        (λ healthy. absurd (ground (arith, v.poisoned)))

  Step-IsStuck : (s : FileAgentJournal) {q r : Queued} → Step codec q r → IsStuck s q → IsStuck s r
  unfolding submit run_next close
  Step-IsStuck s {q} (submits call c) v = ground (arith, v.poisoned, v.entries, v.file)
  Step-IsStuck s {q} (runs w) v = take_next-IsStuck w s q q.pending v
  Step-IsStuck s {q} closes v = record { poisoned = v.poisoned; entries = v.entries; file = v.file }

  Reach-IsStuck :
      (s : FileAgentJournal) {q r : Queued} → Reach codec q r → IsStuck s q → IsStuck s r
  Reach-IsStuck s here v = v
  Reach-IsStuck s (next way step) v = Step-IsStuck s step (Reach-IsStuck s way v)

  -- Once a write has failed, no call, queued or new, changes the entries or the file again.
  pub poisoned_for_good :
      {q r : Queued}
      → q.journal.poisoned ≡ true
      → Reach codec q r
      → (r.journal.poisoned ≡ true)
        × (r.journal.entries ≡ q.journal.entries)
        × (r.journal.file ≡ q.journal.file)
  poisoned_for_good {q} p way =
      let v = Reach-IsStuck q.journal way (record { poisoned = p; entries = refl; file = refl }) in
      (v.poisoned, v.entries, v.file)

  record IsIdle (s : FileAgentJournal) (q : Queued) : Type 0 where
    closed : q.journal.closed ≡ true
    entries : q.journal.entries ≡ s.entries
    file : q.journal.file ≡ s.file
    nothing : q.pending ≡ []

  take_next-IsIdle :
      (w : Writer) (s : FileAgentJournal) (q : Queued) (calls : List Call)
      → calls ≡ []
      → IsIdle s q
      → IsIdle s (take_next codec w q.journal calls)
  unfolding take_next
  take_next-IsIdle w s q [] e v = record {
    closed = v.closed;
    entries = v.entries;
    file = v.file;
    nothing = refl;
  }
  take_next-IsIdle w s q (call ∷ calls) e v = absurd (ground arith)

  Step-IsIdle : (s : FileAgentJournal) {q r : Queued} → Step codec q r → IsIdle s q → IsIdle s r
  unfolding submit run_next close
  Step-IsIdle s {q} (submits call k) v = ground (arith, v.closed, v.entries, v.file, v.nothing)
  Step-IsIdle s {q} (runs w) v = take_next-IsIdle w s q q.pending v.nothing v
  Step-IsIdle s {q} closes v = record {
    closed = refl;
    entries = v.entries;
    file = v.file;
    nothing = v.nothing;
  }

  Reach-IsIdle : (s : FileAgentJournal) {q r : Queued} → Reach codec q r → IsIdle s q → IsIdle s r
  Reach-IsIdle s here v = v
  Reach-IsIdle s (next way step) v = Step-IsIdle s step (Reach-IsIdle s way v)

  -- Once the journal is closed and its queue has run, nothing changes the entries or the file.
  closed_for_good :
      {q r : Queued}
      → q.journal.closed ≡ true
      → q.pending ≡ []
      → Reach codec q r
      → (r.journal.entries ≡ q.journal.entries)
        × (r.journal.file ≡ q.journal.file)
        × (r.pending ≡ [])
  closed_for_good {q} c n way =
      let v =
        Reach-IsIdle q.journal way
          (record { closed = c; entries = refl; file = refl; nothing = n }) in
      (v.entries, v.file, v.nothing)
