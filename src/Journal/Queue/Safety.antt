-- ===== src/Journal/Queue/Safety.antt =====
-- Interleavings of calls, runs and `close` of packages/agent-journal/src/index.ts, as a step
-- relation.
use botroost.Prelude.{
  String, List, [], ◌∷◌, All, All-append, Option-cases, inl, inr, if_rule, lookup, text_test,
}
use botroost.Json.{Fields}
use botroost.Journal.{Result, entry_at}
use botroost.Journal.Append.{
  Codec, Writer, FileAgentJournal, append, effect_in, record_receipt, record_effect, record_result,
}
use botroost.Journal.Open.Recovery.{Codes}
use botroost.Journal.Open.Durable.{IsDurable, Reopens, IsDurable-Reopens, append-IsDurable}
use botroost.Journal.Queue.{
  Kind, receipt, effect, result, Call, Queued, event_of, perform, submit, start, take_next,
  run_next, close,
}

abbrev pub Reply : Type 0 → Type 0
Reply S = Result (Unit {0}) × S

module _ (codec : Codec) where
  -- A caller submits a call whose event the codec can print and parse; the oldest call runs, with
  -- a writer that may do anything; the journal is closed.
  pub data Step (q : Queued) : Queued → Type 0 where
    submits :
        (call : Call)
        → Codes codec (event_of call.kind call.id call.payload)
        → Step q (submit call q).1
    runs : (w : Writer) → Step q (run_next codec w q)
    closes : Step q (close q)

  pub data Reach (q : Queued) : Queued → Type 0 where
    here : Reach q q
    next : {r t : Queued} → Reach q r → Step r t → Reach q t

  abbrev pub AllCoded : List Call → Type 0
  AllCoded = All (λ call. Codes codec (event_of call.kind call.id call.payload))

  pub record IsSafe (q : Queued) : Type 0 where
    pub durable : IsDurable codec q.journal
    pub coded : AllCoded q.pending

  -- Each `record` method leaves the journal alone, or appends its event.
  pub perform_lift :
      (P : FileAgentJournal → Type 0) (w : Writer) (kind : Kind) (id : String) (payload : Fields)
      (s : FileAgentJournal)
      → P s
      → P (append codec w (event_of kind id payload) s).1
      → P (perform codec w kind id payload s).1
  unfolding perform record_receipt record_effect record_result event_of
  perform_lift P w receipt id payload s stay go =
      elim (Option-cases (entry_at id s.entries).receipt) [
        | inl e ↦ rw (e, record_receipt) go
        | inr (x, e) ↦ rw (e, record_receipt) stay
      ]
  perform_lift P w (effect name) id payload s stay go =
      elim (Option-cases (effect_in (lookup id s.entries) name)) [
        | inl e ↦ rw (e, record_effect) go
        | inr (x, e) ↦ rw (e, record_effect) stay
      ]
  perform_lift P w result id payload s stay go =
      elim (Option-cases (entry_at id s.entries).result) [
        | inl e ↦ rw (e, record_result) go
        | inr (x, e) ↦ rw (e, record_result) stay
      ]

  start-IsDurable :
      (w : Writer) (call : Call) (s : FileAgentJournal)
      → Codes codec (event_of call.kind call.id call.payload)
      → IsDurable codec s
      → IsDurable codec (start codec w call s).1
  unfolding start
  start-IsDurable w call s c d =
      if_rule (λ (r : Reply FileAgentJournal). IsDurable codec r.1) s.poisoned _ _ (λ _. d)
        (λ healthy.
          perform_lift (IsDurable codec) w call.kind call.id call.payload s d
            (append-IsDurable codec w (event_of call.kind call.id call.payload) s c healthy d))

  take_next-IsSafe :
      (w : Writer) (s : FileAgentJournal) (calls : List Call)
      → IsDurable codec s
      → AllCoded calls
      → IsSafe (take_next codec w s calls)
  unfolding take_next
  take_next-IsSafe w s [] d c = record { durable = d; coded = tt }
  take_next-IsSafe w s (call ∷ calls) d c = record {
    durable = start-IsDurable w call s c.0 d;
    coded = c.1;
  }

  submit-IsSafe :
      (call : Call) (q : Queued)
      → Codes codec (event_of call.kind call.id call.payload)
      → IsSafe q
      → IsSafe (submit call q).1
  unfolding submit
  submit-IsSafe call q c v =
      if_rule (λ (r : Reply Queued). IsSafe r.1) q.journal.closed _ _ (λ _. v)
        (λ _.
          if_rule (λ (r : Reply Queued). IsSafe r.1) q.journal.poisoned _ _ (λ _. v)
            (λ _. record {
              durable = v.durable;
              coded = All-append _ q.pending (call ∷ []) v.coded (c, tt);
            }))

  -- Closing touches neither the entries nor the file.
  close-IsSafe : (q : Queued) → IsSafe q → IsSafe (close q)
  unfolding close
  close-IsSafe q v =
      let d = v.durable in
      record {
        durable = record {
          events = d.events;
          rest = d.rest;
          rebuilt = d.rebuilt;
          coded = d.coded;
          one_line = d.one_line;
          file = d.file;
          applied = d.applied;
          grows = d.grows;
          exact = d.exact;
        };
        coded = v.coded;
      }

  Step-IsSafe : {q r : Queued} → Step q r → IsSafe q → IsSafe r
  unfolding run_next
  Step-IsSafe {q} (submits call c) v = submit-IsSafe call q c v
  Step-IsSafe {q} (runs w) v = take_next-IsSafe w q.journal q.pending v.durable v.coded
  Step-IsSafe {q} closes v = close-IsSafe q v

  Reach-IsSafe : {q r : Queued} → Reach q r → IsSafe q → IsSafe r
  Reach-IsSafe here v = v
  Reach-IsSafe (next way step) v = Step-IsSafe step (Reach-IsSafe way v)

  -- From a durable journal, whatever calls are submitted and run in whatever order, and however
  -- their writers fail: opening the file again gives entries in which nothing recorded is lost or
  -- changed, exactly those in memory unless the journal is poisoned.
  pub Reach-Reopens : {q r : Queued} → IsSafe q → Reach q r → Reopens codec r.journal
  Reach-Reopens v way = IsDurable-Reopens codec _ (Reach-IsSafe way v).durable
