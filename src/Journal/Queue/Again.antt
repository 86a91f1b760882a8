-- ===== src/Journal/Queue/Again.antt =====
-- The record methods of packages/agent-journal/src/index.ts, called again for a record that is
-- there.
use botroost.Prelude.{
  String, ◌≡◌, refl, ap, subst, Bool, true, false, some, List, [], ◌∷◌, arith, eq_iff, Option-cases,
  if_rule, if◌then◌else◌, text_test, ◌==◌, inl, inr,
}
use botroost.Json.{Fields, end, obj}
use botroost.Journal.Canonical.{equal, canonicalize}
use botroost.Journal.{
  Event, Error, Result, ok, err, Member, own, method, prototype, equal_member, apply, guard,
  journal_poisoned,
}
use botroost.Journal.Rules.{equal_refl}
use botroost.Journal.Append.{Codec, Writer, FileAgentJournal, append}
use botroost.Journal.Append.Outcomes.{kept, refused, torn, append-Ended}
use botroost.Journal.Queue.{
  Kind, Call, Queued, event_of, conflict, perform, submit, start, take_next, run_next, close,
}
use botroost.Journal.Queue.Recorded.{
  recorded, recorded_new, apply-recorded, perform_known, perform_new,
}
use botroost.Journal.Queue.Safety.{
  Reply, Step, submits, runs, closes, Reach, here, next, perform_lift,
}

-- Equal payloads are equal to the same others.
equal_left : (a b c : Fields) → equal a b ≡ true → equal a c ≡ equal b c
unfolding equal
equal_left a b c e = ap (λ t. t == canonicalize (obj c)) ((eq_iff _ _).0 e)

member_left : (m : Member) (b c : Fields) → equal_member m b ≡ true → equal_member m c ≡ equal b c
unfolding equal_member
member_left (own a) b c e = equal_left a b c e
member_left method b c e = cc
member_left prototype b c e = equal_left end b c e

guard_ok :
    (same : Bool) (x : Error) (s t : FileAgentJournal)
    → ◌≡◌ {A = Result (Unit {0}) × FileAgentJournal} (guard same x, s) (ok tt, t)
    → (same ≡ true) × (s ≡ t)
guard_ok true x s t e = (refl, ap (λ p. p.1) e)
guard_ok false x s t e = absurd (ground (arith, ap (λ p. p.0) e))

module _ (codec : Codec) where
  -- A successful `append` has applied its event.
  append_ok :
      (w : Writer) (event : Event) (s : FileAgentJournal) (t : FileAgentJournal)
      → append codec w event s ≡ (ok tt, t)
      → apply s.entries event ≡ ok t.entries
  append_ok w event s t e = elim (append-Ended codec w event s) [
    | kept _ k ↦ subst (λ u. apply s.entries event ≡ ok u.entries) (ap (λ p. p.1) e) k.applied
    | refused x h _ ↦ absurd (ground (arith, ap (λ p. p.0) e))
    | torn x h _ ↦ absurd (ground (arith, ap (λ p. p.0) e))
  ]

  -- After a call that has succeeded, there is a record that its payload equals.
  perform_records :
      (w : Writer) (kind : Kind) (id : String) (payload : Fields) (s t : FileAgentJournal)
      → perform codec w kind id payload s ≡ (ok tt, t)
      → (m : Member) × (recorded kind id t.entries ≡ some m) × (equal_member m payload ≡ true)
  unfolding equal_member
  perform_records w kind id payload s t e = elim (Option-cases (recorded kind id s.entries)) [
    | inl fresh ↦
        let appended : append codec w (event_of kind id payload) s ≡ (ok tt, t) =
          rw (perform_new codec w kind id payload s fresh) at e in
        (
          own payload,
          recorded_new kind id payload s.entries t.entries
              (append_ok w (event_of kind id payload) s t appended) fresh,
          equal_refl payload,
        )
    | inr (m, found) ↦
        let (same, stays) =
          guard_ok _ _ s t (rw (perform_known codec w kind id payload s m found) at e) in
        (m, subst (λ u. recorded kind id u.entries ≡ some m) stays found, same)
  ]

  module _ (kind : Kind) (id : String) (m : Member) where
    -- The journal has the record.
    abbrev Has : FileAgentJournal → Type 0
    Has s = recorded kind id s.entries ≡ some m

    append-Has :
        (w : Writer) (event : Event) (s : FileAgentJournal) → Has s → Has (append codec w event s).1
    append-Has w event s h = elim (append-Ended codec w event s) [
      | kept _ k ↦ apply-recorded kind id m s.entries _ event k.applied h
      | refused _ _ same ↦ rw (same) h
      | torn _ _ t ↦ rw (t.entries) h
    ]

    take_next-Has :
        (w : Writer) (s : FileAgentJournal) (calls : List Call)
        → Has s
        → Has (take_next codec w s calls).journal
    unfolding take_next start
    take_next-Has w s [] h = h
    take_next-Has w s (call ∷ calls) h =
        if_rule (λ (r : Reply FileAgentJournal). Has r.1) s.poisoned _ _ (λ _. h)
          (λ _.
            perform_lift codec Has w call.kind call.id call.payload s h
              (append-Has w (event_of call.kind call.id call.payload) s h))

    Step-Has : {q r : Queued} → Step codec q r → Has q.journal → Has r.journal
    unfolding submit run_next close
    Step-Has {q} (submits call c) h = ground (arith, h)
    Step-Has {q} (runs w) h = take_next-Has w q.journal q.pending h
    Step-Has {q} closes h = h

    Reach-Has : {q r : Queued} → Reach codec q r → Has q.journal → Has r.journal
    Reach-Has here h = h
    Reach-Has (next way step) h = Step-Has step (Reach-Has way h)

  -- After a call of a record method has succeeded, and after whatever other calls were then
  -- submitted and run, however their writers fail, a call of the same method with the same ids
  -- changes nothing when it runs: it throws if the journal is poisoned; otherwise it succeeds if its
  -- payload is equal to the first, and throws that the id has a different payload if it is not.
  pub perform_again :
      {q r : Queued} (w v : Writer) (kind : Kind) (id : String) (first second : Fields)
      (s : FileAgentJournal)
      → perform codec w kind id first s ≡ (ok tt, q.journal)
      → Reach codec q r
      → start codec v (record { kind = kind; id = id; payload = second }) r.journal ≡ (
        if r.journal.poisoned
            then err journal_poisoned
            else guard (equal first second) (conflict kind),
        r.journal,
      )
  unfolding start
  perform_again {q} {r} w v kind id first second s e way =
      let (m, found, same) = perform_records w kind id first s q.journal e in
      let still = Reach-Has kind id m way found in
      rw (perform_known codec v kind id second r.journal m still, member_left m first second same)
        (ground arith)
