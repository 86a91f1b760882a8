-- ===== src/Journal/Open/Recovery.antt =====
-- `open` of packages/agent-journal/src/index.ts on a file of whole records, and perhaps a torn one.
use mathlib.Core.List.{append-nil}
use botroost.Prelude.{
  ℕ, suc, ◌+◌, ◌≡◌, refl, ap, ◌∙◌, Bool, false, not, List, [], ◌∷◌, ◌++◌, map, arith, All, length,
}
use botroost.Journal.{Event, ok, Entries, apply, apply_all}
use botroost.Journal.Once.{apply_all_cases}
use botroost.Journal.Append.{Codec, an_event}
use botroost.Journal.Open.{is_blank, replay, open_file}
use botroost.Journal.Open.Lines.{
  NoNewline, scan-NoNewline, log_bytes, scan-log_bytes, unlines-log_bytes,
}

-- The documented round trip of `JSON.stringify` and `JSON.parse` on one event, on one line.
pub record Codes (codec : Codec) (event : Event) : Type 0 where
  pub decoded : codec.decode (codec.encode event) ≡ an_event event
  pub one_line : NoNewline (codec.encode event)
  pub not_blank : is_blank (codec.encode event) ≡ false

module _ (codec : Codec) where
  replay-step :
      (cut : Bool) (i : ℕ) (entries next : Entries) (event : Event) (ls : List (List ℕ))
      → Codes codec event
      → apply entries event ≡ ok next
      → replay codec.decode cut i entries (codec.encode event ∷ ls)
        ≡ replay codec.decode cut (suc i) next ls
  unfolding replay
  replay-step cut i entries next event ls c e = rw (c.not_blank, c.decoded, e, replay)

  pub replay-append :
      (cut : Bool) (i : ℕ) (entries last : Entries) (events : List Event) (ls : List (List ℕ))
      → All (Codes codec) events
      → apply_all entries events ≡ ok last
      → replay codec.decode cut i entries (map codec.encode events ++ ls)
        ≡ replay codec.decode cut (length events + i) last ls
  unfolding apply_all
  replay-append cut i entries last [] ls c e =
      let same : entries ≡ last = ground arith in
      let index : i ≡ 0 + i = omega arith in
      ap (λ k. replay codec.decode cut k entries ls) index
      ∙ ap (λ u. replay codec.decode cut (0 + i) u ls) same
  replay-append cut i entries last (event ∷ events) ls c e =
      let (next, step, rest) = apply_all_cases entries last event events e in
      let index : length events + suc i ≡ length (event ∷ events) + i = omega arith in
      replay-step cut i entries next event (map codec.encode events ++ ls) c.0 step
      ∙ replay-append cut (suc i) next last events ls c.1 rest
      ∙ ap (λ k. replay codec.decode cut k last ls) index

  pub lines_of_Codes :
      (events : List Event)
      → All (Codes codec) events
      → All (λ e. NoNewline (codec.encode e)) events
  lines_of_Codes [] c = tt
  lines_of_Codes (event ∷ events) c = (c.0.one_line, lines_of_Codes events c.1)

  replay-nil :
      (cut : Bool) (i : ℕ) (entries : Entries) → replay codec.decode cut i entries [] ≡ ok entries
  unfolding replay
  replay-nil cut i entries = refl

  -- Opening a file that holds the records of accepted events, and perhaps the beginning of another,
  -- gives the entries that those events make, and cuts the file down to the whole records.
  pub open_file-log_bytes :
      (events : List Event) (last : Entries) (rest : List ℕ)
      → All (Codes codec) events
      → apply_all [] events ≡ ok last
      → NoNewline rest
      → open_file codec.decode (log_bytes codec events ++ rest)
        ≡ ok (record { entries = last; file = log_bytes codec events })
  unfolding open_file
  open_file-log_bytes events last rest c e h =
      let scanned =
        scan-log_bytes codec events rest (lines_of_Codes events c)
        ∙ ap (λ p. (map codec.encode events ++ p.0, p.1)) (scan-NoNewline [] rest h) in
      let text = unlines-log_bytes codec events [] ∙ append-nil (log_bytes codec events) in
      rw (scanned, replay-append (not (is_blank rest)) 0 [] last events [] c e, replay-nil, text)
