-- ===== src/Journal/Open/Corruption.antt =====
-- `open` of packages/agent-journal/src/index.ts on a file with a record that is no JSON.
use mathlib.Core.List.{append-nil}
use botroost.Prelude.{
  ℕ, suc, ◌+◌, ◌≡◌, ap, ◌∙◌, Bool, true, false, List, [], ◌∷◌, ◌++◌, map, arith, All, length,
  if◌then◌else◌,
}
use botroost.Journal.{Event, ok, err, Entries, apply_all, corrupt_record}
use botroost.Journal.Append.{Codec, not_json, newline}
use botroost.Journal.Open.{scan, unlines, is_blank, replay, open_file}
use botroost.Journal.Open.Lines.{
  NoNewline, scan-line, scan-NoNewline, log_bytes, scan-log_bytes, unlines-log_bytes,
}
use botroost.Journal.Open.Recovery.{Codes, replay-append, lines_of_Codes}

module _ (codec : Codec) where
  replay-not_json :
      (cut : Bool) (i : ℕ) (entries : Entries) (l : List ℕ)
      → is_blank l ≡ false
      → codec.decode l ≡ not_json
      → replay codec.decode cut i entries (l ∷ [])
        ≡ (if cut then ok entries else err (corrupt_record (suc i)))
  unfolding replay
  replay-not_json cut i entries l b d = rw (b, d, replay)

  scan-bad :
      (events : List Event) (l rest : List ℕ)
      → All (Codes codec) events
      → NoNewline l
      → NoNewline rest
      → scan [] (log_bytes codec events ++ (l ++ newline ∷ rest))
        ≡ (map codec.encode events ++ l ∷ [], rest)
  scan-bad events l rest c h k =
      scan-log_bytes codec events (l ++ newline ∷ rest) (lines_of_Codes codec events c)
      ∙ ap (λ p. (map codec.encode events ++ p.0, p.1))
          (scan-line [] l rest h ∙ ap (λ p. (l ∷ p.0, p.1)) (scan-NoNewline [] rest k))

  -- Good records, then a line that is no JSON: with the beginning of another record behind it, the
  -- file opens, without that line's record, and is cut to end in that line; the file that this
  -- leaves is refused at the next opening.
  pub torn_hides_corruption :
      (events : List Event) (last : Entries) (l rest : List ℕ)
      → All (Codes codec) events
      → apply_all [] events ≡ ok last
      → NoNewline l
      → is_blank l ≡ false
      → codec.decode l ≡ not_json
      → NoNewline rest
      → is_blank rest ≡ false
      → (open_file codec.decode (log_bytes codec events ++ (l ++ newline ∷ rest))
          ≡ ok (record { entries = last; file = log_bytes codec events ++ (l ++ newline ∷ []) }))
        × (open_file codec.decode (log_bytes codec events ++ (l ++ newline ∷ []))
            ≡ err (corrupt_record (length events + 1)))
  unfolding open_file unlines
  torn_hides_corruption events last l rest c e h b d k t =
      let text =
        unlines-log_bytes codec events (l ∷ [])
        ∙ ap (λ f. log_bytes codec events ++ f) (append-nil (l ++ newline ∷ [])) in
      let index : suc (length events + 0) ≡ length events + 1 = omega arith in
      (
        rw (
          scan-bad events l rest c h k,
          t,
          replay-append codec true 0 [] last events (l ∷ []) c e,
          replay-not_json true (length events + 0) last l b d,
          text,
        ),
        rw (
          scan-bad events l [] c h tt,
          replay-append codec false 0 [] last events (l ∷ []) c e,
          replay-not_json false (length events + 0) last l b d,
          index,
        ),
      )
