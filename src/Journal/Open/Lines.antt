-- ===== src/Journal/Open/Lines.antt =====
-- How `open` of packages/agent-journal/src/index.ts splits a file of records, the last perhaps torn.
use mathlib.Core.List.{append_assoc, append-nil}
use botroost.Prelude.{
  ℕ, ◌≡◌, refl, sym, ap, ◌∙◌, ◌≢◌, ◌⊎◌, inl, inr, List, [], ◌∷◌, ◌++◌, map, arith, All, number_test,
}
use botroost.Journal.{Event}
use botroost.Journal.Append.{Codec, newline, line}
use botroost.Journal.Open.{scan, unlines}

abbrev pub NoNewline : List ℕ → Type 0
NoNewline = All (λ b. b ≢ newline)

pub scan-line :
    (cur l rest : List ℕ)
    → NoNewline l
    → scan cur (l ++ newline ∷ rest) ≡ ((cur ++ l) ∷ (scan [] rest).0, (scan [] rest).1)
unfolding scan
scan-line cur [] rest h = rw append-nil
scan-line cur (b ∷ l) rest h =
    ground (arith, scan-line (cur ++ b ∷ []) l rest h.1, append_assoc cur (b ∷ []) l)

pub scan-NoNewline : (cur l : List ℕ) → NoNewline l → scan cur l ≡ ([], cur ++ l)
unfolding scan
scan-NoNewline cur [] h = rw append-nil
scan-NoNewline cur (b ∷ l) h =
    ground (arith, scan-NoNewline (cur ++ b ∷ []) l h.1, append_assoc cur (b ∷ []) l)

-- A file of these records.
unfoldable pub log_bytes : Codec → List Event → List ℕ
log_bytes codec [] = []
log_bytes codec (event ∷ events) = line codec event ++ log_bytes codec events

pub scan-log_bytes :
    (codec : Codec) (events : List Event) (rest : List ℕ)
    → All (λ e. NoNewline (codec.encode e)) events
    → scan [] (log_bytes codec events ++ rest)
      ≡ (map codec.encode events ++ (scan [] rest).0, (scan [] rest).1)
unfolding log_bytes
scan-log_bytes codec [] rest h = refl
scan-log_bytes codec (event ∷ events) rest h =
    let body = log_bytes codec events ++ rest in
    ap (scan []) (
      append_assoc (line codec event) (log_bytes codec events) rest
      ∙ append_assoc (codec.encode event) (newline ∷ []) body)
    ∙ scan-line [] (codec.encode event) body h.0
    ∙ ap (λ p. (codec.encode event ∷ p.0, p.1)) (scan-log_bytes codec events rest h.1)

pub unlines-log_bytes :
    (codec : Codec) (events : List Event) (ls : List (List ℕ))
    → unlines (map codec.encode events ++ ls) ≡ log_bytes codec events ++ unlines ls
unfolding log_bytes unlines
unlines-log_bytes codec [] ls = refl
unlines-log_bytes codec (event ∷ events) ls =
    rw (unlines-log_bytes codec events ls)
      (sym (append_assoc (line codec event) (log_bytes codec events) (unlines ls)))

pub log_bytes-append :
    (codec : Codec) (events : List Event) (event : Event)
    → log_bytes codec (events ++ event ∷ []) ≡ log_bytes codec events ++ line codec event
unfolding log_bytes
log_bytes-append codec [] event = append-nil _
log_bytes-append codec (e ∷ events) event =
    rw (log_bytes-append codec events event)
      (sym (append_assoc (line codec e) (log_bytes codec events) (line codec event)))

-- A prefix of a record is the whole record, or a prefix of what precedes its newline.
pub prefix_cases :
    (xs before after : List ℕ) (b : ℕ)
    → before ++ after ≡ xs ++ b ∷ []
    → (after ≡ []) ⊎ ((c : List ℕ) × (before ++ c ≡ xs))
prefix_cases xs [] after b e = inr (xs, refl)
prefix_cases [] (x ∷ before) [] b e = inl refl
prefix_cases [] (x ∷ []) (y ∷ after) b e = ground arith
prefix_cases [] (x ∷ z ∷ before) (y ∷ after) b e = ground arith
prefix_cases (w ∷ xs) (x ∷ before) after b e =
    elim (prefix_cases xs before after b (ground arith)) [
      | inl h ↦ inl h
      | inr (c, h) ↦ inr (c, ground arith)
    ]

pub All-prefix : (xs ys : List ℕ) → NoNewline (xs ++ ys) → NoNewline xs
All-prefix [] ys h = tt
All-prefix (x ∷ xs) ys h = (h.0, All-prefix xs ys h.1)
