-- ===== src/Journal/Open.antt =====
-- The replay in `FileAgentJournal.open` of packages/agent-journal/src/index.ts: what follows the
-- last newline is cut off the file, and the records before it are parsed and applied in turn.
-- The text is split at the byte 0x0a; UTF-8 uses it for the newline only, so that this is the split
-- of the decoded text. The lock directory, the checks on the file's type and mode, and `fsync` of
-- directories are not modelled.
pub mod Lines
pub mod Recovery
pub mod Durable
pub mod Corruption
use botroost.Prelude.{
  ℕ, suc, ◌+◌, Bool, true, false, not, ◌&&◌, List, [], ◌∷◌, ◌++◌, ◌==◌, number_test, if◌then◌else◌,
}
use botroost.Journal.{Event, Result, ok, err, Entries, apply, corrupt_record, ◌>>=◌}
use botroost.Journal.Append.{Codec, Decoded, not_json, not_event, an_event, newline}

abbrev pub is_blank : List ℕ → Bool
is_blank [] = true
is_blank (b ∷ bs) = false

-- The lines that a newline ends, and the bytes after the last newline.
pub scan : List ℕ → List ℕ → List (List ℕ) × List ℕ
scan cur [] = ([], cur)
scan cur (b ∷ bs) =
    let closed = scan [] bs in
    let longer = scan (cur ++ b ∷ []) bs in
    if b == newline then (cur ∷ closed.0, closed.1) else longer

-- The bytes up to the last newline: what the file is truncated to.
pub unlines : List (List ℕ) → List ℕ
unlines [] = []
unlines (l ∷ ls) = (l ++ newline ∷ []) ++ unlines ls

abbrev is_last : List (List ℕ) → Bool
is_last [] = true
is_last (l ∷ ls) = false

-- The loop over the lines; `torn` is `!hasFinalNewline`, and `index` counts from 0.
pub replay : (List ℕ → Decoded) → Bool → ℕ → Entries → List (List ℕ) → Result Entries
replay decode torn index entries [] = ok entries
replay decode torn index entries (l ∷ ls) = elim (is_blank l) [
  | true ↦ err (corrupt_record (suc index))
  | false ↦ elim (decode l) [
    | not_json ↦ if is_last ls && torn then ok entries else err (corrupt_record (suc index))
    | not_event ↦ err (corrupt_record (suc index))
    | an_event event ↦ elim (apply entries event) [
      | ok next ↦ replay decode torn (suc index) next ls
      | err e ↦ err (corrupt_record (suc index))
    ]
  ]
]

pub record Opened : Type 0 where
  pub entries : Entries
  pub file : List ℕ

pub open_file : (List ℕ → Decoded) → List ℕ → Result Opened
unfolding scan unlines
open_file decode bytes = do
  let lines = (scan [] bytes).0
  let torn = not (is_blank (scan [] bytes).1)
  entries ← replay decode torn 0 [] lines
  ok (record { entries = entries; file = unlines lines })
