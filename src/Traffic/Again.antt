-- ===== src/Traffic/Again.antt =====
-- The accumulator of apps/agent/src/traffic.ts, on log lines that are read with an overlap.
use botroost.Prelude.{
  ℕ, String, ◌≡◌, refl, sym, ap, subst, ◌∙◌, true, not, ◌||◌, Option, none, some, List, [], ◌∷◌,
  text_test, if_rule, is_some, Assoc, lookup, insert, sort_by-IsSorted, sort_by_sorted, All,
  lookup-insert, lookup-insert_self, arith,
}
use botroost.Traffic.{
  TrafficEvent, ConnectionEvent, Accumulator, Parsers, is_timely, prune, parsed, ingest_line,
  ingest_lines, ingest, sorted, add,
}
use botroost.Traffic.Window.{
  prune_recent, Agrees, event_time, connection_time, ingest_unpruned, ingest-IsRecent,
}

-- A line that adds nothing: it is no event, its id is known, or its time is out of the window.
IsSettled : ℕ → Option (String × ℕ) → Assoc String ℕ → Type 0
IsSettled now none seen = Unit
IsSettled now (some (id, at)) seen = (is_some (lookup id seen) || not (is_timely now at)) ≡ true

settled_skips :
    (now : ℕ) (event : Option TrafficEvent) (connection : Option ConnectionEvent) (s : Accumulator)
    → IsSettled now (parsed event connection) s.seen
    → add now event connection (parsed event connection) s ≡ s
unfolding IsSettled
settled_skips now none none s h = refl
settled_skips now none (some c) s h = rw (h) refl
settled_skips now (some e) connection s h = rw (h) refl

insert_keeps :
    (id other : String) (at : ℕ) (seen : Assoc String ℕ)
    → is_some (lookup id seen) ≡ true
    → is_some (lookup id (insert other at seen)) ≡ true
insert_keeps id other at seen h = rw (lookup-insert other id at seen) (ground (arith, h))

IsSettled-add :
    (now : ℕ) (p : Option (String × ℕ)) (event : Option TrafficEvent)
    (connection : Option ConnectionEvent) (q : Option (String × ℕ)) (s : Accumulator)
    → IsSettled now p s.seen
    → IsSettled now p (add now event connection q s).seen
unfolding IsSettled
IsSettled-add now none event connection q s h = tt
IsSettled-add now (some (id, at)) event connection none s h = h
IsSettled-add now (some (id, at)) event connection (some (other, time)) s h =
    if_rule (λ (t : Accumulator). (is_some (lookup id t.seen) || not (is_timely now at)) ≡ true)
      (is_some (lookup other s.seen) || not (is_timely now time)) _ _ (λ _. h)
      (λ _. ground (arith, h, insert_keeps id other time s.seen))

added-IsSettled :
    (now : ℕ) (event : Option TrafficEvent) (connection : Option ConnectionEvent)
    (p : Option (String × ℕ)) (s : Accumulator)
    → IsSettled now p (add now event connection p s).seen
unfolding IsSettled
added-IsSettled now event connection none s = tt
added-IsSettled now event connection (some (id, at)) s =
    if_rule (λ (t : Accumulator). (is_some (lookup id t.seen) || not (is_timely now at)) ≡ true)
      (is_some (lookup id s.seen) || not (is_timely now at)) _ _ (λ q. q)
      (λ _. rw (lookup-insert_self id at s.seen) refl)

module _ (parsers : Parsers) where
  abbrev parsed_line : String → Option (String × ℕ)
  parsed_line line = parsed (parsers.parse_event line) (parsers.parse_connection line)

  lines_keep-IsSettled :
      (now : ℕ) (p : Option (String × ℕ)) (lines : List String) (s : Accumulator)
      → IsSettled now p s.seen
      → IsSettled now p (ingest_lines parsers now lines s).seen
  unfolding ingest_lines ingest_line
  lines_keep-IsSettled now p [] s h = h
  lines_keep-IsSettled now p (line ∷ lines) s h =
      lines_keep-IsSettled now p lines (ingest_line parsers now line s) (
        IsSettled-add now p (parsers.parse_event line) (parsers.parse_connection line)
          (parsed_line line) s h)

  all-IsSettled :
      (now : ℕ) (lines : List String) (s : Accumulator)
      → All (λ line. IsSettled now (parsed_line line) (ingest_lines parsers now lines s).seen) lines
  unfolding ingest_lines ingest_line
  all-IsSettled now [] s = tt
  all-IsSettled now (line ∷ lines) s = (
    lines_keep-IsSettled now (parsed_line line) lines (ingest_line parsers now line s) (
        added-IsSettled now (parsers.parse_event line) (parsers.parse_connection line)
          (parsed_line line) s),
    all-IsSettled now lines (ingest_line parsers now line s),
  )

  settled_lines_skip :
      (now : ℕ) (lines : List String) (s : Accumulator)
      → All (λ line. IsSettled now (parsed_line line) s.seen) lines
      → ingest_lines parsers now lines s ≡ s
  unfolding ingest_lines ingest_line
  settled_lines_skip now [] s h = refl
  settled_lines_skip now (line ∷ lines) s h =
      rw (settled_skips now (parsers.parse_event line) (parsers.parse_connection line) s h.0)
        (settled_lines_skip now lines s h.1)

  sorted_again : (s : Accumulator) → sorted (sorted s) ≡ sorted s
  sorted_again s =
      rw
        (
          sort_by_sorted event_time _ (sort_by-IsSorted event_time s.events),
          sort_by_sorted connection_time _ (sort_by-IsSorted connection_time s.connections),
        )
        refl

  -- Where the two parsers read the same time from a line that both accept, reading lines a second
  -- time at the same moment changes nothing.
  pub ingest_again :
      (agree : (line : String) → Agrees (parsers.parse_event line) (parsers.parse_connection line))
      (now : ℕ) (lines : List String) (s : Accumulator)
      → ingest parsers now lines (ingest parsers now lines s) ≡ ingest parsers now lines s
  ingest_again agree now lines s =
      let first = ingest_lines parsers now lines (prune now s) in
      let t = ingest parsers now lines s in
      let shown : t ≡ sorted first = ingest_unpruned parsers agree now lines s in
      let recent : prune now t ≡ t =
        prune_recent now t (ingest-IsRecent parsers agree now lines s) in
      let settled : ingest_lines parsers now lines t ≡ t = settled_lines_skip now lines t (
        subst (λ (u : Accumulator). All (λ line. IsSettled now (parsed_line line) u.seen) lines)
          (sym shown) (all-IsSettled now lines (prune now s))) in
      let in_order : sorted t ≡ t = ap sorted shown ∙ sorted_again first ∙ sym shown in
      ingest_unpruned parsers agree now lines t
      ∙ ap (λ u. sorted (ingest_lines parsers now lines u)) recent
      ∙ ap sorted settled
      ∙ in_order
