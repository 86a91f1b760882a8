-- ===== src/Traffic/Window.antt =====
-- The accumulator of apps/agent/src/traffic.ts: what it holds after it has read log lines.
use botroost.Prelude.{
  ℕ, String, ◌≡◌, refl, sym, subst, true, not, ◌||◌, Option, none, some, List, [], ◌∷◌, ◌==◌,
  text_test, if_rule, is_some, Assoc, lookup, insert, IsSorted, sort_by-IsSorted, All-sort_by, All,
  All-append, keep-All, keep_all, arith,
}
use botroost.Traffic.{
  TrafficEvent, ConnectionEvent, Accumulator, Parsers, is_recent, is_timely, prune, parsed,
  ingest_line, ingest_lines, ingest, sorted, add,
}

abbrev pub event_time : TrafficEvent → ℕ
event_time e = e.at

abbrev pub connection_time : ConnectionEvent → ℕ
connection_time e = e.at

-- Everything that is held is of the last five minutes.
pub record IsRecent (now : ℕ) (s : Accumulator) : Type 0 where
  pub seen : All (λ (e : String × ℕ). is_recent now e.1 ≡ true) s.seen
  pub events : All (λ (e : TrafficEvent). is_recent now e.at ≡ true) s.events
  pub connections : All (λ (e : ConnectionEvent). is_recent now e.at ≡ true) s.connections

pub prune-IsRecent : (now : ℕ) (s : Accumulator) → IsRecent now (prune now s)
unfolding prune
prune-IsRecent now s = record {
  seen = keep-All (λ (e : String × ℕ). is_recent now e.1) s.seen;
  events = keep-All (λ (e : TrafficEvent). is_recent now e.at) s.events;
  connections = keep-All (λ (e : ConnectionEvent). is_recent now e.at) s.connections;
}

pub prune_recent : (now : ℕ) (s : Accumulator) → IsRecent now s → prune now s ≡ s
unfolding prune
prune_recent now s r =
    rw
      (
        keep_all (λ (e : String × ℕ). is_recent now e.1) s.seen r.seen,
        keep_all (λ (e : TrafficEvent). is_recent now e.at) s.events r.events,
        keep_all (λ (e : ConnectionEvent). is_recent now e.at) s.connections r.connections,
      )
      refl

insert-recent :
    (now : ℕ) (id : String) (at : ℕ) (m : Assoc String ℕ)
    → is_recent now at ≡ true
    → All (λ (e : String × ℕ). is_recent now e.1 ≡ true) m
    → All (λ (e : String × ℕ). is_recent now e.1 ≡ true) (insert id at m)
unfolding insert
insert-recent now id at [] r h = (r, tt)
insert-recent now id at (e ∷ m) r h =
    if_rule (λ x. All (λ (e : String × ℕ). is_recent now e.1 ≡ true) x) (e.0 == id) _ _
      (λ _. (r, h.1)) (λ _. (h.0, insert-recent now id at m r h.1))

-- The times of what a line is parsed to are the same, or there is one of them only.
unfoldable pub Agrees : Option TrafficEvent → Option ConnectionEvent → Type 0
Agrees (some event) (some connection) = event.at ≡ connection.at
Agrees _ _ = Unit

recent_of_timely : (now at : ℕ) → is_timely now at ≡ true → is_recent now at ≡ true
recent_of_timely now at h = ground (arith, h)

module _ (parsers : Parsers)
    (agree : (line : String)
      → Agrees (parsers.parse_event line) (parsers.parse_connection line)) where
  add-IsRecent :
      (now : ℕ) (event : Option TrafficEvent) (connection : Option ConnectionEvent)
      (s : Accumulator)
      → Agrees event connection
      → IsRecent now s
      → IsRecent now (add now event connection (parsed event connection) s)
  unfolding Agrees
  add-IsRecent now none none s a r = r
  add-IsRecent now none (some c) s a r =
      if_rule (λ t. IsRecent now t) (is_some (lookup c.id s.seen) || not (is_timely now c.at)) _ _
        (λ _. r)
        (λ q.
          let recent : is_recent now c.at ≡ true = ground (arith, q) in
          record {
            seen = insert-recent now c.id c.at s.seen recent r.seen;
            events = r.events;
            connections = All-append _ s.connections (c ∷ []) r.connections (recent, tt);
          })
  add-IsRecent now (some e) none s a r =
      if_rule (λ t. IsRecent now t) (is_some (lookup e.id s.seen) || not (is_timely now e.at)) _ _
        (λ _. r)
        (λ q.
          let recent : is_recent now e.at ≡ true = ground (arith, q) in
          record {
            seen = insert-recent now e.id e.at s.seen recent r.seen;
            events = All-append _ s.events (e ∷ []) r.events (recent, tt);
            connections = r.connections;
          })
  add-IsRecent now (some e) (some c) s a r =
      if_rule (λ t. IsRecent now t) (is_some (lookup e.id s.seen) || not (is_timely now e.at)) _ _
        (λ _. r)
        (λ q.
          let recent : is_recent now e.at ≡ true = ground (arith, q) in
          let recent_too : is_recent now c.at ≡ true = ground (arith, recent, a) in
          record {
            seen = insert-recent now e.id e.at s.seen recent r.seen;
            events = All-append _ s.events (e ∷ []) r.events (recent, tt);
            connections = All-append _ s.connections (c ∷ []) r.connections (recent_too, tt);
          })

  ingest_lines-IsRecent :
      (now : ℕ) (lines : List String) (s : Accumulator)
      → IsRecent now s
      → IsRecent now (ingest_lines parsers now lines s)
  unfolding ingest_lines ingest_line
  ingest_lines-IsRecent now [] s r = r
  ingest_lines-IsRecent now (line ∷ lines) s r =
      ingest_lines-IsRecent now lines (ingest_line parsers now line s) (
        add-IsRecent now (parsers.parse_event line) (parsers.parse_connection line) s (agree line)
          r)

  sorted-IsRecent : (now : ℕ) (s : Accumulator) → IsRecent now s → IsRecent now (sorted s)
  sorted-IsRecent now s r = record {
    seen = r.seen;
    events = All-sort_by event_time _ s.events r.events;
    connections = All-sort_by connection_time _ s.connections r.connections;
  }

  pub ingest-IsRecent :
      (now : ℕ) (lines : List String) (s : Accumulator) → IsRecent now (ingest parsers now lines s)
  unfolding ingest
  ingest-IsRecent now lines s =
      prune-IsRecent now (sorted (ingest_lines parsers now lines (prune now s)))

  -- The last pruning of `ingest` finds nothing to do.
  pub ingest_unpruned :
      (now : ℕ) (lines : List String) (s : Accumulator)
      → ingest parsers now lines s ≡ sorted (ingest_lines parsers now lines (prune now s))
  unfolding ingest
  ingest_unpruned now lines s =
      prune_recent now _
        (sorted-IsRecent now _ (ingest_lines-IsRecent now lines _ (prune-IsRecent now s)))

  -- Where the two parsers read the same time from a line that both accept, all that the accumulator
  -- holds after reading lines is of the last five minutes, and its messages and its connections
  -- stand in the order of their times.
  pub ingest-IsRecent_in_order :
      (now : ℕ) (lines : List String) (s : Accumulator)
      → IsRecent now (ingest parsers now lines s)
        × (IsSorted event_time (ingest parsers now lines s).events
            × IsSorted connection_time (ingest parsers now lines s).connections)
  ingest-IsRecent_in_order now lines s =
      let first = ingest_lines parsers now lines (prune now s) in
      let shown = ingest_unpruned now lines s in
      (
        ingest-IsRecent now lines s,
        (
          subst (λ (u : Accumulator). IsSorted event_time u.events) (sym shown)
              (sort_by-IsSorted event_time first.events),
          subst (λ (u : Accumulator). IsSorted connection_time u.connections) (sym shown)
              (sort_by-IsSorted connection_time first.connections),
        ),
      )
