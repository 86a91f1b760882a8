-- ===== src/Traffic/Tests.antt =====
-- The theorems at concrete lines, and a run of the accumulator.
use botroost.Prelude.{
  ◌≡◌, ◌≤◌, ◌+◌, refl, sym, subst, inl, inr, Bool-cases, eq_iff, String, Option, none, some, List,
  [], ◌∷◌, ◌==◌, text_test, if◌then◌else◌, map, lookup, insert, IsSorted, arith,
}
use botroost.Traffic.{
  TrafficEvent, ConnectionEvent, Accumulator, Parsers, Direction, Scope, Transport, Status, ingest,
  ingest_lines, ingest_line, prune,
}
use botroost.Traffic.Window.{
  IsRecent, Agrees, event_time, connection_time, ingest-IsRecent_in_order,
}
use botroost.Traffic.Again.{ingest_again}
use botroost.Traffic.Summary.{summary, summary_counts, sum_totals, traffic_window, bucket, Bucket}

abbrev received : TrafficEvent
received = record {
  id = "r";
  at = 600010;
  direction = Direction.inbound;
  scope = Scope.group;
  bytes = 20;
}

abbrev answered : TrafficEvent
answered = record received { id = "a"; at = 600020; direction = Direction.outbound }

abbrev started : ConnectionEvent
started = record {
  id = "s";
  at = 599000;
  transport = Transport.websocket_server;
  status = Status.listening;
}

abbrev event_in : String → Option TrafficEvent
event_in line =
    if line == "received" then some received else if line == "answered" then some answered else none

abbrev connection_in : String → Option ConnectionEvent
connection_in line = if line == "started" then some started else none

abbrev parsers : Parsers
parsers = record { parse_event = event_in; parse_connection = connection_in }

Agrees-none : (event : Option TrafficEvent) → Agrees event none
unfolding Agrees
Agrees-none none = tt
Agrees-none (some e) = tt

agree : (line : String) → Agrees (event_in line) (connection_in line)
unfolding Agrees
agree line = elim (Bool-cases (line == "started")) [
  | inl q ↦
      subst (λ l. Agrees (event_in l) (connection_in l)) (sym ((eq_iff line "started").0 q)) tt
  | inr q ↦
      subst (λ c. Agrees (event_in line) (if c then some started else none)) (sym q)
        (Agrees-none (event_in line))
]

abbrev nothing_read : Accumulator
nothing_read = record { seen = []; events = []; connections = [] }

abbrev lines : List String
lines = "answered" ∷ "noise" ∷ "received" ∷ "started" ∷ "received" ∷ []

reads_in_order : (ingest parsers 600100 lines nothing_read).events ≡ received ∷ answered ∷ []
unfolding ingest ingest_lines ingest_line prune lookup insert
reads_in_order = refl

abbrev read : Accumulator
read = record {
  seen = ("a", 600020) ∷ ("r", 600010) ∷ ("s", 599000) ∷ [];
  events = received ∷ answered ∷ [];
  connections = started ∷ [];
}

reads : ingest parsers 600100 lines nothing_read ≡ read
unfolding ingest ingest_lines ingest_line prune lookup insert
reads = refl

last_bucket :
    map (λ (b : Bucket). b.total) (summary 600100 read).0.buckets ≡ 0 ∷ 0 ∷ 0 ∷ 0 ∷ 0 ∷ 2 ∷ []
unfolding summary prune bucket traffic_window
last_bucket = refl

ingest_again_example :
    ingest parsers 600100 lines (ingest parsers 600100 lines nothing_read)
    ≡ ingest parsers 600100 lines nothing_read
ingest_again_example = ingest_again parsers agree 600100 lines nothing_read

ingest-IsRecent_in_order_example :
    IsRecent 600100 (ingest parsers 600100 lines nothing_read)
    × (IsSorted event_time (ingest parsers 600100 lines nothing_read).events
        × IsSorted connection_time (ingest parsers 600100 lines nothing_read).connections)
ingest-IsRecent_in_order_example = ingest-IsRecent_in_order parsers agree 600100 lines nothing_read

summary_counts_example :
    (((summary 600100 read).0.one_minute.inbound + (summary 600100 read).0.one_minute.outbound
        ≡ (summary 600100 read).0.one_minute.total)
      × ((summary 600100 read).0.five_minutes.inbound
            + (summary 600100 read).0.five_minutes.outbound
          ≡ (summary 600100 read).0.five_minutes.total))
    × ((sum_totals (summary 600100 read).0.buckets ≤ (summary 600100 read).0.one_minute.total)
        × ((summary 600100 read).0.one_minute.total ≤ (summary 600100 read).0.five_minutes.total))
summary_counts_example = summary_counts 600100 read (omega arith)
