-- ===== src/Traffic.antt =====
-- `NapCatTrafficAccumulator` of apps/agent/src/traffic.ts. The two parsers of log lines are
-- parameters, as they are of the class; an event carries its time in milliseconds, where the source
-- keeps the ISO text and parses it again. Times are after 1970-01-01 00:05 UTC, so that the start
-- of the window is no negative number.
pub mod Window
pub mod Again
pub mod Summary
mod Tests
use botroost.Prelude.{
  ℕ, suc, ◌+◌, ◌-◌, ◌*◌, ◌/◌, String, Bool, true, false, not, ◌&&◌, ◌||◌, Option, none, some, List,
  [], ◌∷◌, ◌++◌, ltb, leb, ◌==◌, text_test, if◌then◌else◌, is_some, length, keep, Assoc, lookup,
  insert, sort_by,
}

pub data Direction : Type 0 where
  inbound outbound : Direction

pub data Scope : Type 0 where
  group private unknown : Scope

pub record TrafficEvent : Type 0 where
  pub id : String
  pub at : ℕ
  pub direction : Direction
  pub scope : Scope
  pub bytes : ℕ

pub data Transport : Type 0 where
  websocket_client websocket_server : Transport

pub data Status : Type 0 where
  listening connected disconnected reconnecting error : Status

pub record ConnectionEvent : Type 0 where
  pub id : String
  pub at : ℕ
  pub transport : Transport
  pub status : Status

pub record Accumulator : Type 0 where
  pub seen : Assoc String ℕ
  pub events : List TrafficEvent
  pub connections : List ConnectionEvent

pub record Parsers : Type 0 where
  pub parse_event : String → Option TrafficEvent
  pub parse_connection : String → Option ConnectionEvent

-- `5 * 60_000`
abbrev pub window_ms : ℕ
window_ms = 300000

-- `at >= now - 5 * 60_000`
abbrev pub is_recent : ℕ → ℕ → Bool
is_recent now at = leb now (at + window_ms)

unfoldable pub prune : ℕ → Accumulator → Accumulator
prune now s = record {
  seen = keep (λ (e : String × ℕ). is_recent now e.1) s.seen;
  events = keep (λ (e : TrafficEvent). is_recent now e.at) s.events;
  connections = keep (λ (e : ConnectionEvent). is_recent now e.at) s.connections;
}

-- `event ?? connection`: the id and the time.
abbrev pub parsed : Option TrafficEvent → Option ConnectionEvent → Option (String × ℕ)
parsed none none = none
parsed none (some connection) = some (connection.id, connection.at)
parsed (some event) connection = some (event.id, event.at)

abbrev push {ℓ} : {A : Type ℓ} → Option A → List A → List A
push none xs = xs
push (some x) xs = xs ++ x ∷ []

-- `at < now - 5 * 60_000 || at > now + 30_000`, negated.
abbrev pub is_timely : ℕ → ℕ → Bool
is_timely now at = is_recent now at && leb at (now + 30000)

abbrev add :
    ℕ
    → Option TrafficEvent
    → Option ConnectionEvent
    → Option (String × ℕ)
    → Accumulator
    → Accumulator
add now event connection none s = s
add now event connection (some (id, at)) s =
    if is_some (lookup id s.seen) || not (is_timely now at) then s else record {
      seen = insert id at s.seen;
      events = push event s.events;
      connections = push connection s.connections;
    }

-- The two `sort` calls by time.
abbrev pub sorted : Accumulator → Accumulator
sorted s = record s {
  events = sort_by (λ (e : TrafficEvent). e.at) s.events;
  connections = sort_by (λ (e : ConnectionEvent). e.at) s.connections;
}

module _ (parsers : Parsers) where
  -- The body of the loop over the lines.
  unfoldable pub ingest_line : ℕ → String → Accumulator → Accumulator
  ingest_line now line s =
      let event = parsers.parse_event line in
      let connection = parsers.parse_connection line in
      add now event connection (parsed event connection) s

  unfoldable pub ingest_lines : ℕ → List String → Accumulator → Accumulator
  ingest_lines now [] s = s
  ingest_lines now (line ∷ lines) s = ingest_lines now lines (ingest_line now line s)

  -- `ingest`
  unfoldable pub ingest : ℕ → List String → Accumulator → Accumulator
  ingest now lines s = prune now (sorted (ingest_lines now lines (prune now s)))
