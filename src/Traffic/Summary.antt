-- ===== src/Traffic/Summary.antt =====
-- `summary` of apps/agent/src/traffic.ts: its windows, its buckets of ten seconds and its lists of
-- the latest events. The fields `source` and `privacy` are constants and are left out.
use mathlib.Core.List.{reverse}
use botroost.Prelude.{
  ℕ, ◌+◌, ◌-◌, ◌*◌, ◌/◌, ◌≤◌, ◌<◌, ◌≡◌, Bool, true, false, ◌&&◌, List, [], ◌∷◌, ltb, leb, length,
  drop, keep, length-keep-le, map, arith,
}
use botroost.Traffic.{TrafficEvent, ConnectionEvent, Accumulator, Direction, prune}

pub record Window : Type 0 where
  pub inbound : ℕ
  pub outbound : ℕ
  pub total : ℕ
  pub bytes : ℕ

pub record Bucket : Type 0 where
  pub started_at : ℕ
  pub inbound : ℕ
  pub outbound : ℕ
  pub total : ℕ

pub record TrafficSummary : Type 0 where
  pub one_minute : Window
  pub five_minutes : Window
  pub buckets : List Bucket
  pub recent : List TrafficEvent
  pub recent_connections : List ConnectionEvent

abbrev pub is_inbound : TrafficEvent → Bool
is_inbound e = elim e.direction [ Direction.inbound ↦ true | Direction.outbound ↦ false ]

abbrev sum_bytes : List TrafficEvent → ℕ
sum_bytes [] = 0
sum_bytes (e ∷ es) = e.bytes + sum_bytes es

abbrev window_of : List TrafficEvent → Window
window_of events = record {
  inbound = length (keep is_inbound events);
  outbound = length events - length (keep is_inbound events);
  total = length events;
  bytes = sum_bytes events;
}

-- `window(milliseconds)`
unfoldable pub traffic_window : ℕ → ℕ → List TrafficEvent → Window
traffic_window now milliseconds events =
    window_of (keep (λ (e : TrafficEvent). leb now (e.at + milliseconds)) events)

abbrev pub is_within : ℕ → TrafficEvent → Bool
is_within started_at e = leb started_at e.at && ltb e.at (started_at + 10000)

abbrev bucket_of : ℕ → List TrafficEvent → Bucket
bucket_of started_at events = record {
  started_at = started_at;
  inbound = length (keep is_inbound events);
  outbound = length events - length (keep is_inbound events);
  total = length events;
}

unfoldable pub bucket : ℕ → List TrafficEvent → Bucket
bucket started_at events = bucket_of started_at (keep (is_within started_at) events)

-- `Math.floor(now / 10_000) * 10_000`
abbrev pub current_bucket : ℕ → ℕ
current_bucket now = now / 10000 * 10000

-- The starts of the six buckets; a time of a minute or more makes none of them negative.
abbrev pub bucket_starts : ℕ → List ℕ
bucket_starts current =
    (current - 50000)
    ∷ (current - 40000)
    ∷ (current - 30000)
    ∷ (current - 20000)
    ∷ (current - 10000)
    ∷ current
    ∷ []

-- `slice(-40).reverse()`
abbrev latest {ℓ} : {A : Type ℓ} → List A → List A
latest xs = reverse (drop (length xs - 40) xs)

summarize : ℕ → Accumulator → TrafficSummary
unfolding traffic_window bucket
summarize now s = record {
  one_minute = traffic_window now 60000 s.events;
  five_minutes = traffic_window now 300000 s.events;
  buckets = map (λ start. bucket start s.events) (bucket_starts (current_bucket now));
  recent = latest s.events;
  recent_connections = latest s.connections;
}

unfoldable pub summary : ℕ → Accumulator → TrafficSummary × Accumulator
unfolding summarize
summary now s = (summarize now (prune now s), prune now s)

unfoldable pub sum_totals : List Bucket → ℕ
sum_totals [] = 0
sum_totals (b ∷ bs) = b.total + sum_totals bs

abbrev tick : Bool → ℕ
tick true = 1
tick false = 0

length-keep :
    (p : TrafficEvent → Bool) (e : TrafficEvent) (es : List TrafficEvent)
    → length (keep p (e ∷ es)) ≡ tick (p e) + length (keep p es)
length-keep p e es = ground arith

-- An event is in one of six adjoining buckets at most, and then it is less than a minute old.
one_bucket :
    (now current : ℕ) (at : ℕ)
    → current ≤ now
    → now < current + 10000
    → 50000 ≤ current
    → tick (leb (current - 50000) at && ltb at (current - 50000 + 10000))
        + (tick (leb (current - 40000) at && ltb at (current - 40000 + 10000))
            + (tick (leb (current - 30000) at && ltb at (current - 30000 + 10000))
                + (tick (leb (current - 20000) at && ltb at (current - 20000 + 10000))
                    + (tick (leb (current - 10000) at && ltb at (current - 10000 + 10000))
                        + (tick (leb current at && ltb at (current + 10000)) + 0)))))
      ≤ tick (leb now (at + 60000))
one_bucket now current at low high big = ground (arith, low, high, big)

buckets_count :
    (now current : ℕ) (es : List TrafficEvent)
    → current ≤ now
    → now < current + 10000
    → 50000 ≤ current
    → sum_totals (map (λ start. bucket start es) (bucket_starts current))
      ≤ (traffic_window now 60000 es).total
unfolding bucket traffic_window sum_totals
buckets_count now current [] low high big = omega arith
buckets_count now current (e ∷ es) low high big = omega (
  arith,
  buckets_count now current es low high big,
  one_bucket now current e.at low high big,
  length-keep (is_within (current - 50000)) e es,
  length-keep (is_within (current - 40000)) e es,
  length-keep (is_within (current - 30000)) e es,
  length-keep (is_within (current - 20000)) e es,
  length-keep (is_within (current - 10000)) e es,
  length-keep (is_within current) e es,
  length-keep (λ (x : TrafficEvent). leb now (x.at + 60000)) e es,
)

minute_in_five :
    (now : ℕ) (es : List TrafficEvent)
    → (traffic_window now 60000 es).total ≤ (traffic_window now 300000 es).total
unfolding traffic_window
minute_in_five now [] = omega arith
minute_in_five now (e ∷ es) = ground (arith, minute_in_five now es)

split_directions :
    (es : List TrafficEvent)
    → (window_of es).inbound + (window_of es).outbound ≡ (window_of es).total
split_directions es = omega (arith, length-keep-le is_inbound es)

bucket_bounds :
    (now : ℕ)
    → 60000 ≤ now
    → (current_bucket now ≤ now)
      × ((now < current_bucket now + 10000) × (50000 ≤ current_bucket now))
bucket_bounds now h = (omega arith, (omega arith, omega (arith, h)))

-- In a summary at a time of at least a minute, the messages in and out of each window make up its
-- total, the six buckets count no message twice and none that is older than a minute, and the last
-- minute is part of the last five.
pub summary_counts :
    (now : ℕ) (s : Accumulator)
    → 60000 ≤ now
    → (((summary now s).0.one_minute.inbound + (summary now s).0.one_minute.outbound
          ≡ (summary now s).0.one_minute.total)
        × ((summary now s).0.five_minutes.inbound + (summary now s).0.five_minutes.outbound
            ≡ (summary now s).0.five_minutes.total))
      × ((sum_totals (summary now s).0.buckets ≤ (summary now s).0.one_minute.total)
          × ((summary now s).0.one_minute.total ≤ (summary now s).0.five_minutes.total))
unfolding summary traffic_window
summary_counts now s h =
    let es = (prune now s).events in
    let (low, (high, big)) = bucket_bounds now h in
    (
      (
        split_directions (keep (λ (e : TrafficEvent). leb now (e.at + 60000)) es),
        split_directions (keep (λ (e : TrafficEvent). leb now (e.at + 300000)) es),
      ),
      (buckets_count now (current_bucket now) es low high big, minute_in_five now es),
    )
