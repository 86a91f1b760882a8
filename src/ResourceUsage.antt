-- ===== src/ResourceUsage.antt =====
-- `ResourceUsageSampler` of apps/agent/src/resource-usage.ts, for calls one after another. A
-- percentage and the limits are natural numbers in a unit of the caller's; what the reader gives
-- for a container is usable, or it is what the source refuses, a negative or an infinite number.
pub mod Freshness
pub mod Throttle
mod Tests
use botroost.Prelude.{
  ℕ, ◌+◌, String, Bool, true, false, not, ◌&&◌, ◌||◌, Option, none, some, List, [], ◌∷◌, ◌++◌, leb,
  ◌==◌, text_test, if◌then◌else◌, any, keep, is_some, Assoc, lookup, insert,
}

pub record DockerResourceSample : Type 0 where
  pub cpu_percent : ℕ
  pub memory_bytes : ℕ

pub data Reading : Type 0 where
  usable : DockerResourceSample → Reading
  unusable : Reading

pub record Stamped : Type 0 where
  pub sample : DockerResourceSample
  pub observed_at : ℕ

-- `lastAttempt` is none where the source has -Infinity.
pub record ResourceUsageSampler : Type 0 where
  pub last_attempt : Option ℕ
  pub samples : Assoc String Stamped

pub record ResourceTarget : Type 0 where
  pub endpoint_id : String
  pub container_id : Option String
  pub state : String
  pub cpu_limit_millis : Option ℕ
  pub memory_limit_bytes : Option ℕ

pub data Status : Type 0 where
  ok unavailable stopped : Status

pub record ResourceUsage : Type 0 where
  pub status : Status
  pub sample : Option Stamped
  pub cpu_limit_millis : Option ℕ
  pub memory_limit_bytes : Option ℕ

-- How an attempt ends: the reader's map, with the time at which it was there, or an exception, such
-- as of the deadline or of `signal`.
pub data Attempt : Type 0 where
  read : ℕ → Assoc String Reading → Attempt
  failed : Attempt

-- A call of `sample`: the clock as it tests it and as it writes it to `lastAttempt`, and the attempt,
-- if it makes one.
pub record Call : Type 0 where
  pub checked : ℕ
  pub began : ℕ
  pub targets : List ResourceTarget
  pub attempt : Attempt

interval_ms : ℕ
interval_ms = 5000

-- `target.containerId`, where an empty text counts as none.
abbrev container : Option String → Option String
container none = none
container (some id) = if id == "" then none else some id

-- The container of a running target.
unfoldable pub running_container : ResourceTarget → Option String
running_container target = if target.state == "running" then container target.container_id else none

abbrev add_id : Option String → List String → List String
add_id none ids = ids
add_id (some id) ids = if any (λ (other : String). other == id) ids then ids else ids ++ id ∷ []

-- `[...new Set(...)]`
unfoldable pub ids_of : List ResourceTarget → List String → List String
ids_of [] ids = ids
ids_of (target ∷ targets) ids = ids_of targets (add_id (running_container target) ids)

set_reading : ℕ → String → Option Reading → Assoc String Stamped → Assoc String Stamped
set_reading observed_at id none samples = samples
set_reading observed_at id (some unusable) samples = samples
set_reading observed_at id (some (usable s)) samples =
    insert id (record { sample = s; observed_at = observed_at }) samples

fill : ℕ → List String → Assoc String Reading → Assoc String Stamped → Assoc String Stamped
unfolding set_reading
fill observed_at [] readings samples = samples
fill observed_at (id ∷ ids) readings samples =
    fill observed_at ids readings (set_reading observed_at id (lookup id readings) samples)

-- `collect`: it clears what was there, whether the attempt succeeds or not. The clock is read again
-- after the reader has answered.
unfoldable pub collect : List String → Attempt → Assoc String Stamped
unfolding fill
collect ids failed = []
collect ids (read observed_at readings) = fill observed_at ids readings []

-- `Date.now() - this.lastAttempt >= RESOURCE_SAMPLE_INTERVAL_MS`
unfoldable pub is_due : ℕ → Option ℕ → Bool
unfolding interval_ms
is_due now none = true
is_due now (some last) = leb (last + interval_ms) now

abbrev pub is_empty : List String → Bool
is_empty [] = true
is_empty (id ∷ ids) = false

-- The samples of containers that no target runs any more go.
unfoldable pub active_samples : List String → Assoc String Stamped → Assoc String Stamped
active_samples ids samples =
    keep (λ (e : String × Stamped). any (λ (id : String). id == e.0) ids) samples

-- Whether the call makes an attempt.
unfoldable pub is_attempted : Call → List String → ResourceUsageSampler → Bool
is_attempted call ids s = not (is_empty ids) && is_due call.checked s.last_attempt

-- The first half of `sample`: the state after an attempt, if one is made.
unfoldable pub refresh : Call → List String → ResourceUsageSampler → ResourceUsageSampler
unfolding is_attempted
refresh call ids s =
    if is_attempted call ids s
    then record { last_attempt = some call.began; samples = collect ids call.attempt }
    else record s { samples = active_samples ids s.samples }

abbrev find : Option String → Assoc String Stamped → Option Stamped
find none samples = none
find (some id) samples = lookup id samples

is_idle : ResourceTarget → Bool
is_idle target =
    is_some (container target.container_id)
    && (target.state == "exited" || target.state == "created")

abbrev status_for : Option Stamped → Bool → Status
status_for (some s) idle = ok
status_for none idle = if idle then stopped else unavailable

unfoldable pub usage : Assoc String Stamped → ResourceTarget → ResourceUsage
unfolding is_idle
usage samples target = record {
  status = status_for (find (running_container target) samples) (is_idle target);
  sample = find (running_container target) samples;
  cpu_limit_millis = target.cpu_limit_millis;
  memory_limit_bytes = target.memory_limit_bytes;
}

usages :
    Assoc String Stamped
    → List ResourceTarget
    → Assoc String ResourceUsage
    → Assoc String ResourceUsage
usages samples [] m = m
usages samples (target ∷ targets) m =
    usages samples targets (insert target.endpoint_id (usage samples target) m)

-- `sample`
unfoldable pub sample :
    Call → ResourceUsageSampler → Assoc String ResourceUsage × ResourceUsageSampler
unfolding usages
sample call s =
    let after = refresh call (ids_of call.targets []) s in
    (usages after.samples call.targets [], after)
