-- ===== src/SecurityPolicy.antt =====
-- `LoginAttemptLimiter` of apps/api/src/security-policy.ts. The key of an attempt, the folded email
-- with the address, is a parameter of the caller: trimming and folding are the platform's. Times
-- are milliseconds; a budget of `limit` failures lives for `ttl_ms` from its first failure.
pub mod Limits
pub mod Budget
mod Tests
use botroost.Prelude.{
  ℕ, zero, suc, ◌+◌, String, Bool, true, false, not, ◌&&◌, Option, none, some, List, [], ◌∷◌, ◌++◌,
  ltb, leb, ◌==◌, text_test, if◌then◌else◌, length, keep, Assoc, lookup, insert,
}

pub record Entry : Type 0 where
  pub count : ℕ
  pub reset_at : ℕ

pub record LoginAttemptLimiter : Type 0 where
  pub entries : Assoc String Entry
  pub limit : ℕ
  pub ttl_ms : ℕ
  pub capacity : ℕ

-- A budget that has not run out of time.
abbrev pub is_live : ℕ → String × Entry → Bool
is_live now e = ltb now e.1.reset_at

-- `prune`
unfoldable pub prune : ℕ → LoginAttemptLimiter → LoginAttemptLimiter
prune now s = record s { entries = keep (is_live now) s.entries }

abbrev pub count_of : Option Entry → ℕ
count_of none = 0
count_of (some entry) = entry.count

-- `isBlocked`, which prunes first.
unfoldable pub is_blocked : ℕ → String → LoginAttemptLimiter → Bool × LoginAttemptLimiter
unfolding prune
is_blocked now key s = (leb s.limit (count_of (lookup key (prune now s).entries)), prune now s)

-- The loop `while (this.entries.size >= this.capacity)`, which deletes the oldest entry. The source
-- does not end it on an empty map, that is, for a capacity of 0.
unfoldable pub evict : ℕ → Assoc String Entry → Assoc String Entry
evict capacity [] = []
evict capacity (e ∷ es) =
    let rest = evict capacity es in if leb capacity (length (e ∷ es)) then rest else e ∷ es

-- The counter of a key goes up, or a new one begins with 1.
count_failure : ℕ → String → LoginAttemptLimiter → Option Entry → Assoc String Entry
unfolding evict
count_failure now key s (some entry) =
    insert key (record entry { count = entry.count + 1 }) s.entries
count_failure now key s none =
    insert key (record { count = 1; reset_at = now + s.ttl_ms }) (evict s.capacity s.entries)

-- `recordFailure`
unfoldable pub record_failure : ℕ → String → LoginAttemptLimiter → LoginAttemptLimiter
unfolding count_failure prune
record_failure now key s = record s {
  entries = count_failure now key (prune now s) (lookup key (prune now s).entries);
}

-- `recordSuccess` does nothing: a success does not give a budget back.
unfoldable pub record_success : String → LoginAttemptLimiter → LoginAttemptLimiter
record_success key s = s

-- `size`
unfoldable pub size : ℕ → LoginAttemptLimiter → ℕ × LoginAttemptLimiter
unfolding prune
size now s = (length (prune now s).entries, prune now s)
