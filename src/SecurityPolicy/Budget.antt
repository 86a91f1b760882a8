-- ===== src/SecurityPolicy/Budget.antt =====
-- `LoginAttemptLimiter` of apps/api/src/security-policy.ts: the budget of failures of a key.
use botroost.Prelude.{
  ℕ, suc, ◌+◌, ◌≤◌, ◌<◌, String, ◌≡◌, ◌↔◌, inl, inr, refl, ◌∙◌, ap, true, false, none, some, List,
  [], ◌∷◌, ltb, ◌==◌, text_test, if◌then◌else◌, Bool-cases, Option-cases, eq_iff, length, keep,
  lookup, arith, lookup-insert_self, lookup-insert, length-keep-le, length-insert-le, lookup-keep,
  All,
}
use botroost.SecurityPolicy.{Entry, LoginAttemptLimiter, is_live, prune, is_blocked, record_failure}
use botroost.SecurityPolicy.Limits.{lookup-keep_expired, evict_room}

-- A history of failures, oldest first: the time and the key of each.
unfoldable pub fail_all : List (ℕ × String) → LoginAttemptLimiter → LoginAttemptLimiter
fail_all [] s = s
fail_all (f ∷ fs) s = fail_all fs (record_failure f.0 f.1 s)

-- How many failures of a history are of a key.
unfoldable pub failures_of : String → List (ℕ × String) → ℕ
failures_of key [] = 0
failures_of key (f ∷ fs) = let rest = failures_of key fs in if f.1 == key then suc rest else rest

-- The limiter holds a budget of a key that has counted so many failures and ends then.
abbrev Holds : String → ℕ → ℕ → LoginAttemptLimiter → Type 0
Holds key n reset s = lookup key s.entries ≡ some (record { count = n; reset_at = reset })

abbrev Same : LoginAttemptLimiter → LoginAttemptLimiter → Type 0
Same s t = (t.limit ≡ s.limit) × ((t.ttl_ms ≡ s.ttl_ms) × (t.capacity ≡ s.capacity))

record_failure-Same :
    (now : ℕ) (key : String) (s : LoginAttemptLimiter) → Same s (record_failure now key s)
unfolding record_failure prune
record_failure-Same now key s = (refl, (refl, refl))

record_failure-grows :
    (now : ℕ) (key : String) (s : LoginAttemptLimiter)
    → length s.entries < s.capacity
    → length (record_failure now key s).entries ≤ suc (length s.entries)
unfolding record_failure prune
record_failure-grows now key s h =
    let live = keep (is_live now) s.entries in
    let less = length-keep-le (is_live now) s.entries in
    elim (Option-cases (lookup key live)) [
      | inl q ↦
          rw (q, evict_room s.capacity live (omega (arith, less, h)))
            (omega (
              arith,
              less,
              length-insert-le key (record { count = 1; reset_at = now + s.ttl_ms }) live,
            ))
      | inr (e, q) ↦
          rw (q) (omega (arith, less, length-insert-le key (record e { count = e.count + 1 }) live))
    ]

-- A failure of the key counts; one of another key does not, while there is room.
record_failure-Holds :
    (now : ℕ) (other key : String) (n reset : ℕ) (s : LoginAttemptLimiter)
    → length s.entries < s.capacity
    → now < reset
    → Holds key n reset s
    → Holds key (if other == key then n + 1 else n) reset (record_failure now other s)
unfolding record_failure prune
record_failure-Holds now other key n reset s room t h =
    let live = keep (is_live now) s.entries in
    let less = length-keep-le (is_live now) s.entries in
    let kept =
      lookup-keep (λ (e : Entry). ltb now e.reset_at) key s.entries _ h (ground (arith, t)) in
    elim (Bool-cases (other == key)) [
      | inl q ↦
          rw
            (
              q,
              (eq_iff other key).0 q,
              kept,
              lookup-insert_self key (record { count = n + 1; reset_at = reset }) live,
            )
            refl
      | inr q ↦ elim (Option-cases (lookup other live)) [
        | inl m ↦
            rw
              (
                m,
                evict_room s.capacity live (omega (arith, less, room)),
                lookup-insert other key (record { count = 1; reset_at = now + s.ttl_ms }) live,
                q,
              )
              kept
        | inr (e, m) ↦
            rw (m, lookup-insert other key (record e { count = e.count + 1 }) live, q) kept
      ]
    ]

fail_all-Holds :
    (fs : List (ℕ × String)) (key : String) (n reset : ℕ) (s : LoginAttemptLimiter)
    → All (λ f. f.0 < reset) fs
    → length s.entries + length fs ≤ s.capacity
    → Holds key n reset s
    → Holds key (n + failures_of key fs) reset (fail_all fs s)
unfolding fail_all failures_of
fail_all-Holds [] key n reset s t room h =
    rw (h) (ap (λ m. some (record { count = m; reset_at = reset })) (omega arith))
fail_all-Holds (f ∷ fs) key n reset s t room h =
    let same = record_failure-Same f.0 f.1 s in
    let grows = record_failure-grows f.0 f.1 s (omega (arith, room)) in
    let holds = record_failure-Holds f.0 f.1 key n reset s (omega (arith, room)) t.0 h in
    let rest =
      fail_all-Holds fs key _ reset (record_failure f.0 f.1 s) t.1
        (omega (arith, room, grows, same.1.1)) holds in
    rest ∙ ap (λ m. some (record { count = m; reset_at = reset })) (ground arith)

first_failure-Holds :
    (now : ℕ) (key : String) (s : LoginAttemptLimiter)
    → length s.entries < s.capacity
    → lookup key (prune now s).entries ≡ none
    → Holds key 1 (now + s.ttl_ms) (record_failure now key s)
unfolding record_failure prune
first_failure-Holds now key s room h =
    let live = keep (is_live now) s.entries in
    rw (h, evict_room s.capacity live (omega (arith, room, length-keep-le (is_live now) s.entries)))
      (lookup-insert_self key (record { count = 1; reset_at = now + s.ttl_ms }) live)

fail_all-Same : (fs : List (ℕ × String)) (s : LoginAttemptLimiter) → Same s (fail_all fs s)
unfolding fail_all
fail_all-Same [] s = (refl, (refl, refl))
fail_all-Same (f ∷ fs) s =
    let a = record_failure-Same f.0 f.1 s in
    let b = fail_all-Same fs (record_failure f.0 f.1 s) in
    (b.0 ∙ a.0, (b.1.0 ∙ a.1.0, b.1.1 ∙ a.1.1))

-- Let a key without a live budget fail at a time, and let any keys fail after that, all before the
-- budget ends and no more of them than the limiter has room for. Until the budget ends, the key is
-- then blocked exactly if its failures, the first included, have reached the limit.
pub blocked_iff :
    (start now : ℕ) (key : String) (fs : List (ℕ × String)) (s : LoginAttemptLimiter)
    → lookup key (prune start s).entries ≡ none
    → All (λ f. f.0 < start + s.ttl_ms) fs
    → now < start + s.ttl_ms
    → length s.entries + suc (length fs) ≤ s.capacity
    → ((is_blocked now key (fail_all fs (record_failure start key s))).0 ≡ true)
      ↔ (s.limit ≤ suc (failures_of key fs))
unfolding is_blocked prune
blocked_iff start now key fs s none_live times t room =
    let first = record_failure start key s in
    let same = record_failure-Same start key s in
    let all_same = fail_all-Same fs first in
    let grows = record_failure-grows start key s (omega (arith, room)) in
    let first_holds = first_failure-Holds start key s (omega (arith, room)) none_live in
    let holds =
      fail_all-Holds fs key 1 (start + s.ttl_ms) first times (omega (arith, room, grows, same.1.1))
        first_holds in
    let kept =
      lookup-keep (λ (e : Entry). ltb now e.reset_at) key (fail_all fs first).entries _ holds
        (ground (arith, t)) in
    rw (kept, all_same.0, same.0) (ground arith)

-- Once every budget has run out, no key is blocked, provided that the limit is not 0.
expired_unblocks :
    (now : ℕ) (key : String) (s : LoginAttemptLimiter)
    → 0 < s.limit
    → All (λ e. e.1.reset_at ≤ now) s.entries
    → (is_blocked now key s).0 ≡ false
unfolding is_blocked prune
expired_unblocks now key s l h = rw (lookup-keep_expired now key s.entries h) (ground (arith, l))
