-- ===== src/SecurityPolicy/Limits.antt =====
-- `LoginAttemptLimiter` of apps/api/src/security-policy.ts: the memory that it takes.
use botroost.Prelude.{
  ℕ, ◌+◌, ◌≤◌, ◌<◌, String, ◌≡◌, inl, inr, refl, none, [], ◌∷◌, text_test, Option-cases, length,
  keep, Assoc, lookup, arith, length-keep-le, length-insert_present, length-insert-le, All,
}
use botroost.SecurityPolicy.{Entry, LoginAttemptLimiter, is_live, prune, evict, record_failure}

pub lookup-keep_expired :
    (now : ℕ) (key : String) (es : Assoc String Entry)
    → All (λ e. e.1.reset_at ≤ now) es
    → lookup key (keep (is_live now) es) ≡ none
unfolding lookup
lookup-keep_expired now key [] h = refl
lookup-keep_expired now key (e ∷ es) h = ground (arith, h.0, lookup-keep_expired now key es h.1)

length-evict :
    (capacity : ℕ) (es : Assoc String Entry) → 0 < capacity → length (evict capacity es) < capacity
unfolding evict
length-evict capacity [] h = h
length-evict capacity (e ∷ es) h = ground (arith, length-evict capacity es h)

pub evict_room :
    (capacity : ℕ) (es : Assoc String Entry) → length es < capacity → evict capacity es ≡ es
unfolding evict
evict_room capacity [] h = refl
evict_room capacity (e ∷ es) h = ground (arith, h)

-- A limiter with a capacity above 0 that holds no more budgets than its capacity does so after any
-- further failure.
pub record_failure-bounded :
    (now : ℕ) (key : String) (s : LoginAttemptLimiter)
    → 0 < s.capacity
    → length s.entries ≤ s.capacity
    → length (record_failure now key s).entries ≤ s.capacity
unfolding record_failure prune
record_failure-bounded now key s c h =
    let less = length-keep-le (is_live now) s.entries in
    let live = keep (is_live now) s.entries in
    elim (Option-cases (lookup key (keep (is_live now) s.entries))) [
      | inl q ↦
          rw (q, record_failure)
            (omega (
              arith,
              length-evict s.capacity live c,
              length-insert-le key (record { count = 1; reset_at = now + s.ttl_ms })
                  (evict s.capacity live),
            ))
      | inr (e, q) ↦
          rw (q, record_failure)
            (omega (
              arith,
              less,
              h,
              length-insert_present key (record e { count = e.count + 1 }) e live q,
            ))
    ]
