-- ===== src/SecurityPolicy/Tests.antt =====
-- The theorems at concrete limiters, and runs of them.
use botroost.Prelude.{
  ◌≤◌, ◌≡◌, refl, ◌↔◌, true, false, none, [], ◌∷◌, text_test, suc, length, lookup, insert, arith,
}
use botroost.SecurityPolicy.{
  LoginAttemptLimiter, prune, is_blocked, record_failure, record_success, size, evict,
}
use botroost.SecurityPolicy.Limits.{record_failure-bounded}
use botroost.SecurityPolicy.Budget.{fail_all, failures_of, blocked_iff}

abbrev fresh : LoginAttemptLimiter
fresh = record { entries = []; limit = 2; ttl_ms = 100; capacity = 3 }

abbrev failed_twice : LoginAttemptLimiter
failed_twice = fail_all ((10, "a") ∷ (20, "a") ∷ []) fresh

second_failure_blocks : (is_blocked 30 "a" failed_twice).0 ≡ true
unfolding fail_all record_failure is_blocked prune evict lookup insert
second_failure_blocks = refl

success_keeps_the_budget : (is_blocked 30 "a" (record_success "a" failed_twice)).0 ≡ true
unfolding fail_all record_failure record_success is_blocked prune evict lookup insert
success_keeps_the_budget = refl

budget_ends : (is_blocked 110 "a" failed_twice).0 ≡ false
unfolding fail_all record_failure is_blocked prune evict lookup insert
budget_ends = refl

expired_is_not_counted : (size 110 failed_twice).0 ≡ 0
unfolding fail_all record_failure size prune evict lookup insert
expired_is_not_counted = refl

nothing_yet : lookup "a" (prune 10 fresh).entries ≡ none
unfolding prune lookup
nothing_yet = refl

blocked_iff_example :
    ((is_blocked 30 "a" (fail_all ((15, "b") ∷ (20, "a") ∷ []) (record_failure 10 "a" fresh))).0
      ≡ true)
    ↔ (2 ≤ suc (failures_of "a" ((15, "b") ∷ (20, "a") ∷ [])))
blocked_iff_example =
    blocked_iff 10 30 "a" ((15, "b") ∷ (20, "a") ∷ []) fresh nothing_yet
      (omega arith, (omega arith, tt)) (omega arith) (omega arith)

one_budget : length (failed_twice).entries ≤ 3
unfolding fail_all record_failure prune evict lookup insert
one_budget = omega arith

record_failure-bounded_example : length (record_failure 30 "b" failed_twice).entries ≤ 3
unfolding fail_all record_failure
record_failure-bounded_example = record_failure-bounded 30 "b" failed_twice (omega arith) one_budget
