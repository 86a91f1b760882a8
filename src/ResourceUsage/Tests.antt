-- ===== src/ResourceUsage/Tests.antt =====
-- The theorems at concrete targets, and runs of the sampler.
use botroost.Prelude.{◌≡◌, refl, none, some, [], ◌∷◌, text_test, lookup, insert}
use botroost.ResourceUsage.{
  usable, Stamped, ResourceTarget, ResourceUsage, Status, Call, read, failed, ids_of, collect,
  is_due, is_attempted, refresh, usage, running_container, active_samples, sample,
}
use botroost.ResourceUsage.Freshness.{IsShown, last_made, history, reported_by_last_attempt}

abbrev bot : ResourceTarget
bot = record {
  endpoint_id = "ep";
  container_id = some "c1";
  state = "running";
  cpu_limit_millis = none;
  memory_limit_bytes = some 1024;
}

abbrev first_call : Call
first_call = record {
  checked = 10000;
  began = 10001;
  targets = bot ∷ [];
  attempt = read 10400 (("c1", usable (record { cpu_percent = 12; memory_bytes = 500 })) ∷ []);
}

-- Just before the next attempt is due, and when it is.
abbrev early_call : Call
early_call = record first_call { checked = 15000; began = 15000; attempt = failed }

abbrev due_call : Call
due_call = record first_call { checked = 15001; began = 15001; attempt = failed }

abbrev measured : Stamped
measured = record { sample = record { cpu_percent = 12; memory_bytes = 500 }; observed_at = 10400 }

abbrev shown : ResourceUsage
shown = record {
  status = Status.ok;
  sample = some measured;
  cpu_limit_millis = none;
  memory_limit_bytes = some 1024;
}

measures :
    sample first_call (history [])
    ≡ (("ep", shown) ∷ [], record { last_attempt = some 10001; samples = ("c1", measured) ∷ [] })
unfolding sample history refresh ids_of is_due is_attempted collect usage running_container lookup
    insert
measures = refl

found : lookup "ep" (sample early_call (history (first_call ∷ []))).0 ≡ some shown
unfolding sample history refresh ids_of is_due is_attempted collect usage running_container lookup
    insert active_samples
found = refl

-- A failed attempt leaves nothing to report.
fails : sample due_call (history (first_call ∷ [])) ≡ (
  ("ep", record shown { status = Status.unavailable; sample = none }) ∷ [],
  record { last_attempt = some 15001; samples = [] },
)
unfolding sample history refresh ids_of is_due is_attempted collect usage running_container lookup
    insert
fails = refl

reported_by_last_attempt_example :
    IsShown
      (last_made (early_call ∷ first_call ∷ []))
      (sample early_call (history (first_call ∷ []))).1.last_attempt
      (bot ∷ [])
      "ep"
      measured
reported_by_last_attempt_example =
    reported_by_last_attempt (first_call ∷ []) early_call "ep" shown measured found refl
