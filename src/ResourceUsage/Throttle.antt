-- ===== src/ResourceUsage/Throttle.antt =====
-- ResourceUsageSampler of apps/agent/src/resource-usage.ts: the time between two attempts.
use botroost.Prelude.{String, List, [], ◌∷◌, Assoc}
use botroost.ResourceUsage.{ResourceUsageSampler, ResourceUsage, Attempt, Call, sample}

-- What calls report that are made one after another, the first one first.
unfoldable pub reports : List Call → ResourceUsageSampler → List (Assoc String ResourceUsage)
reports [] s = []
reports (call ∷ calls) s = (sample call s).0 ∷ reports calls (sample call s).1

-- The call, where the reader would have answered otherwise.
abbrev pub with_reader : (Attempt → Attempt) → Call → Call
with_reader other call = record call { attempt = other call.attempt }
