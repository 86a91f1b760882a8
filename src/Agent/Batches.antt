-- ===== src/Agent/Batches.antt =====
-- The slices of observations that pollOnce of apps/agent/src/index.ts sends.
use botroost.Prelude.{
  ℕ, zero, suc, ◌≤◌, List, [], ◌∷◌, ◌++◌, ◌≡◌, refl, drop, length, length-take, length-drop,
  take-append-drop, arith, All,
}
use botroost.Json.{Json}
use botroost.Agent.Runtimes.{batches}

abbrev pub concat : List (List Json) → List Json
concat [] = []
concat (batch ∷ rest) = batch ++ concat rest

abbrev pub Small : List Json → Type 0
Small batch = length batch ≤ 200

-- With as many rounds as there are observations, the slices that are sent hold all of them, in
-- order and once each, and none has more than 200.
pub concat-batches :
    (rounds : ℕ) (os : List Json)
    → length os ≤ rounds
    → (concat (batches rounds os) ≡ os) × All Small (batches rounds os)
unfolding batches
concat-batches zero [] h = (refl, tt)
concat-batches zero (o ∷ os) h = ground arith
concat-batches (suc rounds) [] h = (refl, tt)
concat-batches (suc rounds) (o ∷ os) h =
    let shorter = length-drop 200 (o ∷ os) in
    let rest = concat-batches rounds (drop 200 (o ∷ os)) (omega (arith, shorter, h)) in
    let bounded = length-take 200 (o ∷ os) in
    (rw (rest.0, take-append-drop 200 (o ∷ os)), (omega (arith, bounded), rest.1))
