-- ===== src/ResourceUsage/Freshness.antt =====
-- ResourceUsageSampler of apps/agent/src/resource-usage.ts: where reported values come from.
use mathlib.Core.List.{Memᴰ}
use mathlib.Core.List.Memᴰ.{head, tail}
use botroost.Prelude.{
  ℕ, String, ◌≡◌, refl, Option, none, some, List, [], ◌∷◌, ◌==◌, text_test, if◌then◌else◌,
  Bool-cases, inl, inr, any, Assoc, lookup, All, All-insert_entry, All-lookup_entry, All-keep,
  arith,
}
use botroost.ResourceUsage.{
  Stamped, ResourceUsageSampler, ResourceTarget, ResourceUsage, Attempt, Call, read, failed,
  Reading, ids_of, collect, fill, set_reading, is_attempted, usable, unusable, running_container,
  active_samples, refresh, usage, usages, sample, find,
}

-- The call read this value for the container, and stamped it with the time of the answer.
pub record HasRead (call : Call) (id : String) (x : Stamped) : Type 0 where
  pub readings : Assoc String Reading
  pub was_read : call.attempt ≡ read x.observed_at readings
  pub gives : lookup id readings ≡ some (usable x.sample)

module _ (call : Call) where
  set_reading-read :
      (at : ℕ) (readings : Assoc String Reading) (id : String) (r : Option Reading)
      (samples : Assoc String Stamped)
      → call.attempt ≡ read at readings
      → lookup id readings ≡ r
      → All (λ (e : String × Stamped). HasRead call e.0 e.1) samples
      → All (λ (e : String × Stamped). HasRead call e.0 e.1) (set_reading at id r samples)
  unfolding set_reading
  set_reading-read at readings id none samples was_read gives h = h
  set_reading-read at readings id (some unusable) samples was_read gives h = h
  set_reading-read at readings id (some (usable x)) samples was_read gives h =
      All-insert_entry (λ k v. HasRead call k v) id _ samples
        (record { readings = readings; was_read = was_read; gives = gives }) h

  fill-read :
      (at : ℕ) (ids : List String) (readings : Assoc String Reading)
      (samples : Assoc String Stamped)
      → call.attempt ≡ read at readings
      → All (λ (e : String × Stamped). HasRead call e.0 e.1) samples
      → All (λ (e : String × Stamped). HasRead call e.0 e.1) (fill at ids readings samples)
  unfolding fill
  fill-read at [] readings samples was_read h = h
  fill-read at (id ∷ ids) readings samples was_read h =
      fill-read at ids readings _ was_read
        (set_reading-read at readings id (lookup id readings) samples was_read refl h)

  collect-read :
      (ids : List String) (attempt : Attempt)
      → call.attempt ≡ attempt
      → All (λ (e : String × Stamped). HasRead call e.0 e.1) (collect ids attempt)
  unfolding collect
  collect-read ids failed e = tt
  collect-read ids (read at readings) e = fill-read at ids readings [] e tt

-- A value of the container comes from the call that made the last attempt, which is the one that
-- `lastAttempt` records.
pub record IsOf (last : Option Call) (at : Option ℕ) (id : String) (x : Stamped) : Type 0 where
  pub call : Call
  pub is_last : last ≡ some call
  pub is_recorded : at ≡ some call.began
  pub has_read : HasRead call id x

-- Every sample that is kept was read by the last attempt.
unfoldable IsFresh : Option Call → ResourceUsageSampler → Type 0
IsFresh last s = All (λ (e : String × Stamped). IsOf last s.last_attempt e.0 e.1) s.samples

own_sample :
    (call : Call) (id : String) (x : Stamped)
    → HasRead call id x
    → IsOf (some call) (some call.began) id x
own_sample call id x h = record { call = call; is_last = refl; is_recorded = refl; has_read = h }

own_samples :
    (call : Call) (samples : Assoc String Stamped)
    → All (λ (e : String × Stamped). HasRead call e.0 e.1) samples
    → All (λ (e : String × Stamped). IsOf (some call) (some call.began) e.0 e.1) samples
own_samples call [] h = tt
own_samples call ((id, x) ∷ samples) h = (own_sample call id x h.0, own_samples call samples h.1)

refresh-IsFresh :
    (call : Call) (ids : List String) (last : Option Call) (s : ResourceUsageSampler)
    → IsFresh last s
    → IsFresh (if is_attempted call ids s then some call else last) (refresh call ids s)
unfolding IsFresh refresh active_samples
refresh-IsFresh call ids last s h = elim (Bool-cases (is_attempted call ids s)) [
  | inl made ↦ rw (made) (own_samples call _ (collect-read call ids call.attempt refl))
  | inr waits ↦
      rw (waits)
        (All-keep _ (λ (e : String × Stamped). any (λ (id : String). id == e.0) ids) s.samples h)
]

-- What is reported under the endpoint is none, or a value of the container of one of the targets
-- with this endpoint.
pub record IsShown (last : Option Call) (at : Option ℕ) (targets : List ResourceTarget)
    (endpoint : String) (x : Stamped) : Type 0 where
  pub target : ResourceTarget
  pub id : String
  pub is_asked : Memᴰ target targets
  pub is_named : target.endpoint_id ≡ endpoint
  pub is_running : running_container target ≡ some id
  pub is_of : IsOf last at id x

module _ (last : Option Call) (s : ResourceUsageSampler) (h : IsFresh last s) where
  find-IsOf :
      (o : Option String) (x : Stamped)
      → find o s.samples ≡ some x
      → (id : String) × (o ≡ some id) × IsOf last s.last_attempt id x
  unfolding IsFresh
  find-IsOf none x e = absurd (ground (arith, e))
  find-IsOf (some id) x e =
      (id, refl, All-lookup_entry (λ k v. IsOf last s.last_attempt k v) id x s.samples h e)

  -- What is reported under one endpoint of `all`.
  abbrev Shows : List ResourceTarget → String → ResourceUsage → Type 0
  Shows all endpoint u =
      (x : Stamped) → u.sample ≡ some x → IsShown last s.last_attempt all endpoint x

  usage-Shows :
      (all : List ResourceTarget) (target : ResourceTarget)
      → Memᴰ target all
      → Shows all target.endpoint_id (usage s.samples target)
  unfolding usage
  usage-Shows all target asked x e =
      let (id, running, of) = find-IsOf (running_container target) x e in
      record {
        target = target;
        id = id;
        is_asked = asked;
        is_named = refl;
        is_running = running;
        is_of = of;
      }

  usages-Shows :
      (all targets : List ResourceTarget) (m : Assoc String ResourceUsage)
      → ((t : ResourceTarget) → Memᴰ t targets → Memᴰ t all)
      → All (λ (e : String × ResourceUsage). Shows all e.0 e.1) m
      → All (λ (e : String × ResourceUsage). Shows all e.0 e.1) (usages s.samples targets m)
  unfolding usages
  usages-Shows all [] m among a = a
  usages-Shows all (target ∷ targets) m among a =
      usages-Shows all targets _ (λ t i. among t (tail i))
        (All-insert_entry (λ k v. Shows all k v) target.endpoint_id (usage s.samples target) m
          (usage-Shows all target (among target (head refl))) a)

-- A history of calls of `sample`, the latest first.
unfoldable pub history : List Call → ResourceUsageSampler
history [] = record { last_attempt = none; samples = [] }
history (call ∷ calls) = (sample call (history calls)).1

-- The last call of a history that made an attempt.
unfoldable pub last_made : List Call → Option Call
last_made [] = none
last_made (call ∷ calls) =
    let before = last_made calls in
    if is_attempted call (ids_of call.targets []) (history calls) then some call else before

history-IsFresh : (calls : List Call) → IsFresh (last_made calls) (history calls)
unfolding history last_made sample IsFresh
history-IsFresh [] = tt
history-IsFresh (call ∷ calls) =
    refresh-IsFresh call (ids_of call.targets []) (last_made calls) (history calls)
      (history-IsFresh calls)

-- Whatever calls were made before, a value that is reported for an endpoint is what the last call
-- that made an attempt read for the running container of a target with this endpoint, stamped with
-- the time at which the reader answered; `lastAttempt` is when that call began. So no value is from
-- before the last attempt, also where that attempt failed.
pub reported_by_last_attempt :
    (calls : List Call) (call : Call) (endpoint : String) (u : ResourceUsage) (x : Stamped)
    → lookup endpoint (sample call (history calls)).0 ≡ some u
    → u.sample ≡ some x
    → IsShown
        (last_made (call ∷ calls))
        (sample call (history calls)).1.last_attempt
        call.targets
        endpoint
        x
unfolding sample history
reported_by_last_attempt calls call endpoint u x found e =
    let last = last_made (call ∷ calls) in
    let after = history (call ∷ calls) in
    let fresh = history-IsFresh (call ∷ calls) in
    All-lookup_entry (Shows last after fresh call.targets) endpoint u _
      (usages-Shows last after fresh call.targets call.targets [] (λ t i. i) tt) found x e
