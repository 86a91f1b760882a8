-- ===== src/Agent/Runtimes.antt =====
-- `runtimeFor`, `runtimeByProvider`, `warm` and `collectObservations` of DurableFakeAgent, in
-- apps/agent/src/index.ts, and what pollOnce does when it has no command.
use Prim.Native.String.{◌++◌ as join_text}
use botroost.Prelude.{
  ℕ, zero, suc, String, Bool, false, not, ◌&&◌, Option, none, some, List, [], ◌∷◌, ◌++◌, ◌==◌,
  text_test, number_test, if◌then◌else◌, any, take, drop, length,
}
use botroost.Json.{Json}
use botroost.Programs.{return, throw, ◌>>=◌, ◌>>◌, perform, catch, when, given}
use botroost.Agent.{
  Claim, Agent, Op, Reply, Task, has_runtimes, active_runtimes, heartbeat, observe, get_runtime,
  make_runtime, set_runtime,
}

abbrev pub call_of : (op : Op) → Task (Reply op)
call_of op = perform op

abbrev pub known_providers : List String
known_providers = "fake" ∷ "napcat" ∷ "snowluma" ∷ "llbot" ∷ []

unfoldable pub is_known : String → Bool
is_known provider = any (λ p. p == provider) known_providers

abbrev unavailable : String → String
unavailable provider =
    join_text "agent runtime for provider " (join_text provider " is not available")

-- The runtime of the default provider, where there is no factory.
unfoldable pub fall_back : Agent → String → Task String
fall_back agent provider = do
  fallback ← call_of (get_runtime agent.default_provider)
  given fallback (throw (unavailable provider))
      (λ runtime. call_of (set_runtime provider runtime) >> return runtime)

unfoldable pub create_runtime : String → Task String
create_runtime provider = do
  created ← call_of (make_runtime provider)
  given created (throw (unavailable provider))
      (λ runtime. call_of (set_runtime provider runtime) >> return runtime)

-- `runtimeByProvider`
unfoldable pub runtime_by_provider : Agent → String → Task String
unfolding fall_back create_runtime
runtime_by_provider agent provider = do
  cached ← call_of (get_runtime provider)
  given cached (if not agent.has_factory then fall_back agent provider else create_runtime provider)
      (λ runtime. return runtime)

-- The provider of a command.
unfoldable pub provider_of : Agent → Option String → String
unfolding is_known
provider_of agent none = agent.default_provider
provider_of agent (some provider) = if is_known provider then provider else agent.default_provider

-- `runtimeFor`
unfoldable pub runtime_for : Agent → Claim → Task String
unfolding provider_of runtime_by_provider
runtime_for agent command = runtime_by_provider agent (provider_of agent command.provider)

-- `warm`: a provider whose runtime cannot be made is passed over.
unfoldable pub warm : Agent → List String → Task (Unit {0})
unfolding is_known runtime_by_provider
warm agent [] = return tt
warm agent (provider ∷ rest) =
    when (not (provider == agent.default_provider) && is_known provider)
      (catch (runtime_by_provider agent provider >> return tt) (λ e. return tt))
    >> warm agent rest

-- `collectObservations`: a runtime that throws is left out.
unfoldable pub collect : List String → Task (List Json)
collect [] = return []
collect (runtime ∷ rest) = do
  seen ← catch (call_of (observe runtime)) (λ e. return [])
  others ← collect rest
  return (seen ++ others)

-- The loop over `observations.slice(index, index + 200)`, with a bound on its rounds.
unfoldable pub batches : ℕ → List Json → List (List Json)
batches zero observations = []
batches (suc rounds) [] = []
batches (suc rounds) (o ∷ os) = take 200 (o ∷ os) ∷ batches rounds (drop 200 (o ∷ os))

unfoldable pub send_batches : List (List Json) → Task (Unit {0})
send_batches [] = return tt
send_batches (batch ∷ rest) = call_of (heartbeat batch) >> send_batches rest

-- No command has been claimed.
unfoldable pub report_idle : Bool → Task Bool
unfolding collect batches send_batches
report_idle is_due = do
  has_some ← call_of has_runtimes
  when (is_due && has_some) (
      call_of active_runtimes >>= λ active.
      collect active >>= λ observations. send_batches (batches (length observations) observations))
  return false
