-- ===== src/FakeRuntime/Once.antt =====
-- `FakeRuntime` of apps/agent/src/index.ts, called again for an effect that it knows.
use botroost.Prelude.{
  String, ◌≡◌, refl, ◌∙◌, inl, inr, subst, none, some, List, [], ◌∷◌, ◌==◌, text_test, if_rule,
  Option-cases, Bool-cases, eq_iff, lookup, lookup-insert, lookup-insert_self, ap, arith,
}
use botroost.FakeRuntime.{
  State, Applied, Memory, FakeRuntime, set_effect, Command, Around, Answer, done, take_turn, ask,
  Turn, run, effect_of,
}

abbrev Knows : String → Applied → FakeRuntime → Type 0
Knows effect_id effect s = lookup effect_id s.memory.effect_records ≡ some effect

set_effect-Knows :
    (effect_id other : String) (effect new : Applied) (m : Memory)
    → lookup effect_id m.effect_records ≡ some effect
    → lookup other m.effect_records ≡ none
    → lookup effect_id (set_effect other new m).effect_records ≡ some effect
unfolding set_effect
set_effect-Knows effect_id other effect new m h none_yet =
    lookup-insert other effect_id new m.effect_records ∙ elim (Bool-cases (other == effect_id)) [
      | inl q ↦
          let clash : lookup effect_id m.effect_records ≡ none =
            subst (λ k. lookup k m.effect_records ≡ none) ((eq_iff other effect_id).0 q) none_yet in
          ground (arith, clash, h)
      | inr q ↦ rw (q) h
    ]

take_turn-Knows :
    (around : Around) (other effect_id : String) (command : Command) (effect : Applied)
    (s : FakeRuntime)
    → Knows effect_id effect s
    → Knows effect_id effect (take_turn around other command s).1
unfolding take_turn
take_turn-Knows around other effect_id command effect s h =
    let P = λ (r : Answer × FakeRuntime). Knows effect_id effect r.1 in
    if_rule P around.inspecting _ _
      (λ _. elim (Option-cases (lookup other s.memory.effect_records)) [
        | inl q ↦ rw (q) (
            let new = set_effect-Knows effect_id other effect (effect_of command) s.memory h q in
            if_rule P around.working _ _ (λ _. if_rule P around.persisted _ _ (λ _. new) (λ _. new))
              (λ _. h))
        | inr (e, q) ↦ rw (q) h
      ])
      (λ _. h)

run-Knows :
    (ts : List Turn) (effect_id : String) (effect : Applied) (s : FakeRuntime)
    → Knows effect_id effect s
    → Knows effect_id effect (run ts s)
unfolding run
run-Knows [] effect_id effect s h = h
run-Knows (t ∷ ts) effect_id effect s h =
    run-Knows ts effect_id effect _
      (take_turn-Knows t.around t.effect_id effect_id t.command effect s h)

answered-Knows :
    (around : Around) (effect_id : String) (command : Command) (state : State) (s : FakeRuntime)
    → (take_turn around effect_id command s).0 ≡ done state
    → (effect : Applied) × ((effect.state ≡ state)
        × Knows effect_id effect (take_turn around effect_id command s).1)
unfolding take_turn set_effect
answered-Knows around effect_id command state s =
    let P = λ (r : Answer × FakeRuntime).
      r.0 ≡ done state
      → (effect : Applied) × ((effect.state ≡ state) × Knows effect_id effect r.1) in
    if_rule P around.inspecting _ _
      (λ _. elim (Option-cases (lookup effect_id s.memory.effect_records)) [
        | inl q ↦ rw (q) (
            if_rule P around.working _ _
              (λ _.
                if_rule P around.persisted _ _
                  (λ _ e. (
                    effect_of command,
                    (
                      ground (arith, e),
                      lookup-insert_self effect_id (effect_of command) s.memory.effect_records,
                    ),
                  ))
                  (λ _ e. ground (arith, e)))
              (λ _ e. ground (arith, e)))
        | inr (known, q) ↦ rw (q) (λ e. (known, (ground (arith, e), q)))
      ])
      (λ _ e. ground (arith, e))

known_turn :
    (around : Around) (effect_id : String) (command : Command) (effect : Applied) (s : FakeRuntime)
    → Knows effect_id effect s
    → (take_turn around effect_id command s).1 ≡ s
unfolding take_turn
known_turn around effect_id command effect s h = ground (arith, h)

known_ask :
    (effect_id : String) (effect : Applied) (s : FakeRuntime)
    → Knows effect_id effect s
    → ask effect_id s ≡ some (done effect.state)
unfolding ask
known_ask effect_id effect s h = rw (h, ask) refl

-- Once a call has been answered with a state, and whatever other calls have run since, a new call
-- for the same effect is answered with that state at once, and one that had been waiting changes
-- nothing when its turn comes.
pub effect_once :
    (around later : Around) (effect_id : String) (command other : Command) (state : State)
    (s : FakeRuntime) (ts : List Turn)
    → (take_turn around effect_id command s).0 ≡ done state
    → (ask effect_id (run ts (take_turn around effect_id command s).1) ≡ some (done state))
      × ((take_turn later effect_id other (run ts (take_turn around effect_id command s).1)).1
          ≡ run ts (take_turn around effect_id command s).1)
effect_once around later effect_id command other state s ts e =
    let (effect, (same, knows)) = answered-Knows around effect_id command state s e in
    let after = run ts (take_turn around effect_id command s).1 in
    let still = run-Knows ts effect_id effect (take_turn around effect_id command s).1 knows in
    (
      known_ask effect_id effect after still ∙ ap (λ x. some (done x)) same,
      known_turn later effect_id other effect after still,
    )
