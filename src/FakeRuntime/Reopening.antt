-- ===== src/FakeRuntime/Reopening.antt =====
-- `FakeRuntime.open` of apps/agent/src/index.ts, on the file that a runtime has left.
use botroost.Prelude.{
  String, ◌≡◌, refl, ◌∙◌, inl, inr, ap, true, none, List, [], ◌∷◌, ◌++◌, text_test, if_rule,
  Option-cases, Assoc, lookup, insert_new, All, arith,
}
use botroost.FakeRuntime.{
  Applied, Memory, FakeRuntime, set_effect, restore, no_effects, open_runtime, Answer, take_turn,
  Turn, run, effect_of,
}

restore-append :
    (xs : Assoc String Applied) (effect_id : String) (effect : Applied) (m : Memory)
    → restore (xs ++ (effect_id, effect) ∷ []) m ≡ set_effect effect_id effect (restore xs m)
unfolding restore
restore-append [] effect_id effect m = refl
restore-append (x ∷ xs) effect_id effect m =
    restore-append xs effect_id effect (set_effect x.0 x.1 m)

-- The file holds every effect, and reading them one after the other gives what is in memory.
abbrev Backed : FakeRuntime → Type 0
Backed s =
    (restore s.memory.effect_records no_effects ≡ s.memory) × (s.file ≡ s.memory.effect_records)

set_effect-restored :
    (effect_id : String) (effect : Applied) (m : Memory)
    → lookup effect_id m.effect_records ≡ none
    → restore m.effect_records no_effects ≡ m
    → restore (set_effect effect_id effect m).effect_records no_effects
      ≡ set_effect effect_id effect m
unfolding set_effect
set_effect-restored effect_id effect m new h =
    ap (λ r. restore r no_effects) (insert_new effect_id effect m.effect_records new)
    ∙ restore-append m.effect_records effect_id effect no_effects
    ∙ ap (set_effect effect_id effect) h

take_turn-Backed :
    (t : Turn) (s : FakeRuntime)
    → t.around.persisted ≡ true
    → Backed s
    → Backed (take_turn t.around t.effect_id t.command s).1
unfolding take_turn
take_turn-Backed t s p h =
    let P = λ (r : Answer × FakeRuntime). Backed r.1 in
    if_rule P t.around.inspecting _ _
      (λ _. elim (Option-cases (lookup t.effect_id s.memory.effect_records)) [
        | inl q ↦ rw (q) (
            if_rule P t.around.working _ _
              (λ _.
                if_rule P t.around.persisted _ _
                  (λ _.
                    (set_effect-restored t.effect_id (effect_of t.command) s.memory q h.0, refl))
                  (λ f. ground (arith, f, p)))
              (λ _. h))
        | inr (e, q) ↦ rw (q) h
      ])
      (λ _. h)

run-Backed :
    (ts : List Turn) (s : FakeRuntime)
    → All (λ (t : Turn). t.around.persisted ≡ true) ts
    → Backed s
    → Backed (run ts s)
unfolding run
run-Backed [] s p h = h
run-Backed (t ∷ ts) s p h = run-Backed ts _ p.1 (take_turn-Backed t s p.0 h)

-- Whatever calls have run since a runtime without effects was opened, answered or not, as long as
-- every writing of the state file succeeded, opening that file again gives the same runtime: its
-- effects, their order for each endpoint, and the endpoints' states.
pub open_runtime-run :
    (ts : List Turn)
    → All (λ (t : Turn). t.around.persisted ≡ true) ts
    → open_runtime (run ts (open_runtime [])).file ≡ run ts (open_runtime [])
unfolding open_runtime restore
open_runtime-run ts p =
    let s = run ts (open_runtime []) in
    let (memory, file) = run-Backed ts (open_runtime []) p (refl, refl) in
    ap (λ (m : Memory). record { memory = m; file = s.file })
      (ap (λ f. restore f no_effects) file ∙ memory)
