-- ===== src/Journal/Append/Writing.antt =====
-- The write loop of packages/agent-journal/src/index.ts: its end, and what it leaves in the file.
use mathlib.Core.List.{append_assoc, append-nil}
use botroost.Prelude.{
  ℕ, zero, suc, ◌≤◌, ◌≡◌, refl, sym, ap, ◌∙◌, ◌≢◌, ◌⊎◌, inl, inr, List, [], ◌∷◌, ◌++◌, arith,
  length, take, drop, take-append-drop, length-drop,
}
use botroost.Journal.Append.{
  Written, wrote, threw, WriteEnd, all_written, stalled, failed, out_of_fuel, write_all,
}

-- Where the loop ended: `before` has reached the file, `after` has not.
pub record Ends (rest file : List ℕ) (e : WriteEnd × List ℕ) : Type 0 where
  pub before : List ℕ
  pub after : List ℕ
  pub split : before ++ after ≡ rest
  pub reached : e.1 ≡ file ++ before
  pub whole : e.0 ≡ all_written → after ≡ []
  pub ended : e.0 ≢ out_of_fuel

-- One more call before the rest of the loop.
Ends-more :
    (n : ℕ) (rest file : List ℕ) (e : WriteEnd × List ℕ)
    → Ends (drop n rest) (file ++ take n rest) e
    → Ends rest file e
Ends-more n rest file e r = record {
  before = take n rest ++ r.before;
  after = r.after;
  split =
      append_assoc (take n rest) r.before r.after
      ∙ ap (λ t. take n rest ++ t) r.split
      ∙ take-append-drop n rest;
  reached = r.reached ∙ append_assoc file (take n rest) r.before;
  whole = r.whole;
  ended = r.ended;
}

Ends-now :
    (n : ℕ) (rest file got : List ℕ) (e : WriteEnd)
    → got ≡ file ++ take n rest
    → e ≢ all_written
    → e ≢ out_of_fuel
    → Ends rest file (e, got)
Ends-now n rest file got e r h k = record {
  before = take n rest;
  after = drop n rest;
  split = take-append-drop n rest;
  reached = r;
  whole = λ p. absurd (h p);
  ended = k;
}

Written-cases :
    (w : Written) → (w ≡ wrote 0) ⊎ (((n : ℕ) × (w ≡ wrote (suc n))) ⊎ ((n : ℕ) × (w ≡ threw n)))
Written-cases (wrote zero) = inl refl
Written-cases (wrote (suc n)) = inr (inl (n, refl))
Written-cases (threw n) = inr (inr (n, refl))

-- With fuel for the bytes that are left, the loop ends, and the file has got a prefix of them:
-- all of them, if it ended without an exception.
pub write_all-Ends :
    (fuel : ℕ) (write : ℕ → List ℕ → Written) (call : ℕ) (rest file : List ℕ)
    → length rest ≤ fuel
    → Ends rest file (write_all fuel write call rest file)
unfolding write_all
write_all-Ends fuel write call [] file h = record {
  before = [];
  after = [];
  split = refl;
  reached = sym (append-nil file);
  whole = λ e. refl;
  ended = λ e. cc;
}
write_all-Ends zero write call (b ∷ rest) file h = absurd (omega arith)
write_all-Ends (suc fuel) write call (b ∷ rest) file h =
    elim (Written-cases (write call (b ∷ rest))) [
      | inl e ↦
          rw (e, write_all)
            (Ends-now 0 (b ∷ rest) file file stalled (sym (append-nil file)) (λ p. cc) (λ p. cc))
      | inr (inl (n, e)) ↦
          rw (e, write_all)
            (Ends-more (suc n) (b ∷ rest) file _ (
              write_all-Ends fuel write (suc call) (drop (suc n) (b ∷ rest))
                (file ++ take (suc n) (b ∷ rest)) (omega (arith, length-drop n rest))))
      | inr (inr (n, e)) ↦
          rw (e, write_all) (Ends-now n (b ∷ rest) file _ failed refl (λ p. cc) (λ p. cc))
    ]
