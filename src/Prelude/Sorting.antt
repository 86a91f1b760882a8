-- ===== src/Prelude/Sorting.antt =====
-- `array.sort((left, right) => left.key - right.key)`, which is stable.
use Prim.Native.Nat.{ℕ, ◌≤◌}
use mathlib.Core.Path.{◌≡◌, refl, ap, ◌∙◌}
use mathlib.Core.List.{List, [], ◌∷◌}
use native.Mathlib.Omega.{arith}
use botroost.Prelude.Tests.{leb, if◌then◌else◌, if_rule}
use botroost.Prelude.Lists.{All}

module _ {ℓ} {A : Type ℓ} (key : A → ℕ) where
  abbrev place : A → List A → List A
  place x [] = x ∷ []
  place x (y ∷ ys) = let rest = place x ys in if leb (key x) (key y) then x ∷ y ∷ ys else y ∷ rest

  abbrev pub sort_by : List A → List A
  sort_by [] = []
  sort_by (x ∷ xs) = place x (sort_by xs)

  abbrev Starts : A → List A → Type 0
  Starts x [] = Unit
  Starts x (y ∷ ys) = key x ≤ key y

  -- In the order of the keys.
  abbrev pub IsSorted : List A → Type 0
  IsSorted [] = Unit
  IsSorted (x ∷ xs) = Starts x xs × IsSorted xs

  module _ {κ} (P : A → Type κ) where
    All-place : (x : A) (ys : List A) → P x → All P ys → All P (place x ys)
    All-place x [] p h = (p, tt)
    All-place x (y ∷ ys) p h =
        if_rule (λ r. All P r) (leb (key x) (key y)) _ _ (λ _. (p, h))
          (λ _. (h.0, All-place x ys p h.1))

    pub All-sort_by : (xs : List A) → All P xs → All P (sort_by xs)
    All-sort_by [] h = tt
    All-sort_by (x ∷ xs) h = All-place x (sort_by xs) h.0 (All-sort_by xs h.1)

  place-Starts : (z x : A) (ys : List A) → key z ≤ key x → Starts z ys → Starts z (place x ys)
  place-Starts z x [] le h = le
  place-Starts z x (y ∷ ys) le h =
      if_rule (λ r. Starts z r) (leb (key x) (key y)) _ _ (λ _. le) (λ _. h)

  place-IsSorted : (x : A) (ys : List A) → IsSorted ys → IsSorted (place x ys)
  place-IsSorted x [] h = (tt, tt)
  place-IsSorted x (y ∷ ys) h =
      if_rule (λ r. IsSorted r) (leb (key x) (key y)) _ _ (λ q. (ground (arith, q), h))
        (λ q. (place-Starts y x ys (ground (arith, q)) h.0, place-IsSorted x ys h.1))

  pub sort_by-IsSorted : (xs : List A) → IsSorted (sort_by xs)
  sort_by-IsSorted [] = tt
  sort_by-IsSorted (x ∷ xs) = place-IsSorted x (sort_by xs) (sort_by-IsSorted xs)

  place_first : (x : A) (ys : List A) → Starts x ys → place x ys ≡ x ∷ ys
  place_first x [] h = refl
  place_first x (y ∷ ys) h = ground (arith, h)

  pub sort_by_sorted : (xs : List A) → IsSorted xs → sort_by xs ≡ xs
  sort_by_sorted [] h = refl
  sort_by_sorted (x ∷ xs) h = ap (λ ys. place x ys) (sort_by_sorted xs h.1) ∙ place_first x xs h.0
